-- ===== src/Node/Settled.antt =====
-- What the switch of one capability leaves.
use onesilo_node.Base.{
  ◌≡◌, ◌⊎◌, inl, inr, refl, Bool, true, false, List, ◌∷◌, Option, none, some, Text, text_eq,
  text_eq_refl, Bool-cases,
}
use onesilo_node.Base.Assoc.{lookup, insert, delete, lookup-insert, lookup-delete}
use onesilo_node.Node.{
  Capability, Node, World, Action, name, key, enabled, text_or_empty, note_start_failure,
  clear_start_failure, is_running, cap_started, cap_stopped, cap_switch, reconcile_cap,
}

-- What is remembered of a failed start.
abbrev pub failure : (key : Text) → Node → Option Text
failure k n = lookup k n.start_failures

-- A capability that is enabled runs, or its start has failed and this is remembered; one that is not
-- enabled does not run, and no failure is remembered.
abbrev pub Settled : World → Capability → Node → Type 0
Settled w k n =
    (enabled n.cfg k ≡ true
      → (is_running k n ≡ true)
        ⊎ ((is_running k n ≡ false)
            × ((e : Text) × (w.start k ≡ some e) × (failure (key k) n ≡ some e))))
    × (enabled n.cfg k ≡ false → (is_running k n ≡ false) × (failure (key k) n ≡ none))

pub insert_self :
    {V : Type 0} (k : Text) (v : V) (m : List (Text × V)) → lookup k (insert k v m) ≡ some v
insert_self k v m = rw (lookup-insert k k v m) (rw (text_eq_refl k) refl)

pub delete_self : {V : Type 0} (k : Text) (m : List (Text × V)) → lookup k (delete k m) ≡ none
delete_self k m = rw (lookup-delete k k m) (rw (text_eq_refl k) refl)

pub failure-clear : (k : Text) (n : Node) → failure k (clear_start_failure k n) ≡ none
unfolding clear_start_failure
failure-clear k n = delete_self k n.start_failures

pub failure-note : (k e : Text) (n : Node) → failure k (note_start_failure k e n) ≡ some e
unfolding note_start_failure
failure-note k e n = elim (Bool-cases (text_eq (text_or_empty (lookup k n.start_failures)) e)) [
  | inl h ↦ rw h (insert_self k e n.start_failures)
  | inr h ↦ rw h (insert_self k e n.start_failures)
]

-- Two nodes that differ, if at all, not in the configuration and the entries of one capability.
pub record Same (k : Capability) (m n : Node) : Type 0 where
  pub cfg : m.cfg ≡ n.cfg
  pub running : lookup (name k) m.cap_running ≡ lookup (name k) n.cap_running
  pub failed : failure (key k) m ≡ failure (key k) n

pub Same-Settled :
    (w : World) (k : Capability) (m n : Node) → Same k m n → Settled w k n → Settled w k m
unfolding is_running
Same-Settled w k m n s h = rw (s.cfg, s.running, s.failed) h

pub note_keeps :
    (k e : Text) (n : Node)
    → ((note_start_failure k e n).cfg ≡ n.cfg)
      × ((note_start_failure k e n).cap_running ≡ n.cap_running)
      × ((note_start_failure k e n).tunnel_mgr ≡ n.tunnel_mgr)
      × ((note_start_failure k e n).managed_mgr ≡ n.managed_mgr)
unfolding note_start_failure
note_keeps k e n = elim (Bool-cases (text_eq (text_or_empty (lookup k n.start_failures)) e)) [
  | inl h ↦ rw h (refl, refl, refl, refl)
  | inr h ↦ rw h (refl, refl, refl, refl)
]

pub is_running-cap_stopped :
    (k : Capability) (o : Option Text) (n : Node) → is_running k (cap_stopped k o n) ≡ false
unfolding is_running cap_stopped
is_running-cap_stopped k none n = rw (insert_self (name k) false n.cap_running) refl
is_running-cap_stopped k (some e) n = rw (insert_self (name k) false n.cap_running) refl

pub cap_stopped_keeps :
    (k : Capability) (o : Option Text) (n : Node)
    → ((cap_stopped k o n).cfg ≡ n.cfg) × ((cap_stopped k o n).start_failures ≡ n.start_failures)
unfolding cap_stopped
cap_stopped_keeps k none n = (refl, refl)
cap_stopped_keeps k (some e) n = (refl, refl)

-- What the start of a capability that does not run leaves.
pub cap_started_lem :
    (k : Capability) (o : Option Text) (n : Node)
    → is_running k n ≡ false
    → ((cap_started k o n).cfg ≡ n.cfg)
      × ((is_running k (cap_started k o n) ≡ true)
          ⊎ ((is_running k (cap_started k o n) ≡ false)
              × ((e : Text) × (o ≡ some e) × (failure (key k) (cap_started k o n) ≡ some e))))
unfolding cap_started is_running clear_start_failure
cap_started_lem k none n r = (refl, inl (rw (insert_self (name k) true n.cap_running) refl))
cap_started_lem k (some e) n r =
    let (c, q, _, _) = note_keeps (key k) e n in
    (c, inr (rw q r, (e, refl, failure-note (key k) e n)))

pub cap_switch-Settled :
    (w : World) (k : Capability) (n : Node) (on running : Bool)
    → enabled n.cfg k ≡ on
    → is_running k n ≡ running
    → (on ≡ false → failure (key k) n ≡ none)
    → Settled w k (cap_switch w k on running n)
unfolding cap_switch
cap_switch-Settled w k n true true e r f = (λ _. inl r, λ h. absurd (cc))
cap_switch-Settled w k n false false e r f = (λ h. absurd (cc), λ _. (r, f refl))
cap_switch-Settled w k n true false e r f =
    let (c, s) =
      cap_started_lem k (w.start k) (record n { trace = Action.starts k ∷ n.trace })
        (unfold is_running in r) in
    (λ _. s, λ h. absurd (cc))
cap_switch-Settled w k n false true e r f =
    let m = record n { trace = Action.stops k ∷ n.trace } in
    let (c, q) = cap_stopped_keeps k (w.stop k) m in
    (λ h. absurd (cc), λ _. (is_running-cap_stopped k (w.stop k) m, rw q (f refl)))

pub reconcile_cap-Settled :
    (w : World) (k : Capability) (n : Node) → Settled w k (reconcile_cap w k n)
unfolding reconcile_cap
reconcile_cap-Settled w k n = elim (Bool-cases (enabled n.cfg k)) [
  | inl e ↦ rw e (cap_switch-Settled w k n true (is_running k n) e refl (λ h. absurd (cc)))
  | inr e ↦
      let m = clear_start_failure (key k) n in
      rw e (
        cap_switch-Settled w k m false (is_running k m) (unfold clear_start_failure in e) refl
          (λ _. failure-clear (key k) n))
]

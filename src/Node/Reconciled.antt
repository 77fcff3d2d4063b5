-- ===== src/Node/Reconciled.antt =====
-- What a reconcile leaves behind.
use onesilo_node.Base.{
  ◌≡◌, inl, inr, refl, ◌∙◌, Bool, true, false, List, [], ◌∷◌, none, some, Text, text_eq, All,
  Bool-cases,
}
use onesilo_node.Base.Assoc.{lookup, insert, delete, lookup-insert, lookup-delete}
use onesilo_node.Node.{
  Capability, Node, World, Action, name, key, enabled, capabilities, text_or_empty,
  note_start_failure, clear_start_failure, is_running, cap_started, cap_stopped, cap_switch,
  reconcile_cap, reconcile_caps,
}
use onesilo_node.Node.Settled.{
  Settled, Same, Same-Settled, note_keeps, cap_stopped_keeps, reconcile_cap-Settled,
}

-- Two capabilities have different entries.
abbrev pub Differ : Capability → Capability → Type 0
Differ k j = (text_eq (name k) (name j) ≡ false) × (text_eq (key k) (key j) ≡ false)

pub Same-trans : {j : Capability} {a b c : Node} → Same j a b → Same j b c → Same j a c
Same-trans s t = record {
  cfg = s.cfg ∙ t.cfg;
  running = s.running ∙ t.running;
  failed = s.failed ∙ t.failed;
}

pub insert_other :
    {V : Type 0} (k j : Text) (v : V) (m : List (Text × V))
    → text_eq k j ≡ false
    → lookup j (insert k v m) ≡ lookup j m
insert_other k j v m h = rw (lookup-insert k j v m) (rw h refl)

pub delete_other :
    {V : Type 0} (k j : Text) (m : List (Text × V))
    → text_eq k j ≡ false
    → lookup j (delete k m) ≡ lookup j m
delete_other k j m h = rw (lookup-delete k j m) (rw h refl)

pub Same-clear :
    (k : Text) (j : Capability) (n : Node)
    → text_eq k (key j) ≡ false
    → Same j (clear_start_failure k n) n
unfolding clear_start_failure
Same-clear k j n h = record {
  cfg = refl;
  running = refl;
  failed = delete_other k (key j) n.start_failures h;
}

pub Same-note :
    (k e : Text) (j : Capability) (n : Node)
    → text_eq k (key j) ≡ false
    → Same j (note_start_failure k e n) n
unfolding note_start_failure
Same-note k e j n h = elim (Bool-cases (text_eq (text_or_empty (lookup k n.start_failures)) e)) [
  | inl s ↦
      rw s (record {
        cfg = refl;
        running = refl;
        failed = insert_other k (key j) e n.start_failures h;
      })
  | inr s ↦
      rw s (record {
        cfg = refl;
        running = refl;
        failed = insert_other k (key j) e n.start_failures h;
      })
]

Same-switch :
    (w : World) (k j : Capability) (on running : Bool) (n : Node)
    → Differ k j
    → Same j (cap_switch w k on running n) n
unfolding cap_switch cap_started cap_stopped clear_start_failure
Same-switch w k j true true n d = record { cfg = refl; running = refl; failed = refl }
Same-switch w k j false false n d = record { cfg = refl; running = refl; failed = refl }
Same-switch w k j true false n d =
    elim (w.start k)
      as (λ o. Same j (cap_started k o (record n { trace = Action.starts k ∷ n.trace })) n) [
        | none ↦ record {
          cfg = refl;
          running = insert_other (name k) (name j) true n.cap_running d.0;
          failed = delete_other (key k) (key j) n.start_failures d.1;
        }
        | some e ↦
            let s = Same-note (key k) e j (record n { trace = Action.starts k ∷ n.trace }) d.1 in
            record { cfg = s.cfg; running = s.running; failed = s.failed }
      ]
Same-switch w k j false true n d =
    elim (w.stop k)
      as (λ o. Same j (cap_stopped k o (record n { trace = Action.stops k ∷ n.trace })) n) [
        | none ↦ record {
          cfg = refl;
          running = insert_other (name k) (name j) false n.cap_running d.0;
          failed = refl;
        }
        | some e ↦ record {
          cfg = refl;
          running = insert_other (name k) (name j) false n.cap_running d.0;
          failed = refl;
        }
      ]

pub Same-reconcile_cap :
    (w : World) (k j : Capability) (n : Node) → Differ k j → Same j (reconcile_cap w k n) n
unfolding reconcile_cap
Same-reconcile_cap w k j n d = elim (Bool-cases (enabled n.cfg k)) [
  | inl e ↦ rw e (Same-switch w k j true (is_running k n) n d)
  | inr e ↦
      let m = clear_start_failure (key k) n in
      rw e (Same-trans (Same-switch w k j false (is_running k m) m d) (Same-clear (key k) j n d.1))
]

reconcile_caps-keeps :
    (w : World) (ks : List Capability) (j : Capability) (n : Node)
    → All (λ k. Differ k j) ks
    → Settled w j n
    → Settled w j (reconcile_caps w ks n)
unfolding reconcile_caps
reconcile_caps-keeps w [] j n d h = h
reconcile_caps-keeps w (k ∷ ks) j n d h =
    let m = reconcile_cap w k n in
    reconcile_caps-keeps w ks j m d.1 (Same-Settled w j m n (Same-reconcile_cap w k j n d.0) h)

-- Each capability of the list has entries of its own.
abbrev pub Distinct : List Capability → Type 0
Distinct [] = Unit
Distinct (j ∷ ks) = All (λ k. Differ k j) ks × Distinct ks

pub reconcile_caps-Settled :
    (w : World) (ks : List Capability) (n : Node)
    → Distinct ks
    → All (λ k. Settled w k (reconcile_caps w ks n)) ks
unfolding reconcile_caps
reconcile_caps-Settled w [] n d = tt
reconcile_caps-Settled w (k ∷ ks) n d =
    let m = reconcile_cap w k n in
    (
      reconcile_caps-keeps w ks k m d.0 (reconcile_cap-Settled w k n),
      reconcile_caps-Settled w ks m d.1,
    )

pub capabilities-Distinct : Distinct capabilities
unfolding name key text_eq
capabilities-Distinct = (
  ((refl, refl), ((refl, refl), ((refl, refl), ((refl, refl), tt)))),
  (
    ((refl, refl), ((refl, refl), ((refl, refl), tt))),
    (((refl, refl), ((refl, refl), tt)), (((refl, refl), tt), (tt, tt))),
  ),
)

cfg-cap_switch :
    (w : World) (k : Capability) (on running : Bool) (n : Node)
    → (cap_switch w k on running n).cfg ≡ n.cfg
unfolding cap_switch cap_started cap_stopped clear_start_failure
cfg-cap_switch w k true true n = refl
cfg-cap_switch w k false false n = refl
cfg-cap_switch w k true false n =
    elim (w.start k)
      as (λ o. (cap_started k o (record n { trace = Action.starts k ∷ n.trace })).cfg ≡ n.cfg) [
        | none ↦ refl
        | some e ↦ (note_keeps (key k) e (record n { trace = Action.starts k ∷ n.trace })).0
      ]
cfg-cap_switch w k false true n =
    (cap_stopped_keeps k (w.stop k) (record n { trace = Action.stops k ∷ n.trace })).0

cfg-reconcile_cap : (w : World) (k : Capability) (n : Node) → (reconcile_cap w k n).cfg ≡ n.cfg
unfolding reconcile_cap clear_start_failure
cfg-reconcile_cap w k n = elim (Bool-cases (enabled n.cfg k)) [
  | inl e ↦ rw e (cfg-cap_switch w k true (is_running k n) n)
  | inr e ↦
      let m = clear_start_failure (key k) n in rw e (cfg-cap_switch w k false (is_running k m) m)
]

pub cfg-reconcile_caps :
    (w : World) (ks : List Capability) (n : Node) → (reconcile_caps w ks n).cfg ≡ n.cfg
unfolding reconcile_caps
cfg-reconcile_caps w [] n = refl
cfg-reconcile_caps w (k ∷ ks) n =
    cfg-reconcile_caps w ks (reconcile_cap w k n) ∙ cfg-reconcile_cap w k n

-- ===== src/Node/Untouched.antt =====
-- The capabilities' part of a reconcile and the tunnels.
use onesilo_node.Base.{
  ◌≡◌, inl, inr, refl, ◌∙◌, Bool, true, false, List, [], ◌∷◌, Option, none, some, Text, text_eq,
  text_eq_comm, Bool-cases,
}
use onesilo_node.Base.Assoc.{lookup}
use onesilo_node.Node.{
  Capability, starts, stops, Node, World, key, enabled, quick_key, managed_key, text_or_empty,
  note_start_failure, clear_start_failure, is_running, cap_started, cap_stopped, cap_switch,
  reconcile_cap, reconcile_caps,
}
use onesilo_node.Node.Settled.{failure}
use onesilo_node.Node.Reconciled.{insert_other, delete_other}
use onesilo_node.Node.Applied.{tunnel_keys}

-- What the capabilities leave alone.
pub record Untouched (m n : Node) : Type 0 where
  pub quick_failure : failure quick_key m ≡ failure quick_key n
  pub managed_failure : failure managed_key m ≡ failure managed_key n
  pub quick : m.tunnel_mgr ≡ n.tunnel_mgr
  pub managed : m.managed_mgr ≡ n.managed_mgr

Untouched-trans : {a b c : Node} → Untouched a b → Untouched b c → Untouched a c
Untouched-trans s t = record {
  quick_failure = s.quick_failure ∙ t.quick_failure;
  managed_failure = s.managed_failure ∙ t.managed_failure;
  quick = s.quick ∙ t.quick;
  managed = s.managed ∙ t.managed;
}

cap_keys :
    (k : Capability) → (text_eq (key k) quick_key ≡ false) × (text_eq (key k) managed_key ≡ false)
cap_keys k =
    let (q, m) = tunnel_keys k in
    (text_eq_comm (key k) quick_key ∙ q, text_eq_comm (key k) managed_key ∙ m)

Untouched-clear : (k : Capability) (n : Node) → Untouched (clear_start_failure (key k) n) n
unfolding clear_start_failure
Untouched-clear k n = record {
  quick_failure = delete_other (key k) quick_key n.start_failures (cap_keys k).0;
  managed_failure = delete_other (key k) managed_key n.start_failures (cap_keys k).1;
  quick = refl;
  managed = refl;
}

Untouched-note :
    (k : Capability) (e : Text) (n : Node) → Untouched (note_start_failure (key k) e n) n
unfolding note_start_failure
Untouched-note k e n =
    elim (Bool-cases (text_eq (text_or_empty (lookup (key k) n.start_failures)) e)) [
      | inl s ↦ rw s (record {
        quick_failure = insert_other (key k) quick_key e n.start_failures (cap_keys k).0;
        managed_failure = insert_other (key k) managed_key e n.start_failures (cap_keys k).1;
        quick = refl;
        managed = refl;
      })
      | inr s ↦ rw s (record {
        quick_failure = insert_other (key k) quick_key e n.start_failures (cap_keys k).0;
        managed_failure = insert_other (key k) managed_key e n.start_failures (cap_keys k).1;
        quick = refl;
        managed = refl;
      })
    ]

Untouched-refl : (n : Node) → Untouched n n
Untouched-refl n = record {
  quick_failure = refl;
  managed_failure = refl;
  quick = refl;
  managed = refl;
}

Untouched-cap_started :
    (k : Capability) (o : Option Text) (n : Node) → Untouched (cap_started k o n) n
unfolding cap_started
Untouched-cap_started k (some e) n = Untouched-note k e n
Untouched-cap_started k none n =
    let c = Untouched-clear k n in
    record {
      quick_failure = c.quick_failure;
      managed_failure = c.managed_failure;
      quick = c.quick;
      managed = c.managed;
    }

Untouched-cap_stopped :
    (k : Capability) (o : Option Text) (n : Node) → Untouched (cap_stopped k o n) n
unfolding cap_stopped
Untouched-cap_stopped k none n = record {
  quick_failure = refl;
  managed_failure = refl;
  quick = refl;
  managed = refl;
}
Untouched-cap_stopped k (some e) n = record {
  quick_failure = refl;
  managed_failure = refl;
  quick = refl;
  managed = refl;
}

Untouched-switch :
    (w : World) (k : Capability) (on running : Bool) (n : Node)
    → Untouched (cap_switch w k on running n) n
unfolding cap_switch
Untouched-switch w k true true n = Untouched-refl n
Untouched-switch w k false false n = Untouched-refl n
Untouched-switch w k true false n =
    let c = Untouched-cap_started k (w.start k) (record n { trace = starts k ∷ n.trace }) in
    record {
      quick_failure = c.quick_failure;
      managed_failure = c.managed_failure;
      quick = c.quick;
      managed = c.managed;
    }
Untouched-switch w k false true n =
    let c = Untouched-cap_stopped k (w.stop k) (record n { trace = stops k ∷ n.trace }) in
    record {
      quick_failure = c.quick_failure;
      managed_failure = c.managed_failure;
      quick = c.quick;
      managed = c.managed;
    }

Untouched-cap : (w : World) (k : Capability) (n : Node) → Untouched (reconcile_cap w k n) n
unfolding reconcile_cap
Untouched-cap w k n = elim (Bool-cases (enabled n.cfg k)) [
  | inl e ↦ rw e (Untouched-switch w k true (is_running k n) n)
  | inr e ↦
      let m = clear_start_failure (key k) n in
      rw e (Untouched-trans (Untouched-switch w k false (is_running k m) m) (Untouched-clear k n))
]

pub Untouched-caps :
    (w : World) (ks : List Capability) (n : Node) → Untouched (reconcile_caps w ks n) n
unfolding reconcile_caps
Untouched-caps w [] n = Untouched-refl n
Untouched-caps w (k ∷ ks) n =
    Untouched-trans (Untouched-caps w ks (reconcile_cap w k n)) (Untouched-cap w k n)

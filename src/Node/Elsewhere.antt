-- ===== src/Node/Elsewhere.antt =====
-- What the steps of a reconcile for the tunnels leave alone.
use onesilo_node.Base.{
  ◌≡◌, inl, inr, refl, ◌∙◌, Bool, true, false, [], Option, none, some, Text, text, text_eq,
  Bool-cases,
}
use onesilo_node.Base.Assoc.{lookup}
use onesilo_node.Node.{
  Node, World, quick_key, managed_key, text_or_empty, note_start_failure, clear_start_failure,
  wants, on_url_change, quick_started, quick_switch, reconcile_quick, managed_started,
  managed_switch, reconcile_managed, QuickTunnel, ManagedTunnel,
}
use onesilo_node.Node.Settled.{failure, note_keeps}
use onesilo_node.Node.Reconciled.{insert_other, delete_other}

-- Two nodes that differ, if at all, not in the configuration, what runs, and the failures under other
-- keys than one.
pub record Elsewhere (k : Text) (m n : Node) : Type 0 where
  pub cfg : m.cfg ≡ n.cfg
  pub running : m.cap_running ≡ n.cap_running
  pub failed : (j : Text) → text_eq k j ≡ false → failure j m ≡ failure j n

pub Elsewhere-trans :
    {k : Text} {a b c : Node} → Elsewhere k a b → Elsewhere k b c → Elsewhere k a c
Elsewhere-trans s t = record {
  cfg = s.cfg ∙ t.cfg;
  running = s.running ∙ t.running;
  failed = λ j h. s.failed j h ∙ t.failed j h;
}

pub Elsewhere-clear : (k : Text) (n : Node) → Elsewhere k (clear_start_failure k n) n
unfolding clear_start_failure
Elsewhere-clear k n = record {
  cfg = refl;
  running = refl;
  failed = λ j h. delete_other k j n.start_failures h;
}

pub Elsewhere-note : (k e : Text) (n : Node) → Elsewhere k (note_start_failure k e n) n
unfolding note_start_failure
Elsewhere-note k e n = elim (Bool-cases (text_eq (text_or_empty (lookup k n.start_failures)) e)) [
  | inl s ↦
      rw s (record {
        cfg = refl;
        running = refl;
        failed = λ j h. insert_other k j e n.start_failures h;
      })
  | inr s ↦
      rw s (record {
        cfg = refl;
        running = refl;
        failed = λ j h. insert_other k j e n.start_failures h;
      })
]

pub Elsewhere-refl : (k : Text) (n : Node) → Elsewhere k n n
Elsewhere-refl k n = record { cfg = refl; running = refl; failed = λ j h. refl }

pub Elsewhere-url : (k mode url : Text) (n : Node) → Elsewhere k (on_url_change mode url n) n
unfolding on_url_change
Elsewhere-url k mode url n = elim (Bool-cases (text_eq n.cfg.tunnel.mode mode)) [
  | inl h ↦ rw h (record { cfg = refl; running = refl; failed = λ j x. refl })
  | inr h ↦ rw h (Elsewhere-refl k n)
]

pub Elsewhere-quick_switch :
    (w : World) (want : Bool) (o : Option QuickTunnel) (n : Node)
    → Elsewhere quick_key (quick_switch w want o n) n
unfolding quick_switch quick_started
Elsewhere-quick_switch w true none n =
    elim w.start_quick as (λ s. Elsewhere quick_key (quick_started s n) n) [
      | none ↦
          let c = Elsewhere-clear quick_key n in
          record { cfg = c.cfg; running = c.running; failed = c.failed }
      | some e ↦ Elsewhere-note quick_key e n
    ]
Elsewhere-quick_switch w false (some t) n =
    let c = Elsewhere-url quick_key (text "quick") [] (record n { tunnel_mgr = none }) in
    record { cfg = c.cfg; running = c.running; failed = c.failed }
Elsewhere-quick_switch w true (some t) n = Elsewhere-refl quick_key n
Elsewhere-quick_switch w false none n = Elsewhere-refl quick_key n

pub Elsewhere-managed_switch :
    (w : World) (want : Bool) (o : Option ManagedTunnel) (n : Node)
    → Elsewhere managed_key (managed_switch w want o n) n
unfolding managed_switch managed_started
Elsewhere-managed_switch w true none n =
    elim w.start_managed as (λ s. Elsewhere managed_key (managed_started s n) n) [
      | none ↦
          let c = Elsewhere-clear managed_key n in
          record { cfg = c.cfg; running = c.running; failed = c.failed }
      | some e ↦ Elsewhere-note managed_key e n
    ]
Elsewhere-managed_switch w false (some t) n =
    let c = Elsewhere-url managed_key (text "managed") [] (record n { managed_mgr = none }) in
    record { cfg = c.cfg; running = c.running; failed = c.failed }
Elsewhere-managed_switch w true (some t) n = Elsewhere-refl managed_key n
Elsewhere-managed_switch w false none n = Elsewhere-refl managed_key n

pub Elsewhere-quick : (w : World) (n : Node) → Elsewhere quick_key (reconcile_quick w n) n
unfolding reconcile_quick
Elsewhere-quick w n = elim (Bool-cases (wants n.cfg (text "quick"))) [
  | inl h ↦ rw h (Elsewhere-quick_switch w true n.tunnel_mgr n)
  | inr h ↦ rw h (
      Elsewhere-trans
        (Elsewhere-quick_switch w false n.tunnel_mgr (clear_start_failure quick_key n))
        (Elsewhere-clear quick_key n))
]

pub Elsewhere-managed : (w : World) (n : Node) → Elsewhere managed_key (reconcile_managed w n) n
unfolding reconcile_managed
Elsewhere-managed w n = elim (Bool-cases (wants n.cfg (text "managed"))) [
  | inl h ↦ rw h (Elsewhere-managed_switch w true n.managed_mgr n)
  | inr h ↦ rw h (
      Elsewhere-trans
        (Elsewhere-managed_switch w false n.managed_mgr (clear_start_failure managed_key n))
        (Elsewhere-clear managed_key n))
]

pub tunnel_mgr-managed_switch :
    (w : World) (want : Bool) (o : Option ManagedTunnel) (n : Node)
    → (managed_switch w want o n).tunnel_mgr ≡ n.tunnel_mgr
unfolding managed_switch managed_started on_url_change clear_start_failure
tunnel_mgr-managed_switch w true none n =
    elim w.start_managed as (λ s. (managed_started s n).tunnel_mgr ≡ n.tunnel_mgr) [
      | none ↦ refl
      | some e ↦ let (_, _, q, _) = note_keeps managed_key e n in q
    ]
tunnel_mgr-managed_switch w false (some t) n =
    elim (Bool-cases (text_eq n.cfg.tunnel.mode (text "managed"))) [
      | inl h ↦ rw h refl
      | inr h ↦ rw h refl
    ]
tunnel_mgr-managed_switch w true (some t) n = refl
tunnel_mgr-managed_switch w false none n = refl

pub tunnel_mgr-managed : (w : World) (n : Node) → (reconcile_managed w n).tunnel_mgr ≡ n.tunnel_mgr
unfolding reconcile_managed
tunnel_mgr-managed w n = elim (Bool-cases (wants n.cfg (text "managed"))) [
  | inl h ↦ rw h (tunnel_mgr-managed_switch w true n.managed_mgr n)
  | inr h ↦ rw h (
      tunnel_mgr-managed_switch w false n.managed_mgr (clear_start_failure managed_key n)
      ∙ unfold clear_start_failure in refl)
]

pub managed_mgr-quick_switch :
    (w : World) (want : Bool) (o : Option QuickTunnel) (n : Node)
    → (quick_switch w want o n).managed_mgr ≡ n.managed_mgr
unfolding quick_switch quick_started on_url_change clear_start_failure
managed_mgr-quick_switch w true none n =
    elim w.start_quick as (λ s. (quick_started s n).managed_mgr ≡ n.managed_mgr) [
      | none ↦ refl
      | some e ↦ let (_, _, _, q) = note_keeps quick_key e n in q
    ]
managed_mgr-quick_switch w false (some t) n =
    elim (Bool-cases (text_eq n.cfg.tunnel.mode (text "quick"))) [
      | inl h ↦ rw h refl
      | inr h ↦ rw h refl
    ]
managed_mgr-quick_switch w true (some t) n = refl
managed_mgr-quick_switch w false none n = refl

pub managed_mgr-quick : (w : World) (n : Node) → (reconcile_quick w n).managed_mgr ≡ n.managed_mgr
unfolding reconcile_quick
managed_mgr-quick w n = elim (Bool-cases (wants n.cfg (text "quick"))) [
  | inl h ↦ rw h (managed_mgr-quick_switch w true n.tunnel_mgr n)
  | inr h ↦ rw h (
      managed_mgr-quick_switch w false n.tunnel_mgr (clear_start_failure quick_key n)
      ∙ unfold clear_start_failure in refl)
]

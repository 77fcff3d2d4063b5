-- ===== src/Node/Tunnels.antt =====
-- What a reconcile does to a tunnel.
use onesilo_node.Base.{
  ◌≡◌, ◌⊎◌, inl, inr, refl, sym, ◌∙◌, Bool, true, false, Option, none, some, Text, text, text_eq,
  Bool-cases, Option-cases,
}
use onesilo_node.Node.{
  Node, World, quick_key, managed_key, clear_start_failure, wants, on_url_change, quick_started,
  quick_switch, reconcile_quick, managed_started, managed_switch, reconcile_managed, QuickTunnel,
  ManagedTunnel,
}
use onesilo_node.Node.Settled.{failure, failure-clear, failure-note, note_keeps}

-- A tunnel that is wanted runs, or its start has failed with the error of this reconcile, which is
-- remembered. One that is not wanted does not run, and no failure is remembered.
abbrev pub TunnelDone :
    {T : Type 0} → (wanted : Bool) → (start remembered : Option Text) → Option T → Type 0
TunnelDone {T} true start remembered mgr =
    ((t : T) × (mgr ≡ some t))
    ⊎ ((mgr ≡ none) × ((e : Text) × (start ≡ some e) × (remembered ≡ some e)))
TunnelDone false start remembered mgr = (mgr ≡ none) × (remembered ≡ none)

quick_switch_lem :
    (w : World) (want : Bool) (o : Option QuickTunnel) (n : Node)
    → o ≡ n.tunnel_mgr
    → (want ≡ false → failure quick_key n ≡ none)
    → TunnelDone want w.start_quick
        (failure quick_key (quick_switch w want o n))
        (quick_switch w want o n).tunnel_mgr
unfolding quick_switch quick_started on_url_change
quick_switch_lem w true none n e f = elim (Option-cases w.start_quick) [
  | inl h ↦ rw (h, quick_started) (inl (_, refl))
  | inr (x, h) ↦
      rw (h, quick_started)
        (let (_, _, q, _) = note_keeps quick_key x n in
          inr (q ∙ sym e, (x, refl, failure-note quick_key x n)))
]
quick_switch_lem w false (some t) n e f =
    elim (Bool-cases (text_eq n.cfg.tunnel.mode (text "quick"))) [
      | inl h ↦ rw h (refl, f refl)
      | inr h ↦ rw h (refl, f refl)
    ]
quick_switch_lem w true (some t) n e f = inl (t, sym e)
quick_switch_lem w false none n e f = (sym e, f refl)

managed_switch_lem :
    (w : World) (want : Bool) (o : Option ManagedTunnel) (n : Node)
    → o ≡ n.managed_mgr
    → (want ≡ false → failure managed_key n ≡ none)
    → TunnelDone want w.start_managed
        (failure managed_key (managed_switch w want o n))
        (managed_switch w want o n).managed_mgr
unfolding managed_switch managed_started on_url_change
managed_switch_lem w true none n e f = elim (Option-cases w.start_managed) [
  | inl h ↦ rw (h, managed_started) (inl (_, refl))
  | inr (x, h) ↦
      rw (h, managed_started)
        (let (_, _, _, q) = note_keeps managed_key x n in
          inr (q ∙ sym e, (x, refl, failure-note managed_key x n)))
]
managed_switch_lem w false (some t) n e f =
    elim (Bool-cases (text_eq n.cfg.tunnel.mode (text "managed"))) [
      | inl h ↦ rw h (refl, f refl)
      | inr h ↦ rw h (refl, f refl)
    ]
managed_switch_lem w true (some t) n e f = inl (t, sym e)
managed_switch_lem w false none n e f = (sym e, f refl)

pub reconcile_quick_lem :
    (w : World) (n : Node)
    → TunnelDone
        (wants n.cfg (text "quick"))
        w.start_quick
        (failure quick_key (reconcile_quick w n))
        (reconcile_quick w n).tunnel_mgr
unfolding reconcile_quick
reconcile_quick_lem w n = elim (Bool-cases (wants n.cfg (text "quick"))) [
  | inl h ↦ rw h (quick_switch_lem w true n.tunnel_mgr n refl (λ x. absurd (cc)))
  | inr h ↦ rw h (
      quick_switch_lem w false n.tunnel_mgr (clear_start_failure quick_key n)
        (unfold clear_start_failure in refl) (λ _. failure-clear quick_key n))
]

pub reconcile_managed_lem :
    (w : World) (n : Node)
    → TunnelDone
        (wants n.cfg (text "managed"))
        w.start_managed
        (failure managed_key (reconcile_managed w n))
        (reconcile_managed w n).managed_mgr
unfolding reconcile_managed
reconcile_managed_lem w n = elim (Bool-cases (wants n.cfg (text "managed"))) [
  | inl h ↦ rw h (managed_switch_lem w true n.managed_mgr n refl (λ x. absurd (cc)))
  | inr h ↦ rw h (
      managed_switch_lem w false n.managed_mgr (clear_start_failure managed_key n)
        (unfold clear_start_failure in refl) (λ _. failure-clear managed_key n))
]

-- ===== src/Node/Quiet.antt =====
-- noteStartFailure: a standing cause is warned of once.
use onesilo_node.Base.{
  ℕ, zero, suc, ◌≡◌, inl, inr, refl, ap, ◌∙◌, Bool, true, false, List, [], ◌∷◌, Option, none, some,
  Text, text, text_eq, text_eq_refl, text_eq_comm, All, Bool-cases,
}
use onesilo_node.Node.{
  Capability, Action, starts, stops, warns, debugs, Node, World, name, key, enabled, capabilities,
  quick_key, managed_key, note_start_failure, clear_start_failure, is_running, cap_started,
  cap_switch, reconcile_cap, reconcile_caps, wants, quick_started, quick_switch, reconcile_quick,
  managed_started, managed_switch, reconcile_managed, reconcile_url, reconcile, QuickTunnel,
  ManagedTunnel,
}
use onesilo_node.Node.Settled.{failure, Settled, failure-clear, Same-Settled}
use onesilo_node.Node.Reconciled.{
  Same-reconcile_cap, Distinct, capabilities-Distinct, Differ, cfg-reconcile_caps,
}
use onesilo_node.Node.Tunnels.{TunnelDone}
use onesilo_node.Node.Elsewhere.{Elsewhere-quick, managed_mgr-quick}
use onesilo_node.Node.Untouched.{Untouched-caps}
use onesilo_node.Node.Applied.{IsApplied, reconcile-IsApplied, wants-eq}

-- The warnings of a trace.
unfoldable pub warnings : List Action → List Text
warnings [] = []
warnings (warns k ∷ t) = k ∷ warnings t
warnings (debugs k ∷ t) = warnings t
warnings (starts c ∷ t) = warnings t
warnings (stops c ∷ t) = warnings t

abbrev Quiet : (m n : Node) → Type 0
Quiet m n = warnings m.trace ≡ warnings n.trace

Quiet-note : (k e : Text) (n : Node) → failure k n ≡ some e → Quiet (note_start_failure k e n) n
unfolding note_start_failure warnings
Quiet-note k e n h = rw (h, text_eq_refl e) refl

Quiet-cap_started :
    (w : World) (k : Capability) (o : Option Text) (n : Node) (e : Text)
    → o ≡ some e
    → failure (key k) n ≡ some e
    → Quiet (cap_started k o (record n { trace = starts k ∷ n.trace })) n
unfolding cap_started warnings
Quiet-cap_started w k none n e h f = absurd (cc)
Quiet-cap_started w k (some x) n e h f =
    let q : e ≡ x = cc in
    Quiet-note (key k) x (record n { trace = starts k ∷ n.trace }) (f ∙ ap some q)

-- A capability that is settled stays so without a warning.
Quiet-switch :
    (w : World) (k : Capability) (n : Node) (on running : Bool)
    → enabled n.cfg k ≡ on
    → is_running k n ≡ running
    → Settled w k n
    → Quiet (cap_switch w k on running n) n
unfolding cap_switch
Quiet-switch w k n true true e r s = refl
Quiet-switch w k n false false e r s = refl
Quiet-switch w k n true false e r s = elim (s.0 e) [
  | inl h ↦ absurd (cc)
  | inr (_, (x, h, f)) ↦ Quiet-cap_started w k (w.start k) n x h f
]
Quiet-switch w k n false true e r s = let (q, _) = s.1 e in absurd (cc)

Quiet-reconcile_cap :
    (w : World) (k : Capability) (n : Node) → Settled w k n → Quiet (reconcile_cap w k n) n
unfolding reconcile_cap
Quiet-reconcile_cap w k n s = elim (Bool-cases (enabled n.cfg k)) [
  | inl e ↦ rw e (Quiet-switch w k n true (is_running k n) e refl s)
  | inr e ↦
      let m = clear_start_failure (key k) n in
      let r : is_running k m ≡ false = unfold clear_start_failure is_running in (s.1 e).0 in
      let t : Settled w k m = (
        λ h. let g : enabled n.cfg k ≡ true = unfold clear_start_failure in h in absurd (cc),
        λ _. (r, failure-clear (key k) n),
      ) in
      rw e (
        Quiet-switch w k m false (is_running k m) (unfold clear_start_failure in e) refl t
        ∙ unfold clear_start_failure in refl)
]

Settled-rest :
    (w : World) (k : Capability) (ks : List Capability) (n : Node)
    → All (λ j. Differ j k) ks
    → All (λ j. Settled w j n) ks
    → All (λ j. Settled w j (reconcile_cap w k n)) ks
Settled-rest w k [] n d s = tt
Settled-rest w k (j ∷ ks) n d s =
    let flip : Differ k j =
      (text_eq_comm (name k) (name j) ∙ d.0.0, text_eq_comm (key k) (key j) ∙ d.0.1) in
    (
      Same-Settled w j (reconcile_cap w k n) n (Same-reconcile_cap w k j n flip) s.0,
      Settled-rest w k ks n d.1 s.1,
    )

Quiet-reconcile_caps :
    (w : World) (ks : List Capability) (n : Node)
    → Distinct ks
    → All (λ k. Settled w k n) ks
    → Quiet (reconcile_caps w ks n) n
unfolding reconcile_caps
Quiet-reconcile_caps w [] n d s = refl
Quiet-reconcile_caps w (k ∷ ks) n d s =
    let m = reconcile_cap w k n in
    Quiet-reconcile_caps w ks m d.1 (Settled-rest w k ks n d.0 s.1) ∙ Quiet-reconcile_cap w k n s.0

Quiet-quick_switch :
    (w : World) (want : Bool) (o : Option QuickTunnel) (n : Node)
    → TunnelDone want w.start_quick (failure quick_key n) o
    → Quiet (quick_switch w want o n) n
unfolding quick_switch
Quiet-quick_switch w true none n (inl (t, e)) = absurd (cc)
Quiet-quick_switch w true none n (inr (_, (e, h, f))) =
    rw h (unfold quick_started in Quiet-note quick_key e n f)
Quiet-quick_switch w false (some t) n (e, f) = absurd (cc)
Quiet-quick_switch w true (some t) n d = refl
Quiet-quick_switch w false none n d = refl

Quiet-managed_switch :
    (w : World) (want : Bool) (o : Option ManagedTunnel) (n : Node)
    → TunnelDone want w.start_managed (failure managed_key n) o
    → Quiet (managed_switch w want o n) n
unfolding managed_switch
Quiet-managed_switch w true none n (inl (t, e)) = absurd (cc)
Quiet-managed_switch w true none n (inr (_, (e, h, f))) =
    rw h (unfold managed_started in Quiet-note managed_key e n f)
Quiet-managed_switch w false (some t) n (e, f) = absurd (cc)
Quiet-managed_switch w true (some t) n d = refl
Quiet-managed_switch w false none n d = refl

Quiet-reconcile_quick :
    (w : World) (n : Node)
    → TunnelDone (wants n.cfg (text "quick")) w.start_quick (failure quick_key n) n.tunnel_mgr
    → Quiet (reconcile_quick w n) n
unfolding reconcile_quick
Quiet-reconcile_quick w n = elim (Bool-cases (wants n.cfg (text "quick"))) [
  | inl h ↦ rw h (λ d. Quiet-quick_switch w true n.tunnel_mgr n d)
  | inr h ↦
      let m = clear_start_failure quick_key n in
      rw h (λ d.
        Quiet-quick_switch w false n.tunnel_mgr m (d.0, failure-clear quick_key n)
        ∙ unfold clear_start_failure in refl)
]

Quiet-reconcile_managed :
    (w : World) (n : Node)
    → TunnelDone
        (wants n.cfg (text "managed"))
        w.start_managed
        (failure managed_key n)
        n.managed_mgr
    → Quiet (reconcile_managed w n) n
unfolding reconcile_managed
Quiet-reconcile_managed w n = elim (Bool-cases (wants n.cfg (text "managed"))) [
  | inl h ↦ rw h (λ d. Quiet-managed_switch w true n.managed_mgr n d)
  | inr h ↦
      let m = clear_start_failure managed_key n in
      rw h (λ d.
        Quiet-managed_switch w false n.managed_mgr m (d.0, failure-clear managed_key n)
        ∙ unfold clear_start_failure in refl)
]

All-Settled :
    (w : World) (n : Node)
    → ((k : Capability) → Settled w k n)
    → (ks : List Capability) → All (λ k. Settled w k n) ks
All-Settled w n h [] = tt
All-Settled w n h (k ∷ ks) = (h k, All-Settled w n h ks)

-- A node that a reconcile has left so gets no warning from the next one.
reconcile-Quiet : (w : World) (n : Node) → IsApplied w n → Quiet (reconcile w n) n
unfolding reconcile reconcile_url
reconcile-Quiet w n d =
    let a = reconcile_caps w capabilities n in
    let b = reconcile_quick w a in
    let u = Untouched-caps w capabilities n in
    let e = Elsewhere-quick w a in
    let ca = cfg-reconcile_caps w capabilities n in
    let q : TunnelDone (wants a.cfg (text "quick")) w.start_quick (failure quick_key a)
        a.tunnel_mgr =
      rw (u.quick_failure, u.quick, ca)
        (rw (wants-eq n.cfg (text "quick") (unfold text_eq in refl)) d.quick) in
    let m : TunnelDone (wants b.cfg (text "managed")) w.start_managed (failure managed_key b)
        b.managed_mgr =
      rw
        (
          e.failed managed_key (unfold text_eq in refl),
          managed_mgr-quick w a,
          e.cfg,
          u.managed_failure,
          u.managed,
          ca,
        )
        (rw (wants-eq n.cfg (text "managed") (unfold text_eq in refl)) d.managed) in
    Quiet-reconcile_managed w b m
    ∙ Quiet-reconcile_quick w a q
    ∙ Quiet-reconcile_caps w capabilities n capabilities-Distinct
        (All-Settled w n d.capability capabilities)

-- Ticks that all end the same way.
unfoldable pub rounds : World → ℕ → Node → Node
rounds w zero n = n
rounds w (suc r) n = reconcile w (rounds w r n)

-- However often the node is reconciled while the starts end the same way: it warns of what the first
-- reconcile warned of, and of nothing more.
pub warnings-rounds :
    (w : World) (n : Node) (r : ℕ)
    → warnings (rounds w (suc r) n).trace ≡ warnings (reconcile w n).trace
unfolding rounds
warnings-rounds w n zero = refl
warnings-rounds w n (suc r) =
    reconcile-Quiet w (rounds w (suc r) n) (reconcile-IsApplied w (rounds w r n)).0
    ∙ warnings-rounds w n r

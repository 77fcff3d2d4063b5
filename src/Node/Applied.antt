-- ===== src/Node/Applied.antt =====
-- Reconcile as a whole: the capabilities, the tunnels and the URL to register.
use onesilo_node.Base.{
  ◌≡◌, inl, inr, refl, ap, ◌∙◌, true, false, [], arith, Text, text, text_eq, text_eq_iff,
  Bool-cases,
}
use onesilo_node.Base.Assoc.{lookup}
use onesilo_node.Config.{Config, exposed}
use onesilo_node.Controlplane.Manager.{kick, set_tunnel_url}
use onesilo_node.Node.{
  Capability, compute, memory, gateway, openai, lan, Node, World, name, key, enabled, capabilities,
  quick_key, managed_key, is_running, reconcile_caps, any_enabled, wants, reconcile_quick,
  reconcile_managed, desired_url, reconcile_url, reconcile, url_of_quick, url_of_managed,
}
use onesilo_node.Node.Settled.{failure, Settled, Same-Settled}
use onesilo_node.Node.Reconciled.{reconcile_caps-Settled, capabilities-Distinct, cfg-reconcile_caps}
use onesilo_node.Node.Tunnels.{TunnelDone, reconcile_quick_lem, reconcile_managed_lem}
use onesilo_node.Node.Elsewhere.{Elsewhere, Elsewhere-quick, Elsewhere-managed, tunnel_mgr-managed}

-- What the node then is, by the configuration and the outcomes of the starts alone.
pub record IsApplied (w : World) (n : Node) : Type 0 where
  pub capability : (k : Capability) → Settled w k n
  pub quick :
      TunnelDone
        (text_eq n.cfg.tunnel.mode (text "quick"))
        w.start_quick
        (failure quick_key n)
        n.tunnel_mgr
  pub managed :
      TunnelDone
        (text_eq n.cfg.tunnel.mode (text "managed"))
        w.start_managed
        (failure managed_key n)
        n.managed_mgr
  pub off : n.cfg.tunnel.mode ≡ text "off" → n.reg_mgr.tunnel_url ≡ []
  pub external :
      n.cfg.tunnel.mode ≡ text "external" → n.reg_mgr.tunnel_url ≡ n.cfg.tunnel.external_url
  pub by_quick : n.cfg.tunnel.mode ≡ text "quick" → n.reg_mgr.tunnel_url ≡ url_of_quick n.tunnel_mgr
  pub by_managed :
      n.cfg.tunnel.mode ≡ text "managed" → n.reg_mgr.tunnel_url ≡ url_of_managed n.managed_mgr
  pub kicked : n.reg_mgr.kicked ≡ true

-- The LAN capability is enabled on every exposed node, so the test for an enabled capability does not
-- decide.
pub any_enabled-exposed : (c : Config) → exposed c ≡ true → any_enabled c capabilities ≡ true
unfolding any_enabled enabled
any_enabled-exposed c h = rw h (ground arith)

pub wants-eq :
    (c : Config) (mode : Text)
    → text_eq mode (text "off") ≡ false
    → wants c mode ≡ text_eq c.tunnel.mode mode
unfolding exposed
wants-eq c mode d = elim (Bool-cases (text_eq c.tunnel.mode mode)) [
  | inl h ↦
      let m = (text_eq_iff c.tunnel.mode mode).0 h in
      let e : exposed c ≡ true = rw (m, d) refl in rw (h, e, any_enabled-exposed c e) refl
  | inr h ↦ rw h (ground arith)
]

set_tunnel_url_lem :
    (url : Text) (n : Node) → (kick (set_tunnel_url url n.reg_mgr)).tunnel_url ≡ url
unfolding set_tunnel_url kick
set_tunnel_url_lem url n = ground arith

-- The choice of the URL, by the mode.
record IsChosen (n : Node) (url : Text) : Type 0 where
  off : n.cfg.tunnel.mode ≡ text "off" → url ≡ []
  external : n.cfg.tunnel.mode ≡ text "external" → url ≡ n.cfg.tunnel.external_url
  by_quick : n.cfg.tunnel.mode ≡ text "quick" → url ≡ url_of_quick n.tunnel_mgr
  by_managed : n.cfg.tunnel.mode ≡ text "managed" → url ≡ url_of_managed n.managed_mgr

desired_url-IsChosen : (n : Node) → IsChosen n (desired_url n)
unfolding desired_url exposed text_eq
desired_url-IsChosen n = record {
  off = λ h. rw h refl;
  external = λ h. rw h refl;
  by_quick = λ h. rw h refl;
  by_managed = λ h. rw h refl;
}

Settled-caps :
    (w : World) (n : Node) (k : Capability) → Settled w k (reconcile_caps w capabilities n)
Settled-caps w n k =
    let h = reconcile_caps-Settled w capabilities n capabilities-Distinct in
    elim k as (λ k. Settled w k (reconcile_caps w capabilities n)) [
      | compute ↦ h.0
      | memory ↦ h.1.0
      | gateway ↦ h.1.1.0
      | openai ↦ h.1.1.1.0
      | lan ↦ h.1.1.1.1.0
    ]

pub tunnel_keys :
    (k : Capability) → (text_eq quick_key (key k) ≡ false) × (text_eq managed_key (key k) ≡ false)
unfolding key name text_eq
tunnel_keys compute = (refl, refl)
tunnel_keys memory = (refl, refl)
tunnel_keys gateway = (refl, refl)
tunnel_keys openai = (refl, refl)
tunnel_keys lan = (refl, refl)

Elsewhere-Settled :
    (w : World) (t : Text) (k : Capability) (m n : Node)
    → Elsewhere t m n
    → text_eq t (key k) ≡ false
    → Settled w k n
    → Settled w k m
Elsewhere-Settled w t k m n e d h =
    Same-Settled w k m n
      (record {
        cfg = e.cfg;
        running = ap (lookup (name k)) e.running;
        failed = e.failed (key k) d;
      })
      h

-- The last step keeps everything but the registration.
reconcile_url-Settled :
    (w : World) (k : Capability) (n : Node) → Settled w k n → Settled w k (reconcile_url n)
unfolding reconcile_url is_running
reconcile_url-Settled w k n h = h

-- After a reconcile, whatever was before it: each capability that is enabled runs, or its start has
-- just failed with the error that is remembered; one that is not enabled does not run. The tunnel of
-- the mode runs, or its start has just failed so; no other tunnel runs. The manager of the
-- registration is awake, with the URL of the mode: none when the node is not exposed, the external
-- one, or that of the tunnel. The configuration is the same.
pub reconcile-IsApplied :
    (w : World) (n : Node) → IsApplied w (reconcile w n) × ((reconcile w n).cfg ≡ n.cfg)
unfolding reconcile reconcile_url
reconcile-IsApplied w n =
    let a = reconcile_caps w capabilities n in
    let b = reconcile_quick w a in
    let c = reconcile_managed w b in
    let q = Elsewhere-quick w a in
    let m = Elsewhere-managed w b in
    let u = desired_url-IsChosen c in
    let s = set_tunnel_url_lem (desired_url c) c in
    (
      record {
        capability = λ k.
            let d = tunnel_keys k in
            unfold reconcile_url in
            reconcile_url-Settled w k c (
              Elsewhere-Settled w managed_key k c b m d.1
                (Elsewhere-Settled w quick_key k b a q d.0 (Settled-caps w n k)));
        quick =
            rw (tunnel_mgr-managed w b, m.failed quick_key (unfold text_eq in refl), m.cfg, q.cfg)
              (rw (← wants-eq a.cfg (text "quick") (unfold text_eq in refl))
                (reconcile_quick_lem w a));
        managed = rw m.cfg (
            rw (← wants-eq b.cfg (text "managed") (unfold text_eq in refl))
              (reconcile_managed_lem w b));
        off = λ h. s ∙ u.off h;
        external = λ h. s ∙ u.external h;
        by_quick = λ h. s ∙ u.by_quick h;
        by_managed = λ h. s ∙ u.by_managed h;
        kicked = unfold kick in refl;
      },
      m.cfg ∙ q.cfg ∙ cfg-reconcile_caps w capabilities n,
    )

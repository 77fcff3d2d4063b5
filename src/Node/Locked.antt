-- ===== src/Node/Locked.antt =====
-- The configuration of a running node, over all that reaches it.
use onesilo_node.Base.{
  ◌≡◌, ◌⊎◌, inl, inr, refl, sym, ap, ◌∙◌, true, List, [], ◌∷◌, Option, none, some, Text, text,
}
use onesilo_node.Config.{Config, ConfigError, OpenAi, Platform, validate}
use onesilo_node.Config.Safe.{IsSafe, validate-IsSafe}
use onesilo_node.Openai.Keys.{
  KeyStore, Std, Draw, Switches, mint_for_control_plane, provider_mint, provide_result,
}
use onesilo_node.Node.{World}
use onesilo_node.Node.Elsewhere.{Elsewhere-url}
use onesilo_node.Node.Applied.{reconcile-IsApplied}
use onesilo_node.Node.Patch.{
  ConfigPatch, OpenAiPatch, Event, patches, ticks, quick_url, managed_url, Machine, apply_to, group,
  patch_openai, adopt, judged, apply_config_patch, step, run, with_quick_url, with_managed_url,
}

-- The switches of the key provider, which reads them live.
abbrev pub switches_of : Config → Switches
switches_of c = record {
  publish = c.openai.publish_key_to_control_plane;
  enabled = c.openai.enabled;
  compute = c.capabilities.compute;
}

mint_on :
    (std : Std) (c : Config) (draw : Draw) (written : Option Text) (s : KeyStore)
    → c.openai.publish_key_to_control_plane ≡ true
    → c.openai.enabled ≡ true
    → c.capabilities.compute ≡ true
    → provider_mint std (switches_of c) draw written s
      ≡ (let (t, r) = mint_for_control_plane std draw written s in (t, provide_result r))
unfolding provider_mint
mint_on std c draw written s a b d = rw (a, b, d) refl

module _ (p : Platform) where
  -- A patch that is taken has passed validation and stands in the file.
  record IsTaken (patch : ConfigPatch) (m n : Machine) : Type 0 where
    merged : n.node.cfg ≡ apply_to patch m.node.cfg
    passed : validate p n.node.cfg ≡ none
    written : n.file ≡ some n.node.cfg

  abbrev IsKept : Machine → Machine → Type 0
  IsKept m n = (n.node.cfg ≡ m.node.cfg) × (n.file ≡ m.file)

  adopt_cfg :
      (patch : ConfigPatch) (saved : Option Text) (w : World) (m : Machine)
      → validate p (apply_to patch m.node.cfg) ≡ none
      → let n = (adopt p (apply_to patch m.node.cfg) saved w m).0 in IsKept m n ⊎ IsTaken patch m n
  unfolding adopt
  adopt_cfg patch (some e) w m v = inl (refl, refl)
  adopt_cfg patch none w m v =
      let next = apply_to patch m.node.cfg in
      let same = (reconcile-IsApplied w (record m.node { cfg = next })).1 in
      inr (record { merged = same; passed = rw same v; written = rw same refl })

  judged_cfg :
      (patch : ConfigPatch) (o : Option ConfigError) (saved : Option Text) (w : World) (m : Machine)
      → validate p (apply_to patch m.node.cfg) ≡ o
      → let n = (judged p o (apply_to patch m.node.cfg) saved w m).0 in
        IsKept m n ⊎ IsTaken patch m n
  unfolding judged
  judged_cfg patch (some e) saved w m v = inl (refl, refl)
  judged_cfg patch none saved w m v = adopt_cfg patch saved w m v

  step_cfg :
      (e : Event) (m : Machine)
      → IsKept m (step p e m) ⊎ ((patch : ConfigPatch) × IsTaken patch m (step p e m))
  unfolding step apply_config_patch
  step_cfg (patches patch saved w) m =
      elim (judged_cfg patch (validate p (apply_to patch m.node.cfg)) saved w m refl) [
        | inl k ↦ inl k
        | inr t ↦ inr (patch, t)
      ]
  step_cfg (ticks w) m = inl ((reconcile-IsApplied w m.node).1, refl)
  step_cfg (quick_url u) m =
      let e =
        Elsewhere-url [] (text "quick") u
          (record m.node { tunnel_mgr = with_quick_url u m.node.tunnel_mgr }) in
      inl (e.cfg, refl)
  step_cfg (managed_url u) m =
      let e =
        Elsewhere-url [] (text "managed") u
          (record m.node { managed_mgr = with_managed_url u m.node.managed_mgr }) in
      inl (e.cfg, refl)

  -- What holds of the machine `n` that `m` has become.
  abbrev IsPersisted : Machine → Machine → Type 0
  IsPersisted m n = (validate p n.node.cfg ≡ none) × (IsKept m n ⊎ (n.file ≡ some n.node.cfg))

  IsPersisted-trans : (a b c : Machine) → IsPersisted a b → IsPersisted b c → IsPersisted a c
  IsPersisted-trans a b c (v, x) (u, inr f) = (u, inr f)
  IsPersisted-trans a b c (v, inl (x, y)) (u, inl (k, f)) = (u, inl (k ∙ x, f ∙ y))
  IsPersisted-trans a b c (v, inr g) (u, inl (k, f)) = (u, inr (f ∙ g ∙ ap some (sym k)))

  step-IsPersisted :
      (e : Event) (m : Machine) → validate p m.node.cfg ≡ none → IsPersisted m (step p e m)
  step-IsPersisted e m v = elim (step_cfg e m) [
    | inl (k, f) ↦ (rw k v, inl (k, f))
    | inr (patch, t) ↦ (t.passed, inr t.written)
  ]

  run_persists :
      (es : List Event) (m : Machine) → validate p m.node.cfg ≡ none → IsPersisted m (run p es m)
  unfolding run
  run_persists [] m v = (v, inl (refl, refl))
  run_persists (e ∷ es) m v =
      let n = step p e m in
      let s = step-IsPersisted e m v in IsPersisted-trans m n (run p es n) s (run_persists es n s.0)

  -- From a configuration that has passed validation on: whatever patches are sent, however the writes
  -- of the file and the starts end, the live configuration passes validation. So a node that relays or
  -- whose tunnel is not off has a control plane URL with https, or with http to a loopback host, an
  -- external tunnel has an https URL, the ports are in range, the OpenAI surface runs only with compute
  -- and a key is published only with the surface. And the live configuration is either that of the
  -- start, with the file untouched, or what the file holds.
  pub run-IsPersisted :
      (es : List Event) (m : Machine)
      → validate p m.node.cfg ≡ none
      → let n = run p es m in
        (validate p n.node.cfg ≡ none)
        × IsSafe p n.node.cfg
        × (((n.node.cfg ≡ m.node.cfg) × (n.file ≡ m.file)) ⊎ (n.file ≡ some n.node.cfg))
  run-IsPersisted es m v =
      let h = run_persists es m v in (h.0, validate-IsSafe p (run p es m).node.cfg h.0, h.1)

  publish-group :
      (o : Option OpenAiPatch) (a : OpenAi)
      → (group patch_openai o a).publish_key_to_control_plane ≡ a.publish_key_to_control_plane
  unfolding patch_openai
  publish-group none a = refl
  publish-group (some q) a = refl

  publish-apply_to :
      (patch : ConfigPatch) (c : Config)
      → (apply_to patch c).openai.publish_key_to_control_plane
        ≡ c.openai.publish_key_to_control_plane
  unfolding apply_to
  publish-apply_to patch c = publish-group patch.openai c.openai

  step_publishes :
      (e : Event) (m : Machine)
      → (step p e m).node.cfg.openai.publish_key_to_control_plane
        ≡ m.node.cfg.openai.publish_key_to_control_plane
  step_publishes e m = elim (step_cfg e m) [
    | inl (k, f) ↦ rw k refl
    | inr (patch, t) ↦ rw t.merged (publish-apply_to patch m.node.cfg)
  ]

  run_publishes :
      (es : List Event) (m : Machine)
      → (run p es m).node.cfg.openai.publish_key_to_control_plane
        ≡ m.node.cfg.openai.publish_key_to_control_plane
  unfolding run
  run_publishes [] m = refl
  run_publishes (e ∷ es) m = run_publishes es (step p e m) ∙ step_publishes e m

  -- The setting to publish a key to the control plane cannot be taken back while the node runs: from a
  -- configuration that has passed validation and has it, whatever patches are sent, the setting, the
  -- OpenAI surface and compute stay enabled; so Mint of the key provider, whenever a registration calls
  -- it, mints a key for the control plane or fails as minting does, and is never switched off.
  pub run-publishes :
      (es : List Event) (m : Machine) (std : Std) (draw : Draw) (written : Option Text)
      (s : KeyStore)
      → validate p m.node.cfg ≡ none
      → m.node.cfg.openai.publish_key_to_control_plane ≡ true
      → let c = (run p es m).node.cfg in
        (c.openai.publish_key_to_control_plane ≡ true)
        × (c.openai.enabled ≡ true)
        × (c.capabilities.compute ≡ true)
        × (provider_mint std (switches_of c) draw written s
            ≡ (let (t, r) = mint_for_control_plane std draw written s in (t, provide_result r)))
  run-publishes es m std draw written s v on =
      let safe = (run-IsPersisted es m v).1 in
      let still = run_publishes es m ∙ on in
      let serving = safe.publish still in
      let computing = safe.openai serving in
      (
        still,
        serving,
        computing,
        mint_on std (run p es m).node.cfg draw written s still serving computing,
      )

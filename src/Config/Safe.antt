-- ===== src/Config/Safe.antt =====
-- What a configuration that passes has.
use onesilo_node.Base.{
  ℕ, ◌≡◌, ◌≢◌, ◌⊎◌, ◌≤◌, inl, inr, refl, Bool, true, false, not, ◌&&◌, ◌||◌, List, [], ◌∷◌, Option,
  none, some, arith, Text, text, text_eq, text_eq_iff, starts_with, All, Bool-cases, Option-cases,
  if◌then◌else◌,
}
use onesilo_node.Base.Int.{ℤ, pos, negsuc}
use onesilo_node.Config.{
  Config, ConfigError, Platform, Url, must, exposed, is_loopback, judge_url, is_port, first_error,
  require_secure_url, checks, validate,
}

first_error-All : (l : List (Option ConfigError)) → first_error l ≡ none → All (λ o. o ≡ none) l
unfolding first_error
first_error-All [] h = tt
first_error-All (none ∷ l) h = (refl, first_error-All l h)
first_error-All (some e ∷ l) h = absurd (cc)

must-none : (b : Bool) (e : ConfigError) → must b e ≡ none → b ≡ true
must-none true e h = refl
must-none false e h = absurd (cc)

-- https, or http to a loopback host.
pub record IsSecure (p : Platform) (raw : Text) : Type 0 where
  url : Url
  parsed : p.parse_url raw ≡ some url
  secure :
      (url.scheme ≡ text "https") ⊎ ((url.scheme ≡ text "http") × (is_loopback url.hostname ≡ true))

IsPort : ℤ → Type 0
IsPort z = (n : ℕ) × (z ≡ pos n) × (1 ≤ n) × (n ≤ 65535)

pub record IsSafe (p : Platform) (c : Config) : Type 0 where
  remote : (c.mode ≡ text "gateway") ⊎ (c.tunnel.mode ≢ text "off") → IsSecure p c.control_plane.url
  external :
      c.tunnel.mode ≡ text "external" → starts_with c.tunnel.external_url (text "https://") ≡ true
  lan_port : IsPort c.lan.port
  admin_port : IsPort c.admin.port
  pub openai : c.openai.enabled ≡ true → c.capabilities.compute ≡ true
  pub publish : c.openai.publish_key_to_control_plane ≡ true → c.openai.enabled ≡ true

is_port-IsPort : (z : ℤ) → is_port z ≡ true → IsPort z
unfolding is_port IsPort
is_port-IsPort (pos n) h = (n, refl, ground arith, ground arith)
is_port-IsPort (negsuc n) h = absurd (cc)

judge_url-secure :
    (u : Url)
    → judge_url u ≡ none
    → (u.scheme ≡ text "https") ⊎ ((u.scheme ≡ text "http") × (is_loopback u.hostname ≡ true))
unfolding judge_url
judge_url-secure u h = elim (Bool-cases (text_eq u.scheme (text "https"))) [
  | inl e ↦ inl ((text_eq_iff u.scheme (text "https")).0 e)
  | inr f ↦ elim (Bool-cases (text_eq u.scheme (text "http"))) [
    | inl e ↦ inr ((text_eq_iff u.scheme (text "http")).0 e, ground arith)
    | inr g ↦ absurd (ground arith)
  ]
]

then_none :
    (b : Bool) (o : Option ConfigError) → (if b then o else none) ≡ none → b ≡ true → o ≡ none
then_none true o h e = h
then_none false o h e = absurd (cc)

implied : (a b : Bool) → (not a || b) ≡ true → a ≡ true → b ≡ true
implied a b h e = ground arith

needed : (a b : Bool) → not (a && not b) ≡ true → a ≡ true → b ≡ true
needed a b h e = ground arith

is_remote :
    (c : Config)
    → (c.mode ≡ text "gateway") ⊎ (c.tunnel.mode ≢ text "off")
    → (text_eq c.mode (text "gateway") || not (text_eq c.tunnel.mode (text "off"))) ≡ true
is_remote c (inl e) = let g = (text_eq_iff c.mode (text "gateway")).1 e in ground arith
is_remote c (inr n) = elim (Bool-cases (text_eq c.tunnel.mode (text "off"))) [
  | inl e ↦ absurd (n ((text_eq_iff c.tunnel.mode (text "off")).0 e))
  | inr f ↦ ground arith
]

module _ (p : Platform) where
  require_secure_url-IsSecure : (raw : Text) → require_secure_url p raw ≡ none → IsSecure p raw
  unfolding require_secure_url
  require_secure_url-IsSecure raw h = elim (Option-cases (p.parse_url raw)) [
    | inl e ↦ absurd (ground arith)
    | inr ue ↦
        let (u, e) = ue in
        record { url = u; parsed = e; secure = judge_url-secure u (ground arith) }
  ]

  -- What a configuration that passes validation has: a node that relays or is exposed has a control
  -- plane URL with https, or with http to a loopback host, and an external
  -- tunnel has an https URL. Its ports are in range, the OpenAI surface runs only with compute, and a
  -- key is published only with the surface.
  pub validate-IsSafe : (c : Config) → validate p c ≡ none → IsSafe p c
  unfolding validate checks exposed
  validate-IsSafe c h =
      let q = first_error-All (checks p c) h in
      record {
        remote = λ r. require_secure_url-IsSecure c.control_plane.url (
            then_none (text_eq c.mode (text "gateway") || not (text_eq c.tunnel.mode (text "off")))
              _ q.1.1.1.1.1.1.0 (is_remote c r));
        external = λ e.
            implied (text_eq c.tunnel.mode (text "external")) _
              (must-none
                (not (text_eq c.tunnel.mode (text "external"))
                  || starts_with c.tunnel.external_url (text "https://"))
                _ q.1.1.1.1.1.0)
              ((text_eq_iff c.tunnel.mode (text "external")).1 e);
        lan_port = is_port-IsPort c.lan.port (must-none _ _ q.1.1.1.1.1.1.1.1.0);
        admin_port = is_port-IsPort c.admin.port (must-none _ _ q.1.1.1.1.1.1.1.1.1.0);
        openai = needed c.openai.enabled c.capabilities.compute (
            must-none (not (c.openai.enabled && not c.capabilities.compute)) _
              q.1.1.1.1.1.1.1.1.1.1.0);
        publish = needed c.openai.publish_key_to_control_plane c.openai.enabled (
            must-none (not (c.openai.publish_key_to_control_plane && not c.openai.enabled)) _
              q.1.1.1.1.1.1.1.1.1.1.1.0);
      }

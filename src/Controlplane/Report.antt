-- ===== src/Controlplane/Report.antt =====
-- internal/controlplane/client.go, heartbeat.go: what the node tells the control plane of itself with a
-- registration or a heartbeat, and the answers.
pub mod Statuses
use onesilo_node.Base.{
  ℕ, zero, suc, Bool, true, false, ◌&&◌, ◌||◌, not, List, [], ◌∷◌, ◌++◌, Option, none, some, Text,
  text, text_eq, is_empty, ◌==◌, if◌then◌else◌,
}
use onesilo_node.Base.Int.{ℤ}
use onesilo_node.Base.Assoc.{insert}

-- A capability of the node, as the manager finds it.
pub record Probe : Type 0 where
  pub name : Text
  pub enabled : Bool
  pub healthy : Bool

abbrev pub status_live : Text
status_live = text "live"

abbrev pub status_dead : Text
status_dead = text "dead"

unfoldable pub capability_status_keys : Text → List Text
capability_status_keys name =
    if text_eq name (text "compute")
    then text "llm_inference" ∷ []
    else if text_eq name (text "memory")
    then text "silo_recall" ∷ text "silo_remember" ∷ []
    else if text_eq name (text "gateway")
    then text "relay" ∷ []
    else []

pub record RegisterRequest : Type 0 where
  pub tunnel_url : Text
  pub device_name : Text
  pub model_name : Text
  pub capabilities : List Text
  pub device_id : Text
  pub capabilities_status : Option (List (Text × Text))
  pub identity_pub_key : Text
  pub inference_key : Text

pub record RegisterResponse : Type 0 where
  pub device_id : Text
  pub account_id : Text
  pub heartbeat_interval_seconds : ℤ

-- ErrNoToken, an HTTP status, or any other failure.
pub data ApiError : Type 0 where
  no_token other_error : ApiError
  status : ℕ → ApiError

pub data Answer {ℓ} (A : Type ℓ) : Type ℓ where
  accepted : A → Answer A
  refused : ApiError → Answer A

unfoldable pub enabled_capability_ids : List Probe → List Text
enabled_capability_ids [] = []
enabled_capability_ids (p ∷ ps) =
    let rest = enabled_capability_ids ps in
    if p.enabled then capability_status_keys p.name ++ rest else rest

unfoldable pub set_keys : Text → List Text → List (Text × Text) → List (Text × Text)
set_keys value [] st = st
set_keys value (k ∷ ks) st = set_keys value ks (insert k value st)

unfoldable pub statuses_from : List Probe → List (Text × Text) → List (Text × Text)
statuses_from [] st = st
statuses_from (p ∷ ps) st = statuses_from ps (
    if p.enabled
    then set_keys (if p.healthy then status_live else status_dead) (capability_status_keys p.name)
        st
    else st)

-- An empty map is sent as nil.
unfoldable pub capabilities_status : List Probe → Option (List (Text × Text))
capabilities_status ps = elim (statuses_from ps []) [ [] ↦ none | e ∷ st ↦ some (e ∷ st) ]

abbrev pub is_status : ℕ → ApiError → Bool
is_status n no_token = false
is_status n other_error = false
is_status n (status k) = k == n

-- Whether the token is missing or rejected.
abbrev pub is_unauthorized : ApiError → Bool
is_unauthorized no_token = true
is_unauthorized other_error = false
is_unauthorized (status k) = k == 401

-- ===== src/Adminapi.antt =====
-- internal/adminapi/server.go, auth.go and newMux of handlers.go: the routes of the admin API and the
-- guards before their handlers. SHA-256, net.SplitHostPort and the printing of a number are
-- parameters; ServeMux has chosen the route.
mod Guarded
mod Tests
use onesilo_node.Base.{
  ℕ, ◌+◌, ◌-◌, Bool, true, false, not, ◌||◌, List, [], ◌∷◌, ◌++◌, Option, none, some, Text, text,
  text_eq, is_empty, starts_with, length, drop, if◌then◌else◌,
}
use onesilo_node.Http.{Header, get_header}

pub record Library : Type 0 where
  pub sum256 : Text → Text
  pub decimal : ℕ → Text
  pub split_host_port : Text → Option (Text × Text)

-- A request, with the host that it names.
pub record AdminRequest : Type 0 where
  pub host : Text
  pub header : Header

-- What is answered in place of a handler, or which handler's answer it is.
pub data AdminAnswer (R : Type 0) : Type 0 where
  refused : (status : ℕ) → AdminAnswer R
  handled : R → AdminAnswer R

-- The patterns that are mounted by `authed`.
pub data GuardedRoute : Type 0 where
  get_status get_config put_config post_jwt post_pairing_key get_pending verify_pairing generate :
      GuardedRoute
  list_keys mint_key revoke_key shutdown get_auth start_auth delete_auth stream_logs : GuardedRoute
  list_silos list_memories forget_memory export_silo list_models pull_model : GuardedRoute

-- The patterns of the mux.
pub data Route : Type 0 where
  healthz ui_asset auth_callback : Route
  guarded : GuardedRoute → Route

abbrev pub loopback_names : List Text
loopback_names = text "127.0.0.1" ∷ text "localhost" ∷ text "::1" ∷ text "[::1]" ∷ []

module _ (l : Library) where
  -- Each name, and each with the port.
  unfoldable pub allowed_hosts : (port : ℕ) → List Text → List Text
  allowed_hosts port [] = []
  allowed_hosts port (h ∷ hs) = h ∷ (h ++ text ":" ++ l.decimal port) ∷ allowed_hosts port hs

  unfoldable pub is_allowed : Text → List Text → Bool
  is_allowed h [] = false
  is_allowed h (x ∷ xs) = text_eq x h || is_allowed h xs

  unfoldable pub split_allowed : List Text → Option (Text × Text) → Bool
  split_allowed hosts none = false
  split_allowed hosts (some (h, port)) = is_allowed h hosts

  unfoldable pub require_loopback_host :
      {R : Type 0} → (port : ℕ) → (AdminRequest → AdminAnswer R) → AdminRequest → AdminAnswer R
  require_loopback_host port next r =
      let hosts = allowed_hosts port loopback_names in
      if is_allowed r.host hosts || split_allowed hosts (l.split_host_port r.host)
      then next r
      else refused 421

  abbrev pub bearer_prefix : Text
  bearer_prefix = text "Bearer "

  unfoldable pub cut_prefix : (prefix s : Text) → Option Text
  cut_prefix prefix s = if starts_with s prefix then some (drop (length prefix) s) else none

  unfoldable pub check_bearer :
      {R : Type 0}
      → (token : Text) → (AdminRequest → AdminAnswer R)
      → AdminRequest
      → Option Text
      → AdminAnswer R
  check_bearer token next r none = refused 401
  check_bearer token next r (some bearer) =
      if text_eq (l.sum256 token) (l.sum256 bearer) then next r else refused 401

  unfoldable pub require_admin_token :
      {R : Type 0} → (token : Text) → (AdminRequest → AdminAnswer R) → AdminRequest → AdminAnswer R
  require_admin_token token next r =
      if is_empty token
      then refused 401
      else check_bearer token next r
          (cut_prefix bearer_prefix (get_header (text "Authorization") r.header))

  unfoldable pub authed :
      {R : Type 0} → (token : Text) → (AdminRequest → R) → AdminRequest → AdminAnswer R
  authed token h = require_admin_token token (λ r. handled (h r))

  -- The handler of a route, as newMux mounts it.
  unfoldable pub new_mux :
      {R : Type 0} → (token : Text) → Route → (AdminRequest → R) → AdminRequest → AdminAnswer R
  new_mux token healthz h = λ r. handled (h r)
  new_mux token ui_asset h = λ r. handled (h r)
  new_mux token auth_callback h = λ r. handled (h r)
  new_mux token (guarded g) h = authed token h

  -- A request of a route, as the server of New answers it.
  unfoldable pub serve :
      {R : Type 0}
      → (port : ℕ) → (token : Text) → Route
      → (AdminRequest → R)
      → AdminRequest
      → AdminAnswer R
  serve port token route h = require_loopback_host port (new_mux token route h)

-- ===== src/Adminapi/Guarded.antt =====
-- Who reaches a handler of the admin API.
use onesilo_node.Base.{ℕ, ◌≡◌, ◌⊎◌, Bool, false, ◌||◌, List, ◌∷◌, ◌++◌, some, Text, text, is_empty}
use onesilo_node.Http.{get_header}
use onesilo_node.Adminapi.{
  Library, AdminRequest, loopback_names, allowed_hosts, is_allowed, split_allowed, Route, healthz,
  ui_asset, auth_callback,
}

-- The routes that take no token.
abbrev pub IsOpen : Route → Type 0
IsOpen r = (r ≡ healthz) ⊎ ((r ≡ ui_asset) ⊎ (r ≡ auth_callback))

module _ (l : Library) (port : ℕ) where
  -- A loopback name, or one with the port of the API.
  pub data IsLoopback (h : Text) : List Text → Type 0 where
    name : (n : Text) (ns : List Text) → h ≡ n → IsLoopback h (n ∷ ns)
    with_port :
        (n : Text) (ns : List Text) → h ≡ n ++ text ":" ++ l.decimal port → IsLoopback h (n ∷ ns)
    later : (n : Text) (ns : List Text) → IsLoopback h ns → IsLoopback h (n ∷ ns)

  -- The host of a request is local, as it stands or without the port that is split off.
  pub data IsLocal (host : Text) : Type 0 where
    as_named : IsLoopback host loopback_names → IsLocal host
    without_port :
        (h p : Text)
        → l.split_host_port host ≡ some (h, p)
        → IsLoopback h loopback_names
        → IsLocal host

  abbrev passes : Text → Bool
  passes host =
      is_allowed l host (allowed_hosts l port loopback_names)
      || split_allowed l (allowed_hosts l port loopback_names) (l.split_host_port host)

  module _ {R : Type 0} (token : Text) (h : AdminRequest → R) where
    -- The header carries a token with the hash of the one that is configured, which is not empty.
    pub record IsAuthorized (r : AdminRequest) : Type 0 where
      bearer : Text
      sent : get_header (text "Authorization") r.header ≡ text "Bearer " ++ bearer
      matching : l.sum256 token ≡ l.sum256 bearer
      configured : is_empty token ≡ false

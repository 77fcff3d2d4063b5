-- ===== src/Adminapi/Tests.antt =====
-- A request with another port, a rebound name, and an empty token.
use onesilo_node.Base.{
  ◌≡◌, refl, [], ◌∷◌, Option, none, some, Text, text, text_eq, starts_with, if◌then◌else◌,
}
use onesilo_node.Base.Assoc.{lookup}
use onesilo_node.Http.{get_header}
use onesilo_node.Adminapi.{
  Library, AdminRequest, refused, handled, allowed_hosts, is_allowed, split_allowed,
  require_loopback_host, cut_prefix, check_bearer, require_admin_token, authed, guarded, healthz,
  get_status, new_mux, serve,
}

abbrev split : Text → Option (Text × Text)
split s = if text_eq s (text "localhost:80") then some (text "localhost", text "80") else none

abbrev library : Library
library = record { sum256 = λ s. s; decimal = λ n. text "7777"; split_host_port = split }

abbrev request : Text → AdminRequest
request host = record { host = host; header = (text "Authorization", text "Bearer secret") ∷ [] }

abbrev status : AdminRequest → Text
status r = text "ok"

other_port :
    serve library 7777 (text "secret") (guarded get_status) status (request (text "localhost:80"))
    ≡ handled (text "ok")
unfolding serve new_mux authed require_loopback_host require_admin_token check_bearer cut_prefix
    allowed_hosts is_allowed split_allowed get_header lookup text_eq starts_with
other_port = refl

rebound_name :
    serve library 7777 (text "secret") (guarded get_status) status (request (text "evil.example"))
    ≡ refused 421
unfolding serve new_mux authed require_loopback_host allowed_hosts is_allowed split_allowed text_eq
rebound_name = refl

no_token :
    serve library 7777 [] (guarded get_status) status (request (text "localhost")) ≡ refused 401
unfolding serve new_mux authed require_loopback_host require_admin_token allowed_hosts is_allowed
    split_allowed text_eq
no_token = refl

probed : serve library 7777 [] healthz status (request (text "localhost")) ≡ handled (text "ok")
unfolding serve new_mux require_loopback_host allowed_hosts is_allowed split_allowed text_eq
probed = refl

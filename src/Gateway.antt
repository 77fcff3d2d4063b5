-- ===== src/Gateway.antt =====
-- internal/gateway/gateway.go: the relay to the control plane. The token source, the parser of URLs
-- and the reverse proxy itself are other code; `forwards` is what the proxy sends.
pub mod Relayed
mod Tests
use onesilo_node.Base.{
  ℕ, Bool, true, false, not, ◌&&◌, ◌||◌, List, [], ◌∷◌, ◌++◌, Option, none, some, Text, text,
  text_eq, is_empty, starts_with, length, drop, if◌then◌else◌,
}
use onesilo_node.Base.Assoc.{insert, delete}
use onesilo_node.Base.Strings.{trim_right}
use onesilo_node.Http.{
  Header, Request, Url, Outgoing, Answer, refuses, forwards, node_key_header, delete_all,
  require_node_key,
}

abbrev pub route_prefix : Text
route_prefix = text "/v1/cloud"

abbrev pub stripped_relay_headers : List Text
stripped_relay_headers =
    text "Cookie"
    ∷ text "X-Forwarded-For"
    ∷ text "X-Forwarded-Host"
    ∷ text "X-Forwarded-Proto"
    ∷ text "X-Real-Ip"
    ∷ text "Forwarded"
    ∷ []

unfoldable pub allowed_path : Text → Bool
allowed_path p =
    starts_with p (text "/api/") || text_eq p (text "/mcp") || starts_with p (text "/mcp/")

unfoldable pub is_one_of : Text → List Text → Bool
is_one_of s [] = false
is_one_of s (t ∷ l) = text_eq s t || is_one_of s l

unfoldable pub allowed_method : Text → Bool
allowed_method m = is_one_of m (
    text "GET"
    ∷ text "HEAD"
    ∷ text "POST"
    ∷ text "PUT"
    ∷ text "PATCH"
    ∷ text "DELETE"
    ∷ text "OPTIONS"
    ∷ [])

-- strings.CutPrefix.
unfoldable pub cut_prefix : Text → Text → Option Text
cut_prefix s p = if starts_with s p then some (drop (length p) s) else none

-- What the handler asks at each request: the switch, the token, the configured URL.
pub record Surroundings : Type 0 where
  pub is_running : Bool
  pub token : Option Text
  pub control_plane_url : Text
  pub node_key : Text
  pub user_agent : Text

unfoldable pub target_of : Url → Text → Request → Url
target_of base rest r = record base { path = base.path ++ rest; raw_query = r.raw_query }

module _ (s : Surroundings) where
  unfoldable pub rewrite : Text → Url → Header → Outgoing
  rewrite token target h = record {
    url = target;
    header = insert (text "User-Agent") s.user_agent (
        insert (text "Authorization") (text "Bearer " ++ token)
          (delete_all stripped_relay_headers (delete node_key_header h)));
  }

  unfoldable pub relay : Option Url → Text → Text → Request → Answer
  relay none token rest r = refuses 502
  relay (some base) token rest r =
      if is_empty base.scheme || is_empty base.host
      then refuses 502
      else forwards (rewrite token (target_of base rest r) r.header)

  module _ (parse_url : Text → Option Url) where
    unfoldable pub with_token : Option Text → Text → Request → Answer
    with_token none rest r = refuses 503
    with_token (some token) rest r =
        relay (parse_url (trim_right 47 s.control_plane_url)) token rest r

    unfoldable pub with_rest : Option Text → Request → Answer
    with_rest none r = refuses 404
    with_rest (some rest) r =
        if is_empty rest || not (starts_with rest (text "/"))
        then refuses 404
        else if not (allowed_path rest)
        then refuses 403
        else with_token s.token rest r

    unfoldable pub inner : Request → Answer
    inner r =
        if not s.is_running
        then refuses 503
        else if not (allowed_method r.method)
        then refuses 405
        else with_rest (cut_prefix r.path route_prefix) r

    unfoldable pub handler : (sum256 : Text → Text) → Request → Answer
    handler sum256 r = require_node_key sum256 s.node_key inner r

-- ===== src/Config.antt =====
-- internal/config/config.go: the configuration, its defaults and its validation. strings.ToLower and
-- net/url are parameters.
pub mod Safe
pub mod Load
pub mod Tests
use onesilo_node.Base.{
  ℕ, suc, Bool, true, false, ◌&&◌, ◌||◌, not, List, [], ◌∷◌, Option, none, some, Text, text,
  text_eq, is_empty, starts_with, leb, if◌then◌else◌,
}
use onesilo_node.Base.Int.{ℤ, pos, negsuc}

abbrev pub mode_local : Text
mode_local = text "local"

abbrev pub mode_gateway : Text
mode_gateway = text "gateway"

abbrev pub tunnel_mode_off : Text
tunnel_mode_off = text "off"

abbrev pub tunnel_mode_managed : Text
tunnel_mode_managed = text "managed"

abbrev pub tunnel_mode_quick : Text
tunnel_mode_quick = text "quick"

abbrev pub tunnel_mode_external : Text
tunnel_mode_external = text "external"

abbrev pub auth_mode_jwt : Text
auth_mode_jwt = text "jwt"

abbrev pub auth_mode_api_key : Text
auth_mode_api_key = text "api_key"

abbrev pub auth_mode_oauth : Text
auth_mode_oauth = text "oauth"

pub record Log : Type 0 where
  pub format : Text
  pub level : Text

pub record Capabilities : Type 0 where
  pub memory : Bool
  pub compute : Bool

pub record ControlPlane : Type 0 where
  pub url : Text
  pub auth_mode : Text
  pub device_name : Text

pub record Memory : Type 0 where
  pub embed_model : Text

pub record Ollama : Type 0 where
  pub host : Text
  pub manage : Bool
  pub default_model : Text
  pub binary_path : Text

pub record Tunnel : Type 0 where
  pub mode : Text
  pub cloudflared_path : Text
  pub external_url : Text

pub record Lan : Type 0 where
  pub enabled : Bool
  pub port : ℤ
  pub require_pairing_verification : Bool

pub record Admin : Type 0 where
  pub port : ℤ

pub record OpenAi : Type 0 where
  pub enabled : Bool
  pub publish_key_to_control_plane : Bool

pub record Config : Type 0 where
  pub mode : Text
  pub data_dir : Text
  pub log : Log
  pub capabilities : Capabilities
  pub control_plane : ControlPlane
  pub memory : Memory
  pub ollama : Ollama
  pub tunnel : Tunnel
  pub lan : Lan
  pub openai : OpenAi
  pub admin : Admin

unfoldable pub default_config : Config
default_config = record {
  mode = mode_local;
  data_dir = text "~/.onesilo-node";
  log = record { format = text "text"; level = text "info" };
  capabilities = record { memory = false; compute = false };
  control_plane = record {
    url = text "https://api.onesilo.com";
    auth_mode = auth_mode_jwt;
    device_name = [];
  };
  memory = record { embed_model = text "nomic-embed-text" };
  ollama = record {
    host = text "http://127.0.0.1:11434";
    manage = false;
    default_model = text "llama3.2:3b";
    binary_path = [];
  };
  tunnel = record { mode = tunnel_mode_off; cloudflared_path = []; external_url = [] };
  lan = record { enabled = false; port = pos 8765; require_pairing_verification = true };
  openai = record { enabled = false; publish_key_to_control_plane = false };
  admin = record { port = pos 8766 };
}

pub data ConfigError : Type 0 where
  bad_mode bad_log_format bad_log_level bad_auth_mode bad_tunnel_mode bad_external_url : ConfigError
  url_empty url_invalid url_insecure url_scheme empty_data_dir bad_lan_port bad_admin_port :
      ConfigError
  openai_needs_compute publish_needs_openai : ConfigError

-- What the code reads of a url.URL.
pub record Url : Type 0 where
  pub scheme : Text
  pub hostname : Text

pub record Platform : Type 0 where
  pub to_lower : Text → Text
  pub parse_url : Text → Option Url

unfoldable pub is_one_of : Text → List Text → Bool
is_one_of s [] = false
is_one_of s (t ∷ ts) = text_eq s t || is_one_of s ts

abbrev pub must : Bool → ConfigError → Option ConfigError
must true e = none
must false e = some e

unfoldable pub exposed : Config → Bool
exposed c = not (text_eq c.tunnel.mode tunnel_mode_off)

unfoldable pub is_loopback : Text → Bool
is_loopback host =
    text_eq host (text "localhost")
    || (text_eq host (text "127.0.0.1") || text_eq host (text "::1"))

unfoldable pub judge_url : Url → Option ConfigError
judge_url u =
    if text_eq u.scheme (text "https")
    then none
    else if text_eq u.scheme (text "http")
    then must (is_loopback u.hostname) url_insecure
    else some url_scheme

unfoldable pub is_port : ℤ → Bool
is_port (pos n) = leb 1 n && leb n 65535
is_port (negsuc n) = false

-- The first error of a row of checks.
unfoldable pub first_error : List (Option ConfigError) → Option ConfigError
first_error [] = none
first_error (none ∷ l) = first_error l
first_error (some e ∷ l) = some e

module _ (p : Platform) where
  unfoldable pub require_secure_url : Text → Option ConfigError
  require_secure_url raw =
      if is_empty raw
      then some url_empty
      else elim (p.parse_url raw) [ none ↦ some url_invalid | some u ↦ judge_url u ]

  -- The checks of `Validate`, in its order.
  unfoldable pub checks : Config → List (Option ConfigError)
  checks c =
      must (is_one_of c.mode (mode_local ∷ mode_gateway ∷ [])) bad_mode
      ∷ must (is_one_of c.log.format (text "text" ∷ text "json" ∷ [])) bad_log_format
      ∷ must
          (is_one_of (p.to_lower c.log.level)
            (text "debug" ∷ text "info" ∷ text "warn" ∷ text "error" ∷ []))
          bad_log_level
      ∷ must
          (is_one_of c.control_plane.auth_mode
            (auth_mode_jwt ∷ auth_mode_api_key ∷ auth_mode_oauth ∷ []))
          bad_auth_mode
      ∷ must
          (is_one_of c.tunnel.mode
            (tunnel_mode_off ∷ tunnel_mode_managed ∷ tunnel_mode_quick ∷ tunnel_mode_external ∷ []))
          bad_tunnel_mode
      ∷ must
          (not (text_eq c.tunnel.mode tunnel_mode_external)
            || starts_with c.tunnel.external_url (text "https://"))
          bad_external_url
      ∷ (if text_eq c.mode mode_gateway || exposed c
          then require_secure_url c.control_plane.url
          else none)
      ∷ must (not (is_empty c.data_dir)) empty_data_dir
      ∷ must (is_port c.lan.port) bad_lan_port
      ∷ must (is_port c.admin.port) bad_admin_port
      ∷ must (not (c.openai.enabled && not c.capabilities.compute)) openai_needs_compute
      ∷ must (not (c.openai.publish_key_to_control_plane && not c.openai.enabled))
          publish_needs_openai
      ∷ []

  unfoldable pub validate : Config → Option ConfigError
  validate c = first_error (checks c)

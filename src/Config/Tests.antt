-- ===== src/Config/Tests.antt =====
-- The defaults, an exposed node that offers its model, and a flag that overrides a variable.
use onesilo_node.Base.{
  ◌≡◌, refl, Option, Text, if◌then◌else◌, true, none, some, text, text_eq, starts_with,
}
use onesilo_node.Config.{
  Config, Platform, default_config, is_one_of, exposed, judge_url, is_port, first_error,
  require_secure_url, checks, validate, tunnel_mode_managed,
}
use onesilo_node.Base.Result.{ok, err}
use onesilo_node.Config.Load.{
  Strconv, at_env, bad_int, load, no_path, settings, apply_all, load_file, labelled, validated,
  with_env, with_flags, int_setting,
}

abbrev pub platform : Platform
platform = record {
  to_lower = λ s. s;
  parse_url = λ s. some (record { scheme = text "https"; hostname = text "api.onesilo.com" });
}

default_config_passes : validate platform default_config ≡ none
unfolding validate checks default_config is_one_of exposed judge_url is_port first_error
    require_secure_url text_eq starts_with
default_config_passes = refl

abbrev plain : Platform
plain = record platform {
  parse_url = λ s. some (record { scheme = text "http"; hostname = text "api.onesilo.com" });
}

-- A node without a tunnel may have a control plane URL with plain http.
plain_url_passes : validate plain default_config ≡ none
unfolding validate checks default_config is_one_of exposed judge_url is_port first_error
    require_secure_url text_eq starts_with
plain_url_passes = refl

abbrev pub offering : Config
offering = record default_config {
  tunnel = record default_config.tunnel { mode = tunnel_mode_managed };
  capabilities = record default_config.capabilities { compute = true };
  openai = record { enabled = true; publish_key_to_control_plane = true };
}

abbrev strconv : Strconv
strconv = record { parse_bool = λ s. some (text_eq s (text "true")); atoi = λ s. none }

abbrev only : (name value : Text) → Text → Option Text
only name value s = if text_eq s name then some value else none

flag_over_env :
    load platform strconv no_path
      (only (text "SILO_NODE_DEVICE_NAME") (text "attic"))
      (only (text "device-name") (text "cellar"))
    ≡ ok (record default_config {
      control_plane = record default_config.control_plane { device_name = text "cellar" };
    })
unfolding load load_file with_env with_flags apply_all labelled settings validated validate checks
    default_config is_one_of exposed judge_url is_port first_error require_secure_url text_eq
    starts_with
flag_over_env = refl

bad_port_of_env :
    load platform strconv no_path (only (text "SILO_NODE_LAN_PORT") (text "high")) (λ s. none)
    ≡ err (at_env (text "SILO_NODE_LAN_PORT") bad_int)
unfolding load load_file with_env with_flags apply_all labelled settings int_setting default_config
    text_eq
bad_port_of_env = refl

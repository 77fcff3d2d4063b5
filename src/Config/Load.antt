-- ===== src/Config/Load.antt =====
-- internal/config/load.go: the settings that flags and the environment override, and Load. The TOML
-- decoder, strconv, the file and the environment are parameters.
use onesilo_node.Base.{
  ◌≡◌, inl, inr, Bool, List, [], ◌∷◌, Option, none, some, Text, text, subst, Option-cases,
}
use onesilo_node.Base.Int.{ℤ}
use onesilo_node.Base.Result.{Result, ok, err, ◌>>=◌}
use onesilo_node.Pairing.Assertion.Stages.{bind_ok}
use onesilo_node.Config.{Config, ConfigError, Platform, default_config, validate}
use onesilo_node.Config.Safe.{IsSafe, validate-IsSafe}

-- strconv.ParseBool and strconv.Atoi.
pub record Strconv : Type 0 where
  pub parse_bool : Text → Option Bool
  pub atoi : Text → Option ℤ

-- A bad value is reported with the name of the flag or the variable.
pub data LoadError : Type 0 where
  bad_bool bad_int : LoadError
  at_env at_flag : (name : Text) → LoadError → LoadError
  read_failed malformed : LoadError
  unknown_key : Text → LoadError
  not_valid : ConfigError → LoadError

pub record Setting : Type 0 where
  pub flag : Text
  pub env : Text
  pub set : Text → Config → Result LoadError Config

abbrev setting : Text → Text → (Text → Config → Result LoadError Config) → Setting
setting flag env set = record { flag = flag; env = env; set = set }

module _ (s : Strconv) where
  abbrev text_setting : (Text → Config → Config) → Text → Config → Result LoadError Config
  text_setting put raw c = ok (put raw c)

  unfoldable pub bool_setting : (Bool → Config → Config) → Text → Config → Result LoadError Config
  bool_setting put raw c = elim (s.parse_bool raw) [ some v ↦ ok (put v c) | none ↦ err bad_bool ]

  unfoldable pub int_setting : (ℤ → Config → Config) → Text → Config → Result LoadError Config
  int_setting put raw c = elim (s.atoi raw) [ some v ↦ ok (put v c) | none ↦ err bad_int ]

  -- The usage texts are left out.
  unfoldable pub settings : List Setting
  settings =
      setting (text "mode") (text "SILO_NODE_MODE") (text_setting (λ v c. record c { mode = v }))
      ∷ setting (text "data-dir") (text "SILO_NODE_DATA_DIR")
          (text_setting (λ v c. record c { data_dir = v }))
      ∷ setting (text "log-format") (text "SILO_NODE_LOG_FORMAT")
          (text_setting (λ v c. record c { log = record c.log { format = v } }))
      ∷ setting (text "log-level") (text "SILO_NODE_LOG_LEVEL")
          (text_setting (λ v c. record c { log = record c.log { level = v } }))
      ∷ setting (text "memory") (text "SILO_NODE_MEMORY")
          (bool_setting (λ v c. record c { capabilities = record c.capabilities { memory = v } }))
      ∷ setting (text "compute") (text "SILO_NODE_COMPUTE")
          (bool_setting (λ v c. record c { capabilities = record c.capabilities { compute = v } }))
      ∷ setting (text "control-plane-url") (text "SILO_NODE_CONTROL_PLANE_URL")
          (text_setting (λ v c. record c { control_plane = record c.control_plane { url = v } }))
      ∷ setting (text "auth-mode") (text "SILO_NODE_AUTH_MODE") (
          text_setting
            (λ v c. record c { control_plane = record c.control_plane { auth_mode = v } }))
      ∷ setting (text "device-name") (text "SILO_NODE_DEVICE_NAME") (
          text_setting
            (λ v c. record c { control_plane = record c.control_plane { device_name = v } }))
      ∷ setting (text "memory-embed-model") (text "SILO_NODE_MEMORY_EMBED_MODEL")
          (text_setting (λ v c. record c { memory = record c.memory { embed_model = v } }))
      ∷ setting (text "ollama-host") (text "SILO_NODE_OLLAMA_HOST")
          (text_setting (λ v c. record c { ollama = record c.ollama { host = v } }))
      ∷ setting (text "ollama-manage") (text "SILO_NODE_OLLAMA_MANAGE")
          (bool_setting (λ v c. record c { ollama = record c.ollama { manage = v } }))
      ∷ setting (text "ollama-default-model") (text "SILO_NODE_OLLAMA_DEFAULT_MODEL")
          (text_setting (λ v c. record c { ollama = record c.ollama { default_model = v } }))
      ∷ setting (text "ollama-binary") (text "SILO_NODE_OLLAMA_BINARY")
          (text_setting (λ v c. record c { ollama = record c.ollama { binary_path = v } }))
      ∷ setting (text "tunnel-mode") (text "SILO_NODE_TUNNEL_MODE")
          (text_setting (λ v c. record c { tunnel = record c.tunnel { mode = v } }))
      ∷ setting (text "cloudflared-path") (text "SILO_NODE_CLOUDFLARED_PATH")
          (text_setting (λ v c. record c { tunnel = record c.tunnel { cloudflared_path = v } }))
      ∷ setting (text "tunnel-external-url") (text "SILO_NODE_TUNNEL_EXTERNAL_URL")
          (text_setting (λ v c. record c { tunnel = record c.tunnel { external_url = v } }))
      ∷ setting (text "lan-enabled") (text "SILO_NODE_LAN_ENABLED")
          (bool_setting (λ v c. record c { lan = record c.lan { enabled = v } }))
      ∷ setting (text "lan-port") (text "SILO_NODE_LAN_PORT")
          (int_setting (λ v c. record c { lan = record c.lan { port = v } }))
      ∷ setting (text "admin-port") (text "SILO_NODE_ADMIN_PORT")
          (int_setting (λ v c. record c { admin = record c.admin { port = v } }))
      ∷ []

-- What is at the path of the file. The decoder writes over the configuration it is given.
pub data ConfigFile : Type 0 where
  no_path absent not_readable not_toml : ConfigFile
  has_unknown_key : Text → ConfigFile
  decodes : (Config → Config) → ConfigFile

unfoldable pub load_file : ConfigFile → Config → Result LoadError Config
load_file no_path c = ok c
load_file absent c = ok c
load_file not_readable c = err read_failed
load_file not_toml c = err malformed
load_file (has_unknown_key k) c = err (unknown_key k)
load_file (decodes f) c = ok (f c)

unfoldable pub labelled :
    (LoadError → LoadError) → Result LoadError Config → Result LoadError Config
labelled at (ok c) = ok c
labelled at (err e) = err (at e)

-- A pass over the settings: a source gives the raw values, and `at` names the setting in an error.
unfoldable pub apply_all :
    (source : Setting → Option Text)
    → (at : Setting → LoadError → LoadError) → List Setting
    → Config
    → Result LoadError Config
apply_all source at [] c = ok c
apply_all source at (s ∷ ss) c = elim (source s) [
  | none ↦ apply_all source at ss c
  | some raw ↦ do d ← labelled (at s) (s.set raw c); apply_all source at ss d
]

config-injective : {c d : Config} → ◌≡◌ {A = Result LoadError Config} (ok c) (ok d) → c ≡ d
config-injective e = cc

module _ (p : Platform) (s : Strconv) where
  unfoldable pub validated : Config → Result LoadError Config
  validated c = elim (validate p c) [ none ↦ ok c | some e ↦ err (not_valid e) ]

  unfoldable pub with_env : (Text → Option Text) → Config → Result LoadError Config
  with_env lookup_env = apply_all (λ x. lookup_env x.env) (λ x. at_env x.env) (settings s)

  unfoldable pub with_flags : (Text → Option Text) → Config → Result LoadError Config
  with_flags flag_values = apply_all (λ x. flag_values x.flag) (λ x. at_flag x.flag) (settings s)

  unfoldable pub load :
      ConfigFile → (lookup_env flag_values : Text → Option Text) → Result LoadError Config
  load file lookup_env flag_values = do
    c ← load_file file default_config
    d ← with_env lookup_env c
    e ← with_flags flag_values d
    validated e

  validated-ok : (c d : Config) → validated c ≡ ok d → validate p d ≡ none
  unfolding validated
  validated-ok c d = elim (Option-cases (validate p c)) [
    | inl e ↦ rw (e, validated) (λ h. subst (λ d. validate p d ≡ none) (config-injective h) e)
    | inr (x, e) ↦ rw (e, validated) (λ h. absurd (cc))
  ]

  -- Whatever the file, the environment and the flags hold: a configuration that loads has
  -- what validation asks for.
  pub load-IsSafe :
      (file : ConfigFile) (lookup_env flag_values : Text → Option Text) (c : Config)
      → load file lookup_env flag_values ≡ ok c
      → IsSafe p c
  unfolding load
  load-IsSafe file lookup_env flag_values c h =
      let (a, _, h₁) =
        bind_ok (load_file file default_config)
          (λ c. with_env lookup_env c >>= (λ d. with_flags flag_values d >>= validated)) h in
      let (b, _, h₂) =
        bind_ok (with_env lookup_env a) (λ d. with_flags flag_values d >>= validated) h₁ in
      let (d, _, h₃) = bind_ok (with_flags flag_values b) validated h₂ in
      validate-IsSafe p c (validated-ok d c h₃)

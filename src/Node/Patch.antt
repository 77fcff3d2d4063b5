-- ===== src/Node/Patch.antt =====
-- internal/adminapi/handlers.go and internal/node/node.go: the changes of the configuration through the
-- admin API, and what else reaches the node while it runs.
use onesilo_node.Base.{Bool, List, [], ◌∷◌, Option, none, some, Text}
use onesilo_node.Base.Int.{ℤ}
use onesilo_node.Base.Result.{Result, ok, err}
use onesilo_node.Config.{
  Config, OpenAi, ConfigError, Platform, validate, tunnel_mode_quick, tunnel_mode_managed,
}
use onesilo_node.Node.{Node, World, QuickTunnel, ManagedTunnel, on_url_change, reconcile}

pub record LogPatch : Type 0 where
  pub format : Option Text
  pub level : Option Text

pub record CapabilitiesPatch : Type 0 where
  pub memory : Option Bool
  pub compute : Option Bool

pub record ControlPlanePatch : Type 0 where
  pub url : Option Text
  pub auth_mode : Option Text
  pub device_name : Option Text

pub record MemoryPatch : Type 0 where
  pub embed_model : Option Text

pub record OllamaPatch : Type 0 where
  pub host : Option Text
  pub manage : Option Bool
  pub default_model : Option Text
  pub binary_path : Option Text

pub record TunnelPatch : Type 0 where
  pub mode : Option Text
  pub cloudflared_path : Option Text
  pub external_url : Option Text

pub record LanPatch : Type 0 where
  pub enabled : Option Bool
  pub port : Option ℤ

pub record OpenAiPatch : Type 0 where
  pub enabled : Option Bool

pub record AdminPatch : Type 0 where
  pub port : Option ℤ

pub record ConfigPatch : Type 0 where
  pub mode : Option Text
  pub data_dir : Option Text
  pub log : Option LogPatch
  pub capabilities : Option CapabilitiesPatch
  pub control_plane : Option ControlPlanePatch
  pub memory : Option MemoryPatch
  pub ollama : Option OllamaPatch
  pub tunnel : Option TunnelPatch
  pub lan : Option LanPatch
  pub openai : Option OpenAiPatch
  pub admin : Option AdminPatch

abbrev pub set_if : {A : Type 0} → Option A → A → A
set_if none a = a
set_if (some b) a = b

-- A group of the patch, where it is present.
abbrev pub group : {P A : Type 0} → (P → A → A) → Option P → A → A
group f none a = a
group f (some p) a = f p a

unfoldable pub patch_openai : OpenAiPatch → OpenAi → OpenAi
patch_openai q a = record a { enabled = set_if q.enabled a.enabled }

unfoldable pub apply_to : ConfigPatch → Config → Config
apply_to p c = record c {
  mode = set_if p.mode c.mode;
  data_dir = set_if p.data_dir c.data_dir;
  log =
      group (λ q a. record a { format = set_if q.format a.format; level = set_if q.level a.level })
        p.log c.log;
  capabilities =
      group
        (λ q a. record a {
          memory = set_if q.memory a.memory;
          compute = set_if q.compute a.compute;
        })
        p.capabilities c.capabilities;
  control_plane =
      group
        (λ q a. record a {
          url = set_if q.url a.url;
          auth_mode = set_if q.auth_mode a.auth_mode;
          device_name = set_if q.device_name a.device_name;
        })
        p.control_plane c.control_plane;
  memory =
      group (λ q a. record a { embed_model = set_if q.embed_model a.embed_model }) p.memory
        c.memory;
  ollama =
      group
        (λ q a. record a {
          host = set_if q.host a.host;
          manage = set_if q.manage a.manage;
          default_model = set_if q.default_model a.default_model;
          binary_path = set_if q.binary_path a.binary_path;
        })
        p.ollama c.ollama;
  tunnel =
      group
        (λ q a. record a {
          mode = set_if q.mode a.mode;
          cloudflared_path = set_if q.cloudflared_path a.cloudflared_path;
          external_url = set_if q.external_url a.external_url;
        })
        p.tunnel c.tunnel;
  lan =
      group (λ q a. record a { enabled = set_if q.enabled a.enabled; port = set_if q.port a.port })
        p.lan c.lan;
  openai = group patch_openai p.openai c.openai;
  admin = group (λ q a. record a { port = set_if q.port a.port }) p.admin c.admin;
}

pub data PatchError : Type 0 where
  not_valid : ConfigError → PatchError
  not_saved : Text → PatchError

-- The node, and what its configuration file holds; `none` is a file that the node has not written.
pub record Machine : Type 0 where
  pub node : Node
  pub file : Option Config

-- What reaches the running node: a change of the configuration, with the outcome of writing the file; a
-- tick of the reconciler; a new URL of a tunnel.
pub data Event : Type 0 where
  patches : ConfigPatch → (saved : Option Text) → World → Event
  ticks : World → Event
  quick_url managed_url : Text → Event

-- A tunnel's own URL changes, and its callback runs.
abbrev pub with_quick_url : Text → Option QuickTunnel → Option QuickTunnel
with_quick_url u none = none
with_quick_url u (some t) = some (record t { url = u })

abbrev pub with_managed_url : Text → Option ManagedTunnel → Option ManagedTunnel
with_managed_url u none = none
with_managed_url u (some t) = some (record t { url = u })

module _ (p : Platform) where
  unfoldable pub adopt :
      Config → (saved : Option Text) → World → Machine → Machine × Result PatchError Config
  adopt next (some e) w m = (m, err (not_saved e))
  adopt next none w m =
      (record { node = reconcile w (record m.node { cfg = next }); file = some next }, ok next)

  unfoldable pub judged :
      Option ConfigError
      → Config
      → (saved : Option Text) → World
      → Machine
      → Machine × Result PatchError Config
  judged (some e) next saved w m = (m, err (not_valid e))
  judged none next saved w m = adopt next saved w m

  unfoldable pub apply_config_patch :
      ConfigPatch → (saved : Option Text) → World → Machine → Machine × Result PatchError Config
  apply_config_patch patch saved w m =
      let next = apply_to patch m.node.cfg in judged (validate p next) next saved w m

  unfoldable pub step : Event → Machine → Machine
  step (patches patch saved w) m = (apply_config_patch patch saved w m).0
  step (ticks w) m = record m { node = reconcile w m.node }
  step (quick_url u) m = record m {
    node =
        on_url_change tunnel_mode_quick u
          (record m.node { tunnel_mgr = with_quick_url u m.node.tunnel_mgr });
  }
  step (managed_url u) m = record m {
    node =
        on_url_change tunnel_mode_managed u
          (record m.node { managed_mgr = with_managed_url u m.node.managed_mgr });
  }

  unfoldable pub run : List Event → Machine → Machine
  run [] m = m
  run (e ∷ es) m = run es (step e m)

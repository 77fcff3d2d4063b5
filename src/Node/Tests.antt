-- ===== src/Node/Tests.antt =====
-- A node whose Ollama is missing, an exposed node with nothing to serve, and patches.
use onesilo_node.Base.{
  ◌≡◌, ◌⊎◌, refl, true, false, [], ◌∷◌, Option, none, some, Text, text, text_eq, starts_with,
}
use onesilo_node.Base.Int.{pos}
use onesilo_node.Base.Assoc.{lookup, insert, delete}
use onesilo_node.Config.{
  Config, default_config, tunnel_mode_quick, validate, checks, is_one_of, exposed, judge_url,
  is_port, first_error, require_secure_url,
}
use onesilo_node.Config.Safe.{IsSafe}
use onesilo_node.Config.Tests.{platform, offering}
use onesilo_node.Controlplane.Manager.{new_manager}
use onesilo_node.Openai.Keys.{
  KeyStore, Std, Draw, mint_for_control_plane, provider_mint, provide_result,
}
use onesilo_node.Node.{
  Node, World, Capability, compute, memory, gateway, openai, lan, starts, warns, debugs, name, key,
  enabled, note_start_failure, clear_start_failure, is_running, cap_started, cap_switch,
  reconcile_cap, reconcile_caps, any_enabled, quick_started, quick_switch, reconcile_quick,
  managed_started, managed_switch, reconcile_managed, reconcile_url, reconcile,
}
use onesilo_node.Node.Applied.{IsApplied, reconcile-IsApplied}
use onesilo_node.Node.Quiet.{warnings, rounds, warnings-rounds}
use onesilo_node.Node.Patch.{ConfigPatch, Machine, patches, ticks, quick_url, run}
use onesilo_node.Node.Locked.{switches_of, run-IsPersisted, run-publishes}

abbrev fresh : Config → Node
fresh c = record {
  cfg = c;
  cap_running = [];
  start_failures = [];
  tunnel_mgr = none;
  managed_mgr = none;
  reg_mgr = new_manager;
  trace = [];
}

abbrev without_ollama : Capability → Option Text
without_ollama compute = some (text "ollama binary not found")
without_ollama memory = none
without_ollama gateway = none
without_ollama openai = none
without_ollama lan = none

abbrev world : World
world = record {
  start = without_ollama;
  stop = λ k. none;
  start_quick = none;
  start_managed = some (text "no cloudflared");
}

reconcile-IsApplied_example :
    IsApplied world (reconcile world (fresh offering))
    × ((reconcile world (fresh offering)).cfg ≡ offering)
reconcile-IsApplied_example = reconcile-IsApplied world (fresh offering)

abbrev exposed_only : Config
exposed_only = record default_config {
  capabilities = record { memory = false; compute = false };
  tunnel = record default_config.tunnel { mode = tunnel_mode_quick };
}

-- Nothing but the LAN server runs, and the tunnel is started all the same.
tunnel_without_capability :
    (reconcile world (fresh exposed_only)).tunnel_mgr
    ≡ some (record {
      port = exposed_only.lan.port;
      path = exposed_only.tunnel.cloudflared_path;
      url = [];
    })
unfolding reconcile reconcile_url reconcile_managed reconcile_quick reconcile_caps reconcile_cap
    cap_switch cap_started clear_start_failure is_running managed_switch quick_switch quick_started
    any_enabled enabled exposed text_eq name key lookup insert delete default_config
tunnel_without_capability = refl

two_rounds :
    (rounds world 2 (fresh offering)).trace
    ≡ debugs (text "tunnel:managed")
      ∷ debugs (text "capability:compute")
      ∷ starts compute
      ∷ warns (text "tunnel:managed")
      ∷ starts lan
      ∷ starts openai
      ∷ warns (text "capability:compute")
      ∷ starts compute
      ∷ []
unfolding rounds reconcile reconcile_url reconcile_managed reconcile_quick reconcile_caps
    reconcile_cap cap_switch cap_started note_start_failure clear_start_failure is_running
    managed_switch managed_started quick_switch quick_started any_enabled enabled exposed text_eq
    name key lookup insert delete default_config
two_rounds = refl

warnings-rounds_example :
    warnings (rounds world 3 (fresh offering)).trace
    ≡ warnings (reconcile world (fresh offering)).trace
warnings-rounds_example = warnings-rounds world (fresh offering) 2

abbrev no_change : ConfigPatch
no_change = record {
  mode = none;
  data_dir = none;
  log = none;
  capabilities = none;
  control_plane = none;
  memory = none;
  ollama = none;
  tunnel = none;
  lan = none;
  openai = none;
  admin = none;
}

abbrev key_std : Std
key_std = record { sum256 = λ s. s; hex = λ s. s; trim_space = λ s. s }

abbrev key_draw : Draw
key_draw = record { secret = some (text "c"); id_bytes = some (text "3"); now = 3 }

abbrev no_keys : KeyStore
no_keys = record { keys = []; file = none }

abbrev closes_surface : ConfigPatch
closes_surface = record no_change { openai = some (record { enabled = some false }) }

abbrev moves_port : ConfigPatch
moves_port = record no_change { lan = some (record { enabled = none; port = some (pos 9000) }) }

abbrev machine : Machine
machine = record { node = fresh offering; file = none }

run-IsPersisted_example :
    let n =
      run platform
        (patches moves_port none world
          ∷ quick_url (text "x")
          ∷ patches moves_port (some (text "disk full")) world
          ∷ [])
        machine in
    (validate platform n.node.cfg ≡ none)
    × IsSafe platform n.node.cfg
    × (((n.node.cfg ≡ offering) × (n.file ≡ none)) ⊎ (n.file ≡ some n.node.cfg))
run-IsPersisted_example =
    run-IsPersisted platform
      (patches moves_port none world
        ∷ quick_url (text "x")
        ∷ patches moves_port (some (text "disk full")) world
        ∷ [])
      machine
      (unfold validate checks default_config is_one_of exposed judge_url is_port first_error
          require_secure_url text_eq starts_with in
        refl)

run-publishes_example :
    let c =
      (run platform (patches closes_surface none world ∷ ticks world ∷ []) machine).node.cfg in
    (c.openai.publish_key_to_control_plane ≡ true)
    × (c.openai.enabled ≡ true)
    × (c.capabilities.compute ≡ true)
    × (provider_mint key_std (switches_of c) key_draw none no_keys ≡ (
        let (t, r) = mint_for_control_plane key_std key_draw none no_keys in (t, provide_result r)))
run-publishes_example =
    run-publishes platform (patches closes_surface none world ∷ ticks world ∷ []) machine key_std
      key_draw none no_keys
      (unfold validate checks default_config is_one_of exposed judge_url is_port first_error
          require_secure_url text_eq starts_with in
        refl)
      refl

abbrev moved_config : Config
moved_config = record offering {
  tunnel = record offering.tunnel { mode = tunnel_mode_quick };
  lan = record offering.lan { port = pos 9000 };
}

-- The node as a patch of the port and the mode leaves it, after a first reconcile.
abbrev moved : Node
moved = reconcile world (record (reconcile world (fresh offering)) { cfg = moved_config })

-- The LAN server is not started again, and the new tunnel goes to the new port.
server_stays :
    (moved.trace
      ≡ debugs (text "capability:compute")
        ∷ starts compute
        ∷ warns (text "tunnel:managed")
        ∷ starts lan
        ∷ starts openai
        ∷ warns (text "capability:compute")
        ∷ starts compute
        ∷ [])
    × (moved.tunnel_mgr
        ≡ some (record { port = pos 9000; path = offering.tunnel.cloudflared_path; url = [] }))
unfolding reconcile reconcile_url reconcile_managed reconcile_quick reconcile_caps reconcile_cap
    cap_switch cap_started note_start_failure clear_start_failure is_running managed_switch
    managed_started quick_switch quick_started any_enabled enabled exposed text_eq name key lookup
    insert delete default_config
server_stays = (refl, refl)

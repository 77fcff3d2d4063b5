-- ===== src/Node.antt =====
-- internal/node/node.go: the reconciler that brings the capabilities, the two tunnels and the desired
-- registration in line with the configuration. A reconcile runs under its lock, and here with one
-- configuration throughout. The outcomes of starts and stops are its `World`; what is logged, started
-- and stopped is its trace, the newest entry first.
pub mod Settled
pub mod Reconciled
pub mod Tunnels
pub mod Elsewhere
pub mod Applied
pub mod Untouched
pub mod Quiet
pub mod Patch
pub mod Locked
mod Tests
use onesilo_node.Base.{
  ℕ, Bool, true, false, not, ◌&&◌, ◌||◌, List, [], ◌∷◌, ◌++◌, Option, none, some, Text, text,
  text_eq, if◌then◌else◌,
}
use onesilo_node.Base.Int.{ℤ}
use onesilo_node.Base.Assoc.{lookup, insert, delete}
use onesilo_node.Config.{
  Config, exposed, mode_gateway, tunnel_mode_managed, tunnel_mode_quick, tunnel_mode_external,
}
use onesilo_node.Controlplane.Manager.{Manager, kick, set_tunnel_url}

pub data Capability : Type 0 where
  compute memory gateway openai lan : Capability

unfoldable pub name : Capability → Text
name compute = text "compute"
name memory = text "memory"
name gateway = text "gateway"
name openai = text "openai"
name lan = text "lan"

unfoldable pub enabled : Config → Capability → Bool
enabled c compute = c.capabilities.compute
enabled c memory = c.capabilities.memory
enabled c gateway = text_eq c.mode mode_gateway
enabled c openai = c.openai.enabled && c.capabilities.compute
enabled c lan =
    c.lan.enabled
    || (c.capabilities.memory
        || (text_eq c.mode mode_gateway
            || (exposed c || (c.openai.enabled && c.capabilities.compute))))

abbrev pub capabilities : List Capability
capabilities = compute ∷ memory ∷ gateway ∷ openai ∷ lan ∷ []

-- A tunnel that was started, with its settings and the URL that it has now.
pub record QuickTunnel : Type 0 where
  pub port : ℤ
  pub path : Text
  pub url : Text

pub record ManagedTunnel : Type 0 where
  pub path : Text
  pub url : Text

pub data Action : Type 0 where
  starts stops : Capability → Action
  warns debugs : (key : Text) → Action

pub record Node : Type 0 where
  pub cfg : Config
  pub cap_running : List (Text × Bool)
  pub start_failures : List (Text × Text)
  pub tunnel_mgr : Option QuickTunnel
  pub managed_mgr : Option ManagedTunnel
  pub reg_mgr : Manager
  pub trace : List Action

-- How each start and stop ends; `some` is the text of its error.
pub record World : Type 0 where
  pub start : Capability → Option Text
  pub stop : Capability → Option Text
  pub start_quick : Option Text
  pub start_managed : Option Text

unfoldable pub key : Capability → Text
unfolding name
key k = text "capability:" ++ name k

abbrev pub quick_key : Text
quick_key = text "tunnel:quick"

abbrev pub managed_key : Text
managed_key = text "tunnel:managed"

abbrev pub act : Action → Node → Node
act a n = record n { trace = a ∷ n.trace }

-- A missing entry is the empty text.
abbrev pub text_or_empty : Option Text → Text
text_or_empty none = []
text_or_empty (some t) = t

unfoldable pub note_start_failure : (key error : Text) → Node → Node
note_start_failure k e n =
    let same = text_eq (text_or_empty (lookup k n.start_failures)) e in
    let m = record n { start_failures = insert k e n.start_failures } in
    if same then act (debugs k) m else act (warns k) m

unfoldable pub clear_start_failure : (key : Text) → Node → Node
clear_start_failure k n = record n { start_failures = delete k n.start_failures }

-- A missing entry is false.
abbrev pub true_or_missing : Option Bool → Bool
true_or_missing none = false
true_or_missing (some b) = b

unfoldable pub is_running : Capability → Node → Bool
is_running k n = true_or_missing (lookup (name k) n.cap_running)

abbrev pub set_running : Capability → Bool → Node → Node
set_running k b n = record n { cap_running = insert (name k) b n.cap_running }

unfoldable pub cap_started : Capability → Option Text → Node → Node
cap_started k (some e) n = note_start_failure (key k) e n
cap_started k none n = set_running k true (clear_start_failure (key k) n)

unfoldable pub cap_stopped : Capability → Option Text → Node → Node
cap_stopped k none n = set_running k false n
cap_stopped k (some e) n = set_running k false (act (warns (key k)) n)

-- The switch, by whether the capability is enabled and whether it runs.
unfoldable pub cap_switch : World → Capability → (on running : Bool) → Node → Node
cap_switch w k true false n = cap_started k (w.start k) (act (starts k) n)
cap_switch w k false true n = cap_stopped k (w.stop k) (act (stops k) n)
cap_switch w k true true n = n
cap_switch w k false false n = n

abbrev pub clear_unless : (wanted : Bool) (key : Text) → Node → Node
clear_unless true k n = n
clear_unless false k n = clear_start_failure k n

unfoldable pub reconcile_cap : World → Capability → Node → Node
reconcile_cap w k n =
    let m = clear_unless (enabled n.cfg k) (key k) n in
    cap_switch w k (enabled n.cfg k) (is_running k m) m

unfoldable pub reconcile_caps : World → List Capability → Node → Node
reconcile_caps w [] n = n
reconcile_caps w (k ∷ ks) n = reconcile_caps w ks (reconcile_cap w k n)

unfoldable pub any_enabled : Config → List Capability → Bool
any_enabled c [] = false
any_enabled c (k ∷ ks) = enabled c k || any_enabled c ks

abbrev pub wants : Config → (mode : Text) → Bool
wants c mode = exposed c && (text_eq c.tunnel.mode mode && any_enabled c capabilities)

-- onTunnelURLChange and onManagedURLChange, for the mode that feeds the registration manager.
unfoldable pub on_url_change : (mode url : Text) → Node → Node
on_url_change mode url n =
    let m = record n { reg_mgr = set_tunnel_url url n.reg_mgr } in
    if text_eq n.cfg.tunnel.mode mode then m else n

unfoldable pub quick_started : Option Text → Node → Node
quick_started (some e) n = note_start_failure quick_key e n
quick_started none n = record (clear_start_failure quick_key n) {
  tunnel_mgr =
      some (record { port = n.cfg.lan.port; path = n.cfg.tunnel.cloudflared_path; url = [] });
}

unfoldable pub quick_switch : World → (want : Bool) → Option QuickTunnel → Node → Node
quick_switch w true none n = quick_started w.start_quick n
quick_switch w false (some t) n =
    on_url_change tunnel_mode_quick [] (record n { tunnel_mgr = none })
quick_switch w true (some t) n = n
quick_switch w false none n = n

unfoldable pub reconcile_quick : World → Node → Node
reconcile_quick w n =
    let want = wants n.cfg tunnel_mode_quick in
    let m = clear_unless want quick_key n in quick_switch w want n.tunnel_mgr m

unfoldable pub managed_started : Option Text → Node → Node
managed_started (some e) n = note_start_failure managed_key e n
managed_started none n = record (clear_start_failure managed_key n) {
  managed_mgr = some (record { path = n.cfg.tunnel.cloudflared_path; url = [] });
}

unfoldable pub managed_switch : World → (want : Bool) → Option ManagedTunnel → Node → Node
managed_switch w true none n = managed_started w.start_managed n
managed_switch w false (some t) n =
    on_url_change tunnel_mode_managed [] (record n { managed_mgr = none })
managed_switch w true (some t) n = n
managed_switch w false none n = n

unfoldable pub reconcile_managed : World → Node → Node
reconcile_managed w n =
    let want = wants n.cfg tunnel_mode_managed in
    let m = clear_unless want managed_key n in managed_switch w want n.managed_mgr m

abbrev pub url_of_quick : Option QuickTunnel → Text
url_of_quick none = []
url_of_quick (some t) = t.url

abbrev pub url_of_managed : Option ManagedTunnel → Text
url_of_managed none = []
url_of_managed (some t) = t.url

-- The URL that the node wants to be registered with.
unfoldable pub desired_url : Node → Text
desired_url n =
    let mode = n.cfg.tunnel.mode in
    if not (exposed n.cfg)
    then []
    else if text_eq mode tunnel_mode_managed
    then url_of_managed n.managed_mgr
    else if text_eq mode tunnel_mode_quick
    then url_of_quick n.tunnel_mgr
    else if text_eq mode tunnel_mode_external
    then n.cfg.tunnel.external_url
    else []

unfoldable pub reconcile_url : Node → Node
reconcile_url n = record n { reg_mgr = kick (set_tunnel_url (desired_url n) n.reg_mgr) }

unfoldable pub reconcile : World → Node → Node
reconcile w n =
    reconcile_url (reconcile_managed w (reconcile_quick w (reconcile_caps w capabilities n)))

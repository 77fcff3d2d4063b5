-- ===== src/Tunnel.antt =====
-- internal/tunnel: the cloudflared process that makes the node reachable. Times are in seconds. The
-- processes, the control plane's answers and the cancellation are what the calls meet, in order.
pub mod Scan
pub mod Loop
mod Tests
use onesilo_node.Base.{
  ℕ, ◌*◌, min, Bool, true, false, not, ◌&&◌, List, [], ◌∷◌, ◌++◌, Option, none, some, Text, text,
  text_eq, is_empty, if◌then◌else◌,
}

abbrev pub initial_backoff : ℕ
initial_backoff = 1

abbrev pub max_backoff : ℕ
max_backoff = 60

abbrev pub subscription_backoff : ℕ
subscription_backoff = 600

abbrev pub unavailable_backoff : ℕ
unavailable_backoff = 300

unfoldable pub doubled : ℕ → ℕ
doubled backoff = min (backoff * 2) max_backoff

-- `other` stands for every other error of the control plane.
pub data ProvisionError : Type 0 where
  subscription_required managed_unavailable other : ProvisionError

unfoldable pub backoff_for : ProvisionError → (transient : ℕ) → ℕ
backoff_for subscription_required transient = subscription_backoff
backoff_for managed_unavailable transient = unavailable_backoff
backoff_for other transient = transient

-- The loop's fields and variables, and what it has done: the URLs that onURLChange was called with
-- and the waits, the latest first.
pub record Tunnel : Type 0 where
  pub url : Text
  pub subscription_blocked : Bool
  pub backoff : ℕ
  pub notified : List Text
  pub waits : List ℕ

unfoldable pub set_url : Text → Tunnel → Tunnel
set_url url t =
    if text_eq t.url url
    then record t { url = url }
    else record t { url = url; notified = url ∷ t.notified }

unfoldable pub set_subscription_blocked : Bool → Tunnel → Tunnel
set_subscription_blocked b t = record t { subscription_blocked = b }

-- A manager, with the state that its last loop left.
pub record Manager : Type 0 where
  pub tunnel : Tunnel
  pub is_running : Bool

-- The loop's last act is to clear the URL.
unfoldable pub stop : Manager → Manager
stop m = if m.is_running then record m { is_running = false; tunnel = set_url [] m.tunnel } else m

module _ (is_executable : Text → Bool) (look_path : Option Text) where
  abbrev pub search_paths : List Text
  search_paths = text "/opt/homebrew/bin/cloudflared" ∷ text "/usr/local/bin/cloudflared" ∷ []

  unfoldable pub search : List Text → Option Text
  search [] = look_path
  search (c ∷ cs) = if is_executable c then some c else search cs

  -- `none` is ErrBinaryNotFound.
  unfoldable pub find_binary : Text → Option Text
  find_binary configured =
      if not (is_empty configured) && is_executable configured
      then some configured
      else search search_paths

  -- Whether the call succeeds, and whether it has started a loop.
  unfoldable pub start : Text → Manager → Manager × Bool
  start configured m = if m.is_running then (m, true) else elim (find_binary configured) [
    | none ↦ (m, false)
    | some b ↦ (
      record m { is_running = true; tunnel = record m.tunnel { backoff = initial_backoff } },
      true,
    )
  ]

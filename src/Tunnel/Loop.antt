-- ===== src/Tunnel/Loop.antt =====
-- internal/tunnel/managed.go and cloudflared.go, runLoop: a round is one pass through the loop's
-- body, with what it meets.
pub mod Bounds
pub mod Urls
pub mod Quick
use onesilo_node.Base.{ℕ, Bool, true, false, List, [], ◌∷◌, ◌++◌, Text, if◌then◌else◌}
use onesilo_node.Tunnel.{
  Tunnel, ProvisionError, subscription_required, managed_unavailable, other, initial_backoff,
  doubled, backoff_for, set_url, set_subscription_blocked,
}

-- How a wait or a failed call ends: the context may be cancelled.
pub data Fate : Type 0 where
  cancelled_at_once cancelled_in_wait waited : Fate

-- A round of the managed tunnel. A process that has started runs until the context is cancelled or
-- until it exits.
pub data Round : Type 0 where
  is_cancelled : Round
  provision_fails : ProvisionError → Fate → Round
  spawn_fails : Fate → Round
  runs_until_cancelled : (url : Text) → Round
  exits : (url : Text) → (is_cancelled : Bool) → Round

-- Whether the loop goes on.
pub data Next : Type 0 where
  returns continues : Next

unfoldable pub is_subscription_required : ProvisionError → Bool
is_subscription_required subscription_required = true
is_subscription_required managed_unavailable = false
is_subscription_required other = false

-- Only a transient failure makes the next wait longer.
unfoldable pub backoff_after : ProvisionError → ℕ → ℕ
backoff_after subscription_required b = b
backoff_after managed_unavailable b = b
backoff_after other b = doubled b

unfoldable pub wait_for : ℕ → Tunnel → Tunnel
wait_for n t = record t { waits = n ∷ t.waits }

-- A failed provisioning, from the classification on.
unfoldable pub refused : ProvisionError → Tunnel → Tunnel
refused e t =
    let b = t.backoff in
    wait_for (backoff_for e b) (record (set_subscription_blocked (is_subscription_required e) t) {
      backoff = backoff_after e b;
    })

-- A wait of the current backoff, which doubles after it, unless the wait is cut short.
unfoldable pub back_off : Bool → Tunnel → Tunnel × Next
back_off true t = (wait_for t.backoff t, returns)
back_off false t = (record (wait_for t.backoff t) { backoff = doubled t.backoff }, continues)

unfoldable pub launched : Text → Tunnel → Tunnel
launched url t = set_url url (record t { backoff = initial_backoff })

unfoldable pub spawn_failed : Fate → Tunnel → Tunnel × Next
spawn_failed cancelled_at_once t = (t, returns)
spawn_failed cancelled_in_wait t = back_off true t
spawn_failed waited t = back_off false t

unfoldable pub provision_failed : ProvisionError → Fate → Tunnel → Tunnel × Next
provision_failed e cancelled_at_once t = (t, returns)
provision_failed e cancelled_in_wait t = (refused e t, returns)
provision_failed e waited t = (refused e t, continues)

unfoldable pub round : Round → Tunnel → Tunnel × Next
round is_cancelled t = (t, returns)
round (provision_fails e f) t = provision_failed e f t
round (spawn_fails f) t = spawn_failed f (set_subscription_blocked false t)
round (runs_until_cancelled url) t = (launched url (set_subscription_blocked false t), returns)
round (exits url c) t = back_off c (set_url [] (launched url (set_subscription_blocked false t)))

-- A loop that returns clears the URL.
abbrev pub finish : Tunnel × Next → Tunnel → Tunnel
finish x rest = elim x.1 [ returns ↦ set_url [] x.0 | continues ↦ rest ]

-- The rounds that were met so far; a loop that has returned meets no more.
unfoldable pub run_loop : List Round → Tunnel → Tunnel
run_loop [] t = t
run_loop (r ∷ rs) t = let rest = run_loop rs (round r t).0 in finish (round r t) rest

-- A round of the quick tunnel, which has no provisioning; its URL comes from the process.
pub data QuickRound : Type 0 where
  quick_is_cancelled : QuickRound
  quick_spawn_fails : Fate → QuickRound
  quick_runs_until_cancelled : (url : Text) → QuickRound
  quick_exits : (url : Text) → (is_cancelled : Bool) → QuickRound

unfoldable pub quick_round : QuickRound → Tunnel → Tunnel × Next
quick_round quick_is_cancelled t = (t, returns)
quick_round (quick_spawn_fails f) t = spawn_failed f t
quick_round (quick_runs_until_cancelled url) t = (launched url t, returns)
quick_round (quick_exits url c) t = back_off c (set_url [] (launched url t))

unfoldable pub run_quick_loop : List QuickRound → Tunnel → Tunnel
run_quick_loop [] t = t
run_quick_loop (r ∷ rs) t =
    let rest = run_quick_loop rs (quick_round r t).0 in finish (quick_round r t) rest

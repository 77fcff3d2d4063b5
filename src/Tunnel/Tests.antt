-- ===== src/Tunnel/Tests.antt =====
-- A tunnel that fails in each way, and an output in two chunks.
use onesilo_node.Base.{◌≡◌, ◌++◌, refl, arith, Bool, false, List, [], ◌∷◌, Text, text, text_eq, map}
use onesilo_node.Tunnel.{Tunnel, other, subscription_required}
use onesilo_node.Tunnel.Loop.{
  Round, QuickRound, provision_fails, exits, spawn_fails, runs_until_cancelled, waited,
  cancelled_at_once, run_loop, run_quick_loop, quick_exits, quick_spawn_fails,
}
use onesilo_node.Tunnel.Loop.Bounds.{schedule, run_loop-schedule}
use onesilo_node.Tunnel.Loop.Urls.{IsWithdrawn, run_loop-IsWithdrawn}
use onesilo_node.Tunnel.Loop.Quick.{as_managed, run_quick_loop-run_loop}
use onesilo_node.Tunnel.Scan.{ready_line, scan}
use onesilo_node.Tunnel.Scan.Chunks.{result, scan-result}

abbrev fresh : Tunnel
fresh = record { url = []; subscription_blocked = false; backoff = 1; notified = []; waits = [] }

abbrev rounds : List Round
rounds =
    provision_fails subscription_required waited
    ∷ provision_fails other waited
    ∷ spawn_fails waited
    ∷ exits (text "https://a") false
    ∷ runs_until_cancelled (text "https://a")
    ∷ []

run_loop-schedule_example : (run_loop rounds fresh).waits ≡ schedule rounds 0 []
run_loop-schedule_example = run_loop-schedule rounds 0 fresh refl

scheduled : schedule rounds 0 [] ≡ 1 ∷ 2 ∷ 1 ∷ 600 ∷ []
unfolding schedule
scheduled = refl

run_loop-IsWithdrawn_example : IsWithdrawn (run_loop rounds fresh)
run_loop-IsWithdrawn_example =
    run_loop-IsWithdrawn rounds fresh
      (record { is_announced = record { current = refl; news = tt }; down = refl })

abbrev quick_rounds : List QuickRound
quick_rounds = quick_exits (text "https://a") false ∷ quick_spawn_fails cancelled_at_once ∷ []

run_quick_loop-run_loop_example :
    run_quick_loop quick_rounds fresh ≡ run_loop (map as_managed quick_rounds) fresh
run_quick_loop-run_loop_example = run_quick_loop-run_loop quick_rounds fresh refl

abbrev is_up : Text → Bool
is_up s = text_eq s (text "up")

abbrev output : Text
output = text "no" ++ 10 ∷ text "up" ++ 10 ∷ text "x"

scan-result_example : scan (ready_line is_up) 7 output ≡ result (ready_line is_up) output
scan-result_example = scan-result (ready_line is_up) 7 output (omega arith)

abbrev chunks : List Text
chunks = text "no" ∷ (10 ∷ text "u") ∷ (text "p" ++ 10 ∷ []) ∷ []

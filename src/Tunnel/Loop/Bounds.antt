-- ===== src/Tunnel/Loop/Bounds.antt =====
-- How long the loop waits.
use mathlib.Core.Path.{ap₂}
use onesilo_node.Base.{
  ℕ, zero, suc, ◌≡◌, ◌++◌, ◌^◌, min, refl, ap, ◌∙◌, inl, inr, arith, Bool, true, false, List, [],
  ◌∷◌, map, Text, text_eq, Bool-cases, length, replicate,
}
use onesilo_node.Tunnel.{
  Tunnel, ProvisionError, subscription_required, managed_unavailable, other, initial_backoff,
  doubled, backoff_for, set_url, set_subscription_blocked,
}
use onesilo_node.Tunnel.Loop.{
  Fate, Round, is_cancelled, provision_fails, spawn_fails, runs_until_cancelled, exits,
  cancelled_at_once, cancelled_in_wait, waited, backoff_after, wait_for, refused, back_off,
  launched, spawn_failed, provision_failed, round, run_loop,
}

-- The wait after so many transient failures in a row: it doubles, up to a minute.
abbrev pub pace : (failures : ℕ) → ℕ
pace failures = min (2 ^ failures) 60

-- Whether a failed call was followed by a wait.
abbrev pub has_wait : Fate → Bool
has_wait cancelled_at_once = false
has_wait cancelled_in_wait = true
has_wait waited = true

-- Whether the loop goes on after the wait of a failed call.
abbrev pub goes_on : Fate → Bool
goes_on cancelled_at_once = false
goes_on cancelled_in_wait = false
goes_on waited = true

-- The wait of each kind of failure, after so many transient failures.
abbrev pub wait_of : ProvisionError → (failures : ℕ) → ℕ
wait_of subscription_required failures = 600
wait_of managed_unavailable failures = 300
wait_of other failures = pace failures

-- Only a transient failure counts.
abbrev pub failures_after : ProvisionError → (failures : ℕ) → ℕ
failures_after subscription_required failures = failures
failures_after managed_unavailable failures = failures
failures_after other failures = suc failures

-- The waits that the rounds call for, the latest first, before those of `ws`. A process that came up
-- ends the row of failures; its exit is the first of a new one.
unfoldable pub schedule : List Round → (failures : ℕ) → List ℕ → List ℕ
schedule [] k ws = ws
schedule (is_cancelled ∷ rs) k ws = ws
schedule (provision_fails e cancelled_at_once ∷ rs) k ws = ws
schedule (provision_fails e cancelled_in_wait ∷ rs) k ws = wait_of e k ∷ ws
schedule (provision_fails e waited ∷ rs) k ws = schedule rs (failures_after e k) (wait_of e k ∷ ws)
schedule (spawn_fails cancelled_at_once ∷ rs) k ws = ws
schedule (spawn_fails cancelled_in_wait ∷ rs) k ws = pace k ∷ ws
schedule (spawn_fails waited ∷ rs) k ws = schedule rs (suc k) (pace k ∷ ws)
schedule (runs_until_cancelled url ∷ rs) k ws = ws
schedule (exits url true ∷ rs) k ws = pace 0 ∷ ws
schedule (exits url false ∷ rs) k ws = schedule rs 1 (pace 0 ∷ ws)

doubled-pace : (k : ℕ) → doubled (pace k) ≡ pace (suc k)
unfolding doubled
doubled-pace k = omega arith

backoff_for-wait_of : (e : ProvisionError) (k : ℕ) → backoff_for e (pace k) ≡ wait_of e k
unfolding backoff_for
backoff_for-wait_of subscription_required k = refl
backoff_for-wait_of managed_unavailable k = refl
backoff_for-wait_of other k = refl

backoff_after-pace :
    (e : ProvisionError) (k : ℕ) → backoff_after e (pace k) ≡ pace (failures_after e k)
unfolding backoff_after
backoff_after-pace subscription_required k = refl
backoff_after-pace managed_unavailable k = refl
backoff_after-pace other k = doubled-pace k

set_url-waits : (u : Text) (t : Tunnel) → (set_url u t).waits ≡ t.waits
unfolding set_url
set_url-waits u t = elim (Bool-cases (text_eq t.url u)) [ inl e ↦ rw e refl | inr e ↦ rw e refl ]

set_url-backoff : (u : Text) (t : Tunnel) → (set_url u t).backoff ≡ t.backoff
unfolding set_url
set_url-backoff u t = elim (Bool-cases (text_eq t.url u)) [ inl e ↦ rw e refl | inr e ↦ rw e refl ]

refused-waits :
    (e : ProvisionError) (k : ℕ) (t : Tunnel)
    → t.backoff ≡ pace k
    → (refused e t).waits ≡ wait_of e k ∷ t.waits
unfolding refused wait_for set_subscription_blocked
refused-waits e k t h = ap (λ n. n ∷ t.waits) (ap (backoff_for e) h ∙ backoff_for-wait_of e k)

refused-backoff :
    (e : ProvisionError) (k : ℕ) (t : Tunnel)
    → t.backoff ≡ pace k
    → (refused e t).backoff ≡ pace (failures_after e k)
unfolding refused wait_for set_subscription_blocked
refused-backoff e k t h = ap (backoff_after e) h ∙ backoff_after-pace e k

down_backoff :
    (u : Text) (t : Tunnel)
    → (set_url [] (launched u (set_subscription_blocked false t))).backoff ≡ pace 0
unfolding launched set_subscription_blocked
down_backoff u t = set_url-backoff [] _ ∙ set_url-backoff u _

down_waits :
    (u : Text) (t : Tunnel)
    → (set_url [] (launched u (set_subscription_blocked false t))).waits ≡ t.waits
unfolding launched set_subscription_blocked
down_waits u t = set_url-waits [] _ ∙ set_url-waits u _

launched-waits :
    (u : Text) (t : Tunnel) → (launched u (set_subscription_blocked false t)).waits ≡ t.waits
unfolding launched set_subscription_blocked
launched-waits u t = set_url-waits u _

-- Whatever the loop meets, its waits are those that its rounds call for, in this order: ten minutes
-- after each refusal for want of a subscription, five minutes after each answer that the control plane
-- cannot provision, and after any other failure 2 ^ k seconds, at most a minute, where k such failures
-- came before it in a row. A process that came up ends the row, and its exit is the first failure of
-- a new one. There is no wait after a call that was cancelled. The loop starts with the backoff of a
-- row of failures, which may be empty.
pub run_loop-schedule :
    (rs : List Round) (k : ℕ) (t : Tunnel)
    → t.backoff ≡ pace k
    → (run_loop rs t).waits ≡ schedule rs k t.waits
unfolding run_loop schedule round provision_failed spawn_failed back_off wait_for
    set_subscription_blocked
run_loop-schedule [] k t h = refl
run_loop-schedule (is_cancelled ∷ rs) k t h = set_url-waits [] t
run_loop-schedule (provision_fails e cancelled_at_once ∷ rs) k t h = set_url-waits [] t
run_loop-schedule (provision_fails e cancelled_in_wait ∷ rs) k t h =
    set_url-waits [] (refused e t) ∙ refused-waits e k t h
run_loop-schedule (provision_fails e waited ∷ rs) k t h =
    run_loop-schedule rs (failures_after e k) (refused e t) (refused-backoff e k t h)
    ∙ ap (schedule rs (failures_after e k)) (refused-waits e k t h)
run_loop-schedule (spawn_fails cancelled_at_once ∷ rs) k t h = set_url-waits [] _
run_loop-schedule (spawn_fails cancelled_in_wait ∷ rs) k t h =
    set_url-waits [] _ ∙ ap (λ n. n ∷ t.waits) h
run_loop-schedule (spawn_fails waited ∷ rs) k t h =
    run_loop-schedule rs (suc k) _ (ap doubled h ∙ doubled-pace k)
    ∙ ap (λ n. schedule rs (suc k) (n ∷ t.waits)) h
run_loop-schedule (runs_until_cancelled u ∷ rs) k t h = set_url-waits [] _ ∙ launched-waits u t
run_loop-schedule (exits u true ∷ rs) k t h =
    set_url-waits [] _ ∙ ap₂ (λ b w. b ∷ w) (down_backoff u t) (down_waits u t)
run_loop-schedule (exits u false ∷ rs) k t h =
    run_loop-schedule rs 1 _ (ap doubled (down_backoff u t) ∙ doubled-pace 0)
    ∙ ap (schedule rs 1) (ap₂ (λ b w. b ∷ w) (down_backoff u t) (down_waits u t))

round-waits :
    (u : Text) (t : Tunnel) → (round (exits u false) t).0.waits ≡ initial_backoff ∷ t.waits
unfolding round back_off wait_for launched set_subscription_blocked
round-waits u t =
    let m = record t { subscription_blocked = false; backoff = initial_backoff } in
    let b = set_url-backoff [] (set_url u m) ∙ set_url-backoff u m in
    let w = set_url-waits [] (set_url u m) ∙ set_url-waits u m in ap₂ (λ b w. b ∷ w) b w

replicate-shift : (n : ℕ) (l : List ℕ) → replicate n 1 ++ 1 ∷ l ≡ 1 ∷ (replicate n 1 ++ l)
replicate-shift zero l = refl
replicate-shift (suc n) l = ap (λ x. 1 ∷ x) (replicate-shift n l)

-- However often the process comes up and exits, the loop waits one second each time: a process that
-- comes up has reset the backoff, so an exit never makes the next wait longer.
pub exits-waits :
    (us : List Text) (t : Tunnel)
    → (run_loop (map (λ u. exits u false) us) t).waits
      ≡ replicate (length us) initial_backoff ++ t.waits
unfolding run_loop round back_off
exits-waits [] t = refl
exits-waits (u ∷ us) t =
    exits-waits us (round (exits u false) t).0
    ∙ ap (λ w. replicate (length us) initial_backoff ++ w) (round-waits u t)
    ∙ replicate-shift (length us) t.waits

-- ===== src/Tunnel/Loop/Quick.antt =====
-- The loop of the quick tunnel beside the loop of the managed one.
use onesilo_node.Base.{
  ◌≡◌, refl, sym, ap, ◌∙◌, inl, inr, Bool, true, false, List, [], ◌∷◌, map, Text, text_eq,
  Bool-cases,
}
use onesilo_node.Tunnel.{Tunnel, set_url, set_subscription_blocked}
use onesilo_node.Tunnel.Loop.{
  Round, is_cancelled, spawn_fails, runs_until_cancelled, exits, cancelled_at_once,
  cancelled_in_wait, waited, returns, finish, wait_for, back_off, launched, spawn_failed, round,
  run_loop, QuickRound, quick_is_cancelled, quick_spawn_fails, quick_runs_until_cancelled,
  quick_exits, quick_round, run_quick_loop,
}

-- The same round after a provisioning that succeeds.
unfoldable pub as_managed : QuickRound → Round
as_managed quick_is_cancelled = is_cancelled
as_managed (quick_spawn_fails f) = spawn_fails f
as_managed (quick_runs_until_cancelled u) = runs_until_cancelled u
as_managed (quick_exits u c) = exits u c

abbrev pub IsUnblocked : Tunnel → Type 0
IsUnblocked t = t.subscription_blocked ≡ false

set_url-IsUnblocked : (u : Text) (t : Tunnel) → IsUnblocked t → IsUnblocked (set_url u t)
unfolding set_url
set_url-IsUnblocked u t h = elim (Bool-cases (text_eq t.url u)) [ inl e ↦ rw e h | inr e ↦ rw e h ]

unblocked : (t : Tunnel) → IsUnblocked t → set_subscription_blocked false t ≡ t
unfolding set_subscription_blocked
unblocked t h =
    ap
      (λ b. record {
        url = t.url;
        subscription_blocked = b;
        backoff = t.backoff;
        notified = t.notified;
        waits = t.waits;
      })
      (sym h)

quick_round-round :
    (r : QuickRound) (t : Tunnel) → IsUnblocked t → quick_round r t ≡ round (as_managed r) t
unfolding quick_round round as_managed
quick_round-round quick_is_cancelled t h = refl
quick_round-round (quick_spawn_fails f) t h = ap (spawn_failed f) (sym (unblocked t h))
quick_round-round (quick_runs_until_cancelled u) t h =
    ap (λ t. (launched u t, returns)) (sym (unblocked t h))
quick_round-round (quick_exits u c) t h =
    ap (λ t. back_off c (set_url [] (launched u t))) (sym (unblocked t h))

back_off-IsUnblocked : (c : Bool) (t : Tunnel) → IsUnblocked t → IsUnblocked (back_off c t).0
unfolding back_off wait_for
back_off-IsUnblocked true t h = h
back_off-IsUnblocked false t h = h

quick_round-IsUnblocked :
    (r : QuickRound) (t : Tunnel) → IsUnblocked t → IsUnblocked (quick_round r t).0
unfolding quick_round spawn_failed launched
quick_round-IsUnblocked quick_is_cancelled t h = h
quick_round-IsUnblocked (quick_spawn_fails cancelled_at_once) t h = h
quick_round-IsUnblocked (quick_spawn_fails cancelled_in_wait) t h = back_off-IsUnblocked true t h
quick_round-IsUnblocked (quick_spawn_fails waited) t h = back_off-IsUnblocked false t h
quick_round-IsUnblocked (quick_runs_until_cancelled u) t h = set_url-IsUnblocked u _ h
quick_round-IsUnblocked (quick_exits u c) t h =
    back_off-IsUnblocked c _ (set_url-IsUnblocked [] _ (set_url-IsUnblocked u _ h))

-- The quick tunnel's loop does what the managed one's would do with a control plane that always
-- provisions: the same announcements, waits and end.
pub run_quick_loop-run_loop :
    (rs : List QuickRound) (t : Tunnel)
    → t.subscription_blocked ≡ false
    → run_quick_loop rs t ≡ run_loop (map as_managed rs) t
unfolding run_quick_loop run_loop
run_quick_loop-run_loop [] t h = refl
run_quick_loop-run_loop (r ∷ rs) t h =
    let e = quick_round-round r t h in
    let ih = run_quick_loop-run_loop rs (quick_round r t).0 (quick_round-IsUnblocked r t h) in
    ap (finish (quick_round r t)) ih ∙ ap (λ x. finish x (run_loop (map as_managed rs) x.0)) e

-- ===== src/Compute/Ready.antt =====
-- When the server counts as running.
use onesilo_node.Base.{
  ℕ, zero, suc, ◌+◌, ◌≤◌, ◌<◌, ◌≡◌, refl, subst, true, false, Option, none, some, arith, Bool-cases,
  inl, inr,
}
use onesilo_node.Base.Result.{Result, ok, err}
use onesilo_node.Config.{Ollama}
use onesilo_node.Compute.{
  ComputeError, Machine, Manager, spawn_server, with_server, wait_ready, await_server,
  ensure_running,
}

module _ (w : Machine) where
  wait_ready-reachable :
      (n k : ℕ) → wait_ready w n k ≡ ok tt → (j : ℕ) × (j < k + n) × (w.reachable j ≡ true)
  unfolding wait_ready
  wait_ready-reachable zero k h = absurd (cc)
  wait_ready-reachable (suc n) k h = elim (Bool-cases (w.reachable k)) [
    | inl e ↦ (k, omega arith, e)
    | inr e ↦ elim (Bool-cases (w.gives_up k)) [
      | inl g ↦ absurd (ground arith)
      | inr g ↦
          let (j, b, r) = wait_ready-reachable n (suc k) (ground arith) in (j, omega (arith, b), r)
    ]
  ]

  -- A server that answers while the loop still runs is found.
  wait_ready-found :
      (n k j : ℕ)
      → w.reachable (k + j) ≡ true
      → j < n
      → ((i : ℕ) → w.gives_up i ≡ false)
      → wait_ready w n k ≡ ok tt
  unfolding wait_ready
  wait_ready-found zero k j r b g = elim b [ ]
  wait_ready-found (suc n) k zero r b g =
      let e : w.reachable k ≡ true = subst (λ i. w.reachable i ≡ true) (omega arith) r in rw e refl
  wait_ready-found (suc n) k (suc j) r b g = elim (Bool-cases (w.reachable k)) [
    | inl e ↦ rw e refl
    | inr e ↦
        let s : w.reachable (suc k + j) ≡ true =
          subst (λ i. w.reachable i ≡ true) (omega arith) r in
        rw (e, g k) (wait_ready-found n (suc k) j s (omega (arith, b)) g)
  ]

  await_ready :
      (s : Result ComputeError ℕ) (m : Manager)
      → (await_server w s m).1 ≡ ok tt
      → (j : ℕ) × (j ≤ 20) × (w.reachable j ≡ true)
  unfolding await_server
  await_ready (err e) m h = absurd (cc)
  await_ready (ok pid) m h = let (j, b, r) = wait_ready-reachable 20 1 h in (j, omega (arith, b), r)

  ensure_ready :
      (o : Ollama) (m : Manager)
      → (ensure_running w o m).1 ≡ ok tt
      → (j : ℕ) × (j ≤ 20) × (w.reachable j ≡ true)
  unfolding ensure_running with_server spawn_server
  ensure_ready o m = elim (Bool-cases (w.reachable 0)) [
    | inl e ↦ λ h. (0, omega arith, e)
    | inr e ↦ elim (Bool-cases o.manage) [
      | inl f ↦ rw (e, f) (await_ready (with_server w o m.cmd) m)
      | inr f ↦ rw (e, f) (λ h. absurd (cc))
    ]
  ]

  await_found :
      (s : Result ComputeError ℕ) (pid j : ℕ) (m : Manager)
      → s ≡ ok pid
      → suc j ≤ 20
      → w.reachable (suc j) ≡ true
      → ((i : ℕ) → w.gives_up i ≡ false)
      → (await_server w s m).1 ≡ ok tt
  unfolding await_server
  await_found (err e) pid j m s b r g = absurd (cc)
  await_found (ok p) pid j m s b r g =
      let q : w.reachable (1 + j) ≡ true = subst (λ i. w.reachable i ≡ true) (omega arith) r in
      wait_ready-found 20 1 j q (omega (arith, b)) g

  ensure_found :
      (o : Ollama) (m : Manager) (pid j : ℕ)
      → o.manage ≡ true
      → with_server w o m.cmd ≡ ok pid
      → j ≤ 20
      → w.reachable j ≡ true
      → ((i : ℕ) → w.gives_up i ≡ false)
      → (ensure_running w o m).1 ≡ ok tt
  unfolding ensure_running with_server spawn_server
  ensure_found o m pid zero f s b r g = rw r refl
  ensure_found o m pid (suc j) f s b r g = elim (Bool-cases (w.reachable 0)) [
    | inl e ↦ rw e refl
    | inr e ↦ rw (e, f) (await_found (with_server w o m.cmd) pid j m s b r g)
  ]

  await_cmd :
      (o : Ollama) (c : Option ℕ) (m : Manager) (pid : ℕ)
      → c ≡ some pid
      → (await_server w (with_server w o c) m).0.cmd ≡ some pid
  unfolding await_server with_server
  await_cmd o none m pid h = absurd (cc)
  await_cmd o (some q) m pid h = h

  ensure_cmd :
      (o : Ollama) (m : Manager) (pid : ℕ)
      → m.cmd ≡ some pid
      → (ensure_running w o m).0.cmd ≡ some pid
  unfolding ensure_running with_server spawn_server
  ensure_cmd o m pid h = elim (Bool-cases (w.reachable 0)) [
    | inl e ↦ rw e h
    | inr e ↦ elim (Bool-cases o.manage) [
      | inl f ↦ rw (e, f) (await_cmd o m.cmd m pid h)
      | inr f ↦ rw (e, f) h
    ]
  ]

  -- EnsureRunning ends after at most 21 probes. It succeeds only if one of them was answered; and if
  -- the server may be spawned and is there, it succeeds as soon as one is, unless the call is given up.
  -- A process that was spawned before stays the one that is managed.
  pub ensure_running_lem :
      (o : Ollama) (m : Manager)
      → let (n, r) = ensure_running w o m in
        (r ≡ ok tt → (j : ℕ) × (j ≤ 20) × (w.reachable j ≡ true))
        × ((pid j : ℕ)
            → o.manage ≡ true
            → with_server w o m.cmd ≡ ok pid
            → j ≤ 20
            → w.reachable j ≡ true
            → ((i : ℕ) → w.gives_up i ≡ false)
            → r ≡ ok tt)
        × ((pid : ℕ) → m.cmd ≡ some pid → n.cmd ≡ some pid)
  ensure_running_lem o m = (ensure_ready o m, ensure_found o m, ensure_cmd o m)

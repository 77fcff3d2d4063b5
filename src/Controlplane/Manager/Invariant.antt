-- ===== src/Controlplane/Manager/Invariant.antt =====
-- What holds of the registration state between two steps.
use onesilo_node.Base.{
  ℕ, zero, suc, ◌+◌, ◌*◌, ◌≤◌, ◌≡◌, refl, ap, ◌∙◌, inl, inr, Bool, true, false, List, [], ◌∷◌, some,
  arith, Text, is_empty, All, Bool-cases, Option-cases,
}
use onesilo_node.Base.Int.{ℤ, pos, negsuc, second, max_seconds, duration_small}
use onesilo_node.Controlplane.Report.{
  RegisterRequest, RegisterResponse, Answer, ApiError, accepted, refused, enabled_capability_ids,
}
use onesilo_node.Controlplane.Manager.{
  Manager, World, OutsideCall, Event, wakes, calls, sets_url, updates_token, kicks, new_manager,
  set_tunnel_url, notify_token_updated, call, call_all, deregister, ensure_device_id,
  register_accepted, register_refused, register_answered, register_as, register, request_of,
  heartbeat_answered, heartbeat, is_desired, step, handle, run_until, interval_of,
}

abbrev pub IsPositive : ℤ → Type 0
IsPositive z = (n : ℕ) × (z ≡ pos (suc n))

pub record IsConsistent (m : Manager) : Type 0 where
  pub unregistered : m.registered ≡ false → m.registered_url ≡ []
  pub reachable : m.registered ≡ true → is_empty m.registered_url ≡ false
  pub identified : m.registered ≡ true → is_empty m.device_id ≡ false
  pub paid : m.subscription_blocked ≡ true → m.registered ≡ false
  pub paced : IsPositive m.interval

-- A number of seconds that a time.Duration holds.
abbrev pub IsShort : ℤ → Type 0
IsShort (pos n) = n ≤ max_seconds
IsShort (negsuc n) = Unit

-- A device id that is loaded or created is not empty, and the control plane asks for no heartbeat
-- interval that is too long for a time.Duration.
pub record IsSound (w : World) : Type 0 where
  pub named : (id : Text) → w.load_device_id ≡ some id → is_empty id ≡ false
  pub short :
      (req : RegisterRequest) (r : RegisterResponse)
      → w.register req ≡ accepted r
      → IsShort r.heartbeat_interval_seconds

call-IsConsistent : (c : OutsideCall) (m : Manager) → IsConsistent m → IsConsistent (call c m)
unfolding call set_tunnel_url notify_token_updated
call-IsConsistent (sets_url url) m v = ground arith
call-IsConsistent updates_token m v = ground arith
call-IsConsistent kicks m v = ground arith

call_all-IsConsistent :
    (cs : List OutsideCall) (m : Manager) → IsConsistent m → IsConsistent (call_all cs m)
unfolding call_all
call_all-IsConsistent [] m v = v
call_all-IsConsistent (c ∷ cs) m v = call_all-IsConsistent cs (call c m) (call-IsConsistent c m v)

deregister-IsConsistent : (m : Manager) → IsConsistent m → IsConsistent (deregister m).0
unfolding deregister
deregister-IsConsistent m v = ground arith

interval_of-IsPositive : (z : ℤ) → IsShort z → IsPositive (interval_of z)
unfolding interval_of
interval_of-IsPositive (pos zero) h = (29999999999, refl)
interval_of-IsPositive (pos (suc n)) h =
    (n * second + 999999999, duration_small (suc n) h ∙ ap pos (omega arith))
interval_of-IsPositive (negsuc n) h = (29999999999, refl)

register_accepted-IsConsistent :
    (url device_id : Text) (resp : RegisterResponse) (m : Manager)
    → is_empty url ≡ false
    → is_empty device_id ≡ false
    → IsShort resp.heartbeat_interval_seconds
    → IsConsistent (register_accepted url device_id resp m).0
unfolding register_accepted
register_accepted-IsConsistent url device_id resp m u d h = record {
  unregistered = λ e. absurd (cc);
  reachable = λ e. u;
  identified = λ e. ground (arith, d);
  paid = λ e. absurd (cc);
  paced = interval_of-IsPositive resp.heartbeat_interval_seconds h;
}

register_refused-IsConsistent :
    (e : ApiError) (m : Manager) → IsConsistent m → IsConsistent (register_refused e m).0
unfolding register_refused
register_refused-IsConsistent e m v = ground arith

heartbeat_answered-IsConsistent :
    (i : ℤ) (a : Answer (Unit {0})) (m : Manager)
    → IsConsistent m
    → IsConsistent (heartbeat_answered i a m).0
unfolding heartbeat_answered
heartbeat_answered-IsConsistent i (accepted _) m v = v
heartbeat_answered-IsConsistent i (refused e) m v = ground arith

register_answered-IsConsistent :
    (req : RegisterRequest) (commit : Bool) (a : Answer RegisterResponse) (m : Manager)
    → is_empty req.tunnel_url ≡ false
    → is_empty req.device_id ≡ false
    → ((r : RegisterResponse) → a ≡ accepted r → IsShort r.heartbeat_interval_seconds)
    → IsConsistent m
    → IsConsistent (register_answered req commit a m).0
unfolding register_answered
register_answered-IsConsistent req commit (refused e) m u d h v =
    register_refused-IsConsistent e m v
register_answered-IsConsistent req commit (accepted r) m u d h v =
    register_accepted-IsConsistent req.tunnel_url req.device_id r m u d (h r refl)

register-IsConsistent :
    (w : World) (url : Text) (ids : List Text) (m : Manager)
    → IsSound w
    → is_empty url ≡ false
    → IsConsistent m
    → IsConsistent (register w url ids m).0
unfolding register ensure_device_id register_as request_of
register-IsConsistent w url ids m s u v = elim (Bool-cases (is_empty m.device_id)) [
  | inr known ↦
      rw (known, register, ensure_device_id)
        (register_answered-IsConsistent _ _ _ _ u known (s.short _)
          (call_all-IsConsistent w.during m v))
  | inl fresh ↦ elim (Option-cases w.load_device_id) [
    | inl failed ↦ rw (fresh, failed, register, ensure_device_id) v
    | inr (id, loaded) ↦
        rw (fresh, loaded, register, ensure_device_id)
          (register_answered-IsConsistent _ _ _ _ u (s.named id loaded) (s.short _)
            (call_all-IsConsistent w.during _ (named id (s.named id loaded))))
  ]
]
  where
    named : (id : Text) → is_empty id ≡ false → IsConsistent (record m { device_id = id })
    named id e = record {
      unregistered = v.unregistered;
      reachable = v.reachable;
      identified = λ r. e;
      paid = v.paid;
      paced = v.paced;
    }

desired-url : (w : World) (m : Manager) → is_desired w m ≡ true → is_empty m.tunnel_url ≡ false
unfolding is_desired
desired-url w m h = ground arith

heartbeat-IsConsistent :
    (w : World) (i : ℤ) (m : Manager) → IsConsistent m → IsConsistent (heartbeat w i m).0
unfolding heartbeat
heartbeat-IsConsistent w i m v =
    heartbeat_answered-IsConsistent i _ _ (call_all-IsConsistent w.during m v)

pub step-IsConsistent :
    (w : World) (m : Manager) → IsSound w → IsConsistent m → IsConsistent (step w m).0
unfolding step
step-IsConsistent w m s v = elim (Bool-cases (is_desired w m)) [
  | inr off ↦ ground (arith, off, deregister-IsConsistent m v)
  | inl on ↦ ground (
    arith,
    register-IsConsistent w m.tunnel_url (enabled_capability_ids w.capabilities) m s
        (desired-url w m on) v,
    heartbeat-IsConsistent w m.interval m v,
  )
]

abbrev pub IsSoundEvent : Event → Type 0
IsSoundEvent (wakes b w) = IsSound w
IsSoundEvent (calls c) = Unit {0}

handle-IsConsistent :
    (e : Event) (m : Manager) → IsSoundEvent e → IsConsistent m → IsConsistent (handle e m).0
unfolding handle
handle-IsConsistent (wakes true w) m s v = step-IsConsistent w _ s (record {
  unregistered = v.unregistered;
  reachable = v.reachable;
  identified = v.identified;
  paid = v.paid;
  paced = v.paced;
})
handle-IsConsistent (wakes false w) m s v = step-IsConsistent w m s v
handle-IsConsistent (calls c) m s v = call-IsConsistent c m v

run_until-IsConsistent :
    (es : List Event) (m : Manager)
    → All IsSoundEvent es
    → IsConsistent m
    → IsConsistent (run_until es m).0
unfolding run_until
run_until-IsConsistent [] m s v = v
run_until-IsConsistent (e ∷ es) m s v =
    run_until-IsConsistent es (handle e m).0 s.1 (handle-IsConsistent e m s.0 v)

-- In whatever order steps, tunnel changes and token updates come, also while a request is under way,
-- and whatever the control plane answers: an unregistered manager has no registered URL, a
-- registered one has a URL and a device id, remote access that was refused for lack of a plan is
-- never reported as registered, and the heartbeat interval is positive. Device ids that are loaded
-- or created are taken to be non-empty, and the control plane to ask for no interval of more than
-- 9223372036 seconds, which a time.Duration does not hold.
pub run_until_new-IsConsistent :
    (es : List Event) → All IsSoundEvent es → IsConsistent (run_until es new_manager).0
unfolding new_manager
run_until_new-IsConsistent es s = run_until-IsConsistent es new_manager s (ground arith)

-- ===== src/Controlplane/Manager/Recovery.antt =====
-- Calls that come in while a request is under way: a changed URL is noticed, a fresh token is not.
use onesilo_node.Base.{
  ◌≡◌, refl, sym, ap, subst, ◌∙◌, ◌⊎◌, inl, inr, true, false, List, [], ◌∷◌, ◌++◌, Option, some,
  arith, Text, text_eq_iff, is_empty, All,
}
use onesilo_node.Controlplane.Manager.Actions.{is_stale, step-register}
use onesilo_node.Controlplane.Report.{
  RegisterRequest, RegisterResponse, ApiError, accepted, refused, is_unauthorized,
  enabled_capability_ids,
}
use onesilo_node.Controlplane.Manager.{
  Manager, World, OutsideCall, Event, Action, wakes, calls, sends_register, sends_delete,
  sends_heartbeat, commits_key, saves_device_id, sets_url, updates_token, kicks, kick,
  set_tunnel_url, notify_token_updated, call, call_all, deregister, set_unregistered, key_of,
  ensure_device_id, register_accepted, register_refused, register_answered, register_as, register,
  request_of, is_desired, step, handle, run_until,
}

ensure_known :
    (o : Option Text) (m : Manager)
    → is_empty m.device_id ≡ false
    → ensure_device_id o m ≡ (m, some m.device_id)
unfolding ensure_device_id
ensure_known o m h = simp h

-- The request of a registration of a manager with a device id.
abbrev pub request_by : World → Manager → RegisterRequest
request_by w m = request_of w m.tunnel_url (enabled_capability_ids w.capabilities) m.device_id

register-known :
    (w : World) (m : Manager)
    → is_empty m.device_id ≡ false
    → register w m.tunnel_url (enabled_capability_ids w.capabilities) m
      ≡ register_answered
          (request_by w m)
          (key_of w.mint).1
          (w.register (request_by w m))
          (call_all w.during m)
unfolding register register_as
register-known w m h = rw (ensure_known w.load_device_id m h)

-- A manager that must register, may, and has a device id.
pub record IsReady (w : World) (m : Manager) : Type 0 where
  pub desired : is_desired w m ≡ true
  pub free : m.auth_blocked ≡ false
  pub stale : is_stale m ≡ true
  pub known : is_empty m.device_id ≡ false

step-answered :
    (w : World) (m : Manager)
    → IsReady w m
    → step w m
      ≡ register_answered
          (request_by w m)
          (key_of w.mint).1
          (w.register (request_by w m))
          (call_all w.during m)
step-answered w m v = step-register w m v.desired v.free v.stale ∙ register-known w m v.known

-- A call changes the URL only with a kick, and takes no kick back.
call_kicks :
    (c : OutsideCall) (m : Manager)
    → ((call c m).tunnel_url ≡ m.tunnel_url) ⊎ ((call c m).kicked ≡ true)
unfolding call set_tunnel_url notify_token_updated kick
call_kicks (sets_url url) m = ground (arith, text_eq_iff m.tunnel_url url)
call_kicks updates_token m = inr refl
call_kicks kicks m = inr refl

call_kicked : (c : OutsideCall) (m : Manager) → m.kicked ≡ true → (call c m).kicked ≡ true
unfolding call set_tunnel_url notify_token_updated kick
call_kicked (sets_url url) m h = ground arith
call_kicked updates_token m h = refl
call_kicked kicks m h = refl

call_all_kicked :
    (cs : List OutsideCall) (m : Manager) → m.kicked ≡ true → (call_all cs m).kicked ≡ true
unfolding call_all
call_all_kicked [] m h = h
call_all_kicked (c ∷ cs) m h = call_all_kicked cs (call c m) (call_kicked c m h)

call_all_kicks :
    (cs : List OutsideCall) (m : Manager)
    → ((call_all cs m).tunnel_url ≡ m.tunnel_url) ⊎ ((call_all cs m).kicked ≡ true)
unfolding call_all
call_all_kicks [] m = inl refl
call_all_kicks (c ∷ cs) m = elim (call_kicks c m) [
  | inr k ↦ inr (call_all_kicked cs (call c m) k)
  | inl e ↦ elim (call_all_kicks cs (call c m)) [ inr k ↦ inr k | inl f ↦ inl (f ∙ e) ]
]

pub record IsRegistered (w : World) (m n : Manager) : Type 0 where
  pub registered : n.registered ≡ true
  pub at_url : n.registered_url ≡ m.tunnel_url
  pub unblocked : n.subscription_blocked ≡ false
  pub noticed : (is_stale n ≡ false) ⊎ (n.kicked ≡ true)

registered-noticed :
    (url : Text) (n : Manager)
    → n.registered ≡ true
    → n.registered_url ≡ url
    → (n.tunnel_url ≡ url) ⊎ (n.kicked ≡ true)
    → (is_stale n ≡ false) ⊎ (n.kicked ≡ true)
registered-noticed url n r u h = ground (arith, text_eq_iff n.registered_url n.tunnel_url)

-- A registration that is accepted: the manager is registered under the URL that it sent, and if
-- another goroutine has changed the URL while the request was under way, a kick waits, so that the
-- loop registers again at once.
pub step-IsRegistered :
    (w : World) (m : Manager) (r : RegisterResponse)
    → IsReady w m
    → w.register (request_by w m) ≡ accepted r
    → IsRegistered w m (step w m).0
unfolding register_answered register_accepted
step-IsRegistered w m r v e =
    let n = call_all w.during m in
    let done = register_answered (request_by w m) (key_of w.mint).1 (accepted r) n in
    let same : step w m ≡ done =
      step-answered w m v ∙ ap (λ a. register_answered (request_by w m) (key_of w.mint).1 a n) e in
    subst (λ t. IsRegistered w m t.0) (sym same)
      (unfold request_of in
        record {
          registered = refl;
          at_url = refl;
          unblocked = refl;
          noticed = registered-noticed m.tunnel_url done.0 refl refl (call_all_kicks w.during m);
        })

-- No fresh token is pushed by these events themselves.
abbrev pub IsTokenless : Event → Type 0
IsTokenless (wakes b w) = Unit {0}
IsTokenless (calls (sets_url url)) = Unit {0}
IsTokenless (calls updates_token) = ⊥
IsTokenless (calls kicks) = Unit {0}

-- Nothing but deletions.
abbrev pub IsQuiet : List Action → Type 0
IsQuiet [] = Unit {0}
IsQuiet (sends_delete d ∷ l) = IsQuiet l
IsQuiet (commits_key ∷ l) = ⊥
IsQuiet (sends_register r ∷ l) = ⊥
IsQuiet (saves_device_id d ∷ l) = ⊥
IsQuiet (sends_heartbeat d s ∷ l) = ⊥

IsQuiet-append : (l k : List Action) → IsQuiet l → IsQuiet k → IsQuiet (l ++ k)
IsQuiet-append [] k h i = i
IsQuiet-append (sends_delete d ∷ l) k h i = IsQuiet-append l k h i
IsQuiet-append (commits_key ∷ l) k h i = absurd h
IsQuiet-append (sends_register r ∷ l) k h i = absurd h
IsQuiet-append (saves_device_id d ∷ l) k h i = absurd h
IsQuiet-append (sends_heartbeat d s ∷ l) k h i = absurd h

step-blocked-IsQuiet :
    (w : World) (m : Manager)
    → m.auth_blocked ≡ true
    → ((step w m).0.auth_blocked ≡ true) × IsQuiet (step w m).1
unfolding step deregister set_unregistered
step-blocked-IsQuiet w m h = ground arith

call-blocked :
    (c : OutsideCall) (m : Manager)
    → IsTokenless (calls c)
    → m.auth_blocked ≡ true
    → (call c m).auth_blocked ≡ true
unfolding call set_tunnel_url kick
call-blocked (sets_url url) m t h = ground arith
call-blocked updates_token m t h = absurd t
call-blocked kicks m t h = h

handle-blocked :
    (e : Event) (m : Manager)
    → IsTokenless e
    → m.auth_blocked ≡ true
    → ((handle e m).0.auth_blocked ≡ true) × IsQuiet (handle e m).1
unfolding handle
handle-blocked (wakes true w) m t h = step-blocked-IsQuiet w _ h
handle-blocked (wakes false w) m t h = step-blocked-IsQuiet w m h
handle-blocked (calls c) m t h = (call-blocked c m t h, tt)

run_until-blocked :
    (es : List Event) (m : Manager)
    → All IsTokenless es
    → m.auth_blocked ≡ true
    → ((run_until es m).0.auth_blocked ≡ true) × IsQuiet (run_until es m).1
unfolding run_until
run_until-blocked [] m t h = (h, tt)
run_until-blocked (e ∷ es) m t h =
    let (b, q) = handle-blocked e m t.0 h in
    let (c, r) = run_until-blocked es (handle e m).0 t.1 b in
    (c, IsQuiet-append (handle e m).1 (run_until es (handle e m).0).1 q r)

-- A fresh token that arrives while a registration with the old one is under way is lost: the
-- refusal blocks the manager after the update has unblocked it, and from then on, whatever wakes
-- the loop, it neither registers nor sends heartbeats until another token update comes.
pub token_update_lost :
    (w : World) (m : Manager) (e : ApiError) (es : List Event)
    → IsReady w m
    → w.during ≡ updates_token ∷ []
    → w.register (request_by w m) ≡ refused e
    → is_unauthorized e ≡ true
    → All IsTokenless es
    → ((step w m).0.auth_blocked ≡ true)
      × ((step w m).0.kicked ≡ true)
      × ((run_until es (step w m).0).0.auth_blocked ≡ true)
      × IsQuiet (run_until es (step w m).0).1
unfolding register_answered register_refused call_all call notify_token_updated kick
token_update_lost w m e es v d r u t =
    let same = step-answered w m v in
    let blocked : (step w m).0.auth_blocked ≡ true = rw (same, r, d, u) in
    let kicked : (step w m).0.kicked ≡ true = rw (same, r, d, u) in
    let (b, q) = run_until-blocked es (step w m).0 t blocked in (blocked, kicked, b, q)

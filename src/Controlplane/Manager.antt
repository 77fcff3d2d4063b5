-- ===== src/Controlplane/Manager.antt =====
-- internal/controlplane/heartbeat.go: the register / heartbeat / delete lifecycle. One goroutine runs
-- `step`; the other methods are calls from elsewhere, under the lock. What the control plane and
-- the rest of the node answer during a step is its `World`; what the step does to them is its list
-- of actions. Durations are in nanoseconds, as an int64.
pub mod Invariant
pub mod Actions
pub mod Recovery
mod Tests
use onesilo_node.Base.{
  ℕ, zero, suc, ◌*◌, Bool, true, false, ◌&&◌, ◌||◌, not, List, [], ◌∷◌, ◌++◌, Option, none, some,
  Text, text, text_eq, is_empty, ◌==◌, if◌then◌else◌,
}
use onesilo_node.Base.Int.{ℤ, pos, negsuc, second, duration}
use onesilo_node.Base.Assoc.{insert}
use onesilo_node.Controlplane.Report.{
  Probe, capability_status_keys, RegisterRequest, RegisterResponse, ApiError, Answer, no_token,
  other_error, status, accepted, refused, enabled_capability_ids, capabilities_status, is_status,
  is_unauthorized,
}

abbrev pub default_heartbeat_interval : ℤ
default_heartbeat_interval = pos (30 * second)

abbrev pub register_retry_interval : ℤ
register_retry_interval = pos (60 * second)

abbrev pub idle_interval : ℤ
idle_interval = pos (3600 * second)

abbrev pub subscription_retry_interval : ℤ
subscription_retry_interval = pos (600 * second)

-- What `Mint` of the key provider gave; the flag tells whether a commit function came with the key.
pub data MintOutcome : Type 0 where
  no_provider mint_failed : MintOutcome
  minted : Text → Bool → MintOutcome

-- A call from another goroutine: the tunnel's URL, a fresh token, any other reason to wake up.
pub data OutsideCall : Type 0 where
  sets_url : Text → OutsideCall
  updates_token kicks : OutsideCall

-- What the surroundings answer during one step. `load_device_id` is LoadOrCreateDeviceID; `during`
-- are the calls that come in while the step waits, without the lock, for the control plane.
pub record World : Type 0 where
  pub device_name : Text
  pub model_name : Text
  pub identity_pub_key : Text
  pub capabilities : List Probe
  pub load_device_id : Option Text
  pub mint : MintOutcome
  pub register : RegisterRequest → Answer RegisterResponse
  pub heartbeat : Text → Option (List (Text × Text)) → Answer (Unit {0})
  pub during : List OutsideCall

pub data Action : Type 0 where
  sends_register : RegisterRequest → Action
  commits_key : Action
  saves_device_id : Text → Action
  sends_heartbeat : Text → Option (List (Text × Text)) → Action
  sends_delete : Text → Action

-- The fields under the lock, and whether a kick waits in its channel.
pub record Manager : Type 0 where
  pub device_id : Text
  pub account_id : Text
  pub tunnel_url : Text
  pub registered : Bool
  pub registered_url : Text
  pub auth_blocked : Bool
  pub subscription_blocked : Bool
  pub interval : ℤ
  pub kicked : Bool

unfoldable pub new_manager : Manager
new_manager = record {
  device_id = [];
  account_id = [];
  tunnel_url = [];
  registered = false;
  registered_url = [];
  auth_blocked = false;
  subscription_blocked = false;
  interval = default_heartbeat_interval;
  kicked = false;
}

unfoldable pub kick : Manager → Manager
kick m = record m { kicked = true }

unfoldable pub set_tunnel_url : Text → Manager → Manager
unfolding kick
set_tunnel_url url m =
    let changed = not (text_eq m.tunnel_url url) in
    let n = record m { tunnel_url = url } in if changed then kick n else n

unfoldable pub notify_token_updated : Manager → Manager
unfolding kick
notify_token_updated m = kick (record m { auth_blocked = false })

unfoldable pub call : OutsideCall → Manager → Manager
call (sets_url url) m = set_tunnel_url url m
call updates_token m = notify_token_updated m
call kicks m = kick m

unfoldable pub call_all : List OutsideCall → Manager → Manager
call_all [] m = m
call_all (c ∷ cs) m = call_all cs (call c m)

unfoldable pub set_unregistered : Manager → Manager
set_unregistered m = record m { registered = false; registered_url = [] }

unfoldable pub block_subscription : Manager → Manager
block_subscription m = record m {
  subscription_blocked = true;
  registered = false;
  registered_url = [];
}

unfoldable pub deregister : Manager → Manager × List Action
unfolding set_unregistered
deregister m = (set_unregistered m, (if m.registered then sends_delete m.device_id ∷ [] else []))

unfoldable pub ensure_device_id : Option Text → Manager → Manager × Option Text
ensure_device_id loaded m =
    if is_empty m.device_id
    then elim loaded [ none ↦ (m, none) | some id ↦ (record m { device_id = id }, some id) ]
    else (m, some m.device_id)

-- The key to publish, and whether its commit is kept. An empty key's commit is not taken.
unfoldable pub key_of : MintOutcome → Text × Bool
key_of no_provider = ([], false)
key_of mint_failed = ([], false)
key_of (minted key offered) = if is_empty key then ([], false) else (key, offered)

-- The product with time.Second wraps.
unfoldable pub interval_of : ℤ → ℤ
interval_of (pos zero) = default_heartbeat_interval
interval_of (pos (suc n)) = duration (suc n)
interval_of (negsuc n) = default_heartbeat_interval

abbrev pub non_empty_or : Text → Text → Text
non_empty_or [] d = d
non_empty_or (b ∷ s) d = b ∷ s

unfoldable pub register_accepted :
    Text → Text → RegisterResponse → Manager → Manager × List Action × ℤ
unfolding interval_of
register_accepted url device_id resp m =
    let interval = interval_of resp.heartbeat_interval_seconds in
    let adopted = not (is_empty resp.device_id) && not (text_eq resp.device_id device_id) in
    (
      record m {
        device_id = if adopted then resp.device_id else device_id;
        account_id = non_empty_or resp.account_id m.account_id;
        registered = true;
        subscription_blocked = false;
        registered_url = url;
        interval = interval;
      },
      (if adopted then saves_device_id resp.device_id ∷ [] else []),
      interval,
    )

unfoldable pub register_refused : ApiError → Manager → Manager × ℤ
unfolding block_subscription
register_refused e m =
    if is_unauthorized e
    then (record m { auth_blocked = true }, idle_interval)
    else if is_status 402 e
    then (block_subscription m, subscription_retry_interval)
    else (m, register_retry_interval)

unfoldable pub request_of : World → Text → List Text → Text → RegisterRequest
request_of w url ids device_id = record {
  tunnel_url = url;
  device_name = w.device_name;
  model_name = w.model_name;
  capabilities = ids;
  device_id = device_id;
  capabilities_status = capabilities_status w.capabilities;
  identity_pub_key = w.identity_pub_key;
  inference_key = (key_of w.mint).0;
}

unfoldable pub register_answered :
    RegisterRequest → Bool → Answer RegisterResponse → Manager → Manager × List Action × ℤ
register_answered req commit (refused e) m =
    let (n, wait) = register_refused e m in (n, sends_register req ∷ [], wait)
register_answered req commit (accepted resp) m =
    let (n, saves, wait) = register_accepted req.tunnel_url req.device_id resp m in
    (n, sends_register req ∷ ((if commit then commits_key ∷ [] else []) ++ saves), wait)

unfoldable pub register_as :
    World → Text → List Text → Manager → Option Text → Manager × List Action × ℤ
register_as w url ids m none = (m, [], register_retry_interval)
register_as w url ids m (some device_id) =
    let req = request_of w url ids device_id in
    register_answered req (key_of w.mint).1 (w.register req) (call_all w.during m)

unfoldable pub register : World → Text → List Text → Manager → Manager × List Action × ℤ
register w url ids m =
    let (n, device_id) = ensure_device_id w.load_device_id m in register_as w url ids n device_id

unfoldable pub heartbeat_answered : ℤ → Answer (Unit {0}) → Manager → Manager × ℤ
unfolding set_unregistered block_subscription
heartbeat_answered interval (accepted _) m = (m, interval)
heartbeat_answered interval (refused e) m =
    if is_unauthorized e
    then (set_unregistered (record m { auth_blocked = true }), idle_interval)
    else if is_status 402 e
    then (block_subscription m, subscription_retry_interval)
    else if is_status 404 e
    then (set_unregistered m, pos second)
    else (m, interval)

unfoldable pub heartbeat : World → ℤ → Manager → Manager × List Action × ℤ
heartbeat w interval m =
    let st = capabilities_status w.capabilities in
    let (n, wait) =
      heartbeat_answered interval (w.heartbeat m.device_id st) (call_all w.during m) in
    (n, sends_heartbeat m.device_id st ∷ [], wait)

unfoldable pub is_desired : World → Manager → Bool
is_desired w m =
    not (is_empty m.tunnel_url)
    && elim (enabled_capability_ids w.capabilities) [ [] ↦ false | i ∷ is ↦ true ]

-- One action, and how long to wait before the next.
unfoldable pub step : World → Manager → Manager × List Action × ℤ
step w m =
    let ids = enabled_capability_ids w.capabilities in
    if not (is_desired w m)
    then (let (n, acts) = deregister m in
        if m.registered then (n, acts, idle_interval) else (m, [], idle_interval))
    else if m.auth_blocked
    then (m, [], idle_interval)
    else if not m.registered || not (text_eq m.registered_url m.tunnel_url)
    then register w m.tunnel_url ids m
    else heartbeat w m.interval m

-- What happens to a manager: `Run` makes a step when it starts, when a kick is there and when its
-- wait is over, and other goroutines call.
pub data Event : Type 0 where
  wakes : (by_kick : Bool) → World → Event
  calls : OutsideCall → Event

unfoldable pub handle : Event → Manager → Manager × List Action
handle (wakes by_kick w) m =
    let (n, acts, wait) = step w (if by_kick then record m { kicked = false } else m) in (n, acts)
handle (calls c) m = (call c m, [])

-- `Run` over what happens until it is told to stop; then it deregisters.
unfoldable pub run_until : List Event → Manager → Manager × List Action
run_until [] m = (m, [])
run_until (e ∷ es) m =
    let (n, acts) = handle e m in let (o, more) = run_until es n in (o, acts ++ more)

unfoldable pub run : List Event → Manager → Manager × List Action
run es m = let (n, acts) = run_until es m in let (o, more) = deregister n in (o, acts ++ more)

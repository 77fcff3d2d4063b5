-- ===== src/Pairing/PinStore.antt =====
-- internal/pairing/pinstore.go: the registry of app identity keys, trusted on first use. A method
-- runs under the store's lock and returns the new store beside its results. `written` is the outcome
-- of fsutil.WriteFileAtomic for the call: `none`, or its error, which leaves the old file in place.
pub mod Invariant
pub mod Effects
pub mod Trust
pub mod Standing
pub mod Reload
pub mod Tests
use onesilo_node.Base.{
  ℕ, Bool, true, false, not, ◌&&◌, ◌||◌, List, [], ◌∷◌, ◌++◌, Option, none, some, Text, text_eq,
  if◌then◌else◌, ◌⊎◌, inl, inr,
}
use onesilo_node.Base.Assoc.{lookup, insert}

-- Times are opaque to the store; `0` is the zero time.
pub record PinnedDevice : Type 0 where
  pub account_id : Text
  pub app_id_pub : Text
  pub verified : Bool
  pub first_seen : ℕ
  pub verified_at : ℕ

-- `file` is the list that paired_devices.json holds, if the file exists.
pub record PinStore : Type 0 where
  pub devices : List (Text × PinnedDevice)
  pub file : Option (List PinnedDevice)

pub data PinStatus : Type 0 where
  first_contact known_verified known_unverified : PinStatus

pub data PinError : Type 0 where
  safety_number_changed no_pending_pairing : PinError
  write_failed : Text → PinError

-- account + "\x00" + app key.
unfoldable pub pin_key : Text → Text → Text
pin_key account app_id_pub = account ++ 0 ∷ app_id_pub

unfoldable pub values : List (Text × PinnedDevice) → List PinnedDevice
values [] = []
values ((_, d) ∷ m) = d ∷ values m

unfoldable pub save_locked : Option Text → PinStore → PinStore × Option PinError
save_locked none s = (record s { file = some (values s.devices) }, none)
save_locked (some e) s = (s, some (write_failed e))

-- The first loop of `Observe`: another key of the account is verified.
unfoldable pub other_verified : Text → Text → List (Text × PinnedDevice) → Bool
other_verified account key [] = false
other_verified account key ((_, d) ∷ m) =
    (text_eq d.account_id account && (not (text_eq d.app_id_pub key) && d.verified))
    || other_verified account key m

-- The second loop of `Observe`: the account's unverified keys go.
unfoldable pub evict : Text → List (Text × PinnedDevice) → List (Text × PinnedDevice)
evict account [] = []
evict account ((k, d) ∷ m) =
    let rest = evict account m in
    if text_eq d.account_id account && not d.verified then rest else (k, d) ∷ rest

unfoldable pub first_pin : Text → Text → ℕ → PinnedDevice
first_pin account key now = record {
  account_id = account;
  app_id_pub = key;
  verified = false;
  first_seen = now;
  verified_at = 0;
}

unfoldable pub observe_new :
    Text → Text → ℕ → Option Text → PinStore → PinStore × PinStatus × Option PinError
unfolding first_pin
observe_new account key now written s =
    if other_verified account key s.devices
    then (s, first_contact, some safety_number_changed)
    else let kept =
        insert (pin_key account key) (first_pin account key now) (evict account s.devices) in
      let (t, e) = save_locked written (record s { devices = kept }) in (t, first_contact, e)

unfoldable pub observe :
    Text → Text → ℕ → Option Text → PinStore → PinStore × PinStatus × Option PinError
observe account key now written s = elim (lookup (pin_key account key) s.devices) [
  | some d ↦ (s, (if d.verified then known_verified else known_unverified), none)
  | none ↦ observe_new account key now written s
]

unfoldable pub verify : Text → Text → ℕ → Option Text → PinStore → PinStore × Option PinError
verify account key now written s =
    let k = pin_key account key in
    elim (lookup k s.devices) [
      | none ↦ (s, some no_pending_pairing)
      | some d ↦ save_locked written (record s {
        devices = insert k (record d { verified = true; verified_at = now }) s.devices;
      })
    ]

unfoldable pub is_verified : Text → Text → PinStore → Bool
is_verified account key s = elim (lookup (pin_key account key) s.devices) [
  | none ↦ false
  | some d ↦ d.verified
]

-- The loop of `LoadPinStore` over the decoded list.
pub load_devices : List PinnedDevice → List (Text × PinnedDevice) → List (Text × PinnedDevice)
load_devices [] m = m
load_devices (d ∷ ds) m = load_devices ds (insert (pin_key d.account_id d.app_id_pub) d m)

-- What reading paired_devices.json gave: the file's contents are decoded by encoding/json.
pub data PinFile : Type 0 where
  missing unreadable corrupt : PinFile
  decoded : List PinnedDevice → PinFile

pub data LoadError : Type 0 where
  read_failed store_corrupt : LoadError

pub load_pin_store : PinFile → PinStore ⊎ LoadError
unfolding load_devices
load_pin_store missing = inl (record { devices = []; file = none })
load_pin_store unreadable = inr read_failed
load_pin_store corrupt = inr store_corrupt
load_pin_store (decoded ds) = inl (record { devices = load_devices ds []; file = some ds })

-- The calls of a store's life, in the order in which the lock lets them in.
pub data PinCall : Type 0 where
  observes verifies : Text → Text → ℕ → Option Text → PinCall

pub step : PinCall → PinStore → PinStore
step (observes account key now written) s = (observe account key now written s).0
step (verifies account key now written) s = (verify account key now written s).0

pub run : List PinCall → PinStore → PinStore
run [] s = s
run (c ∷ cs) s = run cs (step c s)

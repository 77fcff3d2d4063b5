-- ===== src/Pairing/PinStore/Reload.antt =====
-- What a restart finds: the registry that `LoadPinStore` builds from the saved list.
use onesilo_node.Base.{
  ℕ, ◌≡◌, refl, subst, ◌∙◌, ◌⊎◌, inl, inr, true, false, List, [], ◌∷◌, Option, none, some, arith,
  Text, text_eq_iff, text_eq_refl, All, Option-cases,
}
use onesilo_node.Base.Assoc.{lookup, insert, lookup-insert}
use onesilo_node.Pairing.PinStore.Invariant.{IsKeyed, IsSingle, IsValid, IsClean, run-IsValid}
use onesilo_node.Pairing.PinStore.Trust.{not-found}
use onesilo_node.Pairing.PinStore.{
  PinnedDevice, PinStore, PinFile, PinCall, LoadError, write_failed, missing, decoded, observes,
  verifies, pin_key, values, save_locked, observe, observe_new, verify, step, run, is_verified,
  load_devices, load_pin_store,
}

-- The later list hides the earlier.
abbrev or_else : Option PinnedDevice → Option PinnedDevice → Option PinnedDevice
or_else (some d) o = some d
or_else none o = o

head-fresh :
    (j : Text) (d : PinnedDevice) (m : List (Text × PinnedDevice))
    → All IsKeyed ((j, d) ∷ m)
    → IsSingle ((j, d) ∷ m)
    → lookup j m ≡ none
head-fresh j d m h s = elim (Option-cases (lookup j m)) [
  | inl e ↦ e
  | inr (x, e) ↦ absurd (
      not-found d.account_id d.app_id_pub m {d = x} h.0.1 h.1 s.0
        (subst (λ k. lookup k m ≡ some x) h.0.0 e))
]

lookup-load_devices :
    (k : Text) (m acc : List (Text × PinnedDevice))
    → All IsKeyed m
    → IsSingle m
    → lookup k (load_devices (values m) acc) ≡ or_else (lookup k m) (lookup k acc)
unfolding lookup load_devices values
lookup-load_devices k [] acc h s = refl
lookup-load_devices k ((j, d) ∷ m) acc h s = ground (
  arith,
  lookup-load_devices k m (insert (pin_key d.account_id d.app_id_pub) d acc) h.1 s.1,
  lookup-insert (pin_key d.account_id d.app_id_pub) k d acc,
  head-fresh j d m h s,
  text_eq_iff j k,
)

-- A start of the node on the file that the store has left.
abbrev file_of : PinStore → PinFile
file_of s = elim s.file [ none ↦ missing | some ds ↦ decoded ds ]

abbrev store_of : PinStore ⊎ LoadError → PinStore
store_of (inl s) = s
store_of (inr e) = record { devices = []; file = none }

pub restart : PinStore → PinStore
restart s = store_of (load_pin_store (file_of s))

-- The file holds what the store has in memory.
unfoldable pub IsSaved : PinStore → Type 0
IsSaved s = s.file ≡ some (values s.devices)

or_else-none : (o : Option PinnedDevice) → or_else o none ≡ o
or_else-none none = refl
or_else-none (some d) = refl

restart-lookup :
    (s : PinStore) (k : Text)
    → IsValid s
    → IsSaved s
    → lookup k (restart s).devices ≡ lookup k s.devices
unfolding restart load_pin_store IsSaved
restart-lookup s k v e = rw e (
    lookup-load_devices k s.devices [] v.keyed v.single
    ∙ unfold lookup in or_else-none (lookup k s.devices))

-- The writes of a call succeed.
abbrev pub IsWritten : PinCall → Type 0
IsWritten (observes account key now written) = written ≡ none
IsWritten (verifies account key now written) = written ≡ none

step-IsSaved : (c : PinCall) (s : PinStore) → IsWritten c → IsSaved s → IsSaved (step c s)
unfolding step observe observe_new verify save_locked IsSaved
step-IsSaved (observes account key now written) s w h = ground arith
step-IsSaved (verifies account key now written) s w h = ground arith

run-IsSaved : (cs : List PinCall) (s : PinStore) → All IsWritten cs → IsSaved s → IsSaved (run cs s)
unfolding run
run-IsSaved [] s w h = h
run-IsSaved (c ∷ cs) s w h = run-IsSaved cs (step c s) w.1 (step-IsSaved c s w.0 h)

-- While every write succeeds, a restart after any calls finds under every key exactly what the node
-- had in memory: no pin is lost, and no key becomes verified or unverified by it.
pub run_durable :
    (cs : List PinCall) (s : PinStore) (k : Text)
    → All IsClean cs
    → All IsWritten cs
    → IsValid s
    → IsSaved s
    → lookup k (restart (run cs s)).devices ≡ lookup k (run cs s).devices
run_durable cs s k c w v h =
    restart-lookup (run cs s) k (run-IsValid cs s c v) (run-IsSaved cs s w h)

verify_failed :
    (a k e : Text) (now : ℕ) (s : PinStore) (d : PinnedDevice)
    → lookup (pin_key a k) s.devices ≡ some d
    → verify a k now (some e) s ≡ (
      record s {
        devices = insert (pin_key a k) (record d { verified = true; verified_at = now }) s.devices;
      },
      some (write_failed e),
    )
unfolding verify save_locked
verify_failed a k e now s d f = rw (f, verify)

is_verified-found :
    (a k : Text) (s : PinStore) {d : PinnedDevice}
    → lookup (pin_key a k) s.devices ≡ some d
    → is_verified a k s ≡ d.verified
unfolding is_verified
is_verified-found a k s f = rw (f, is_verified)

-- When the write of a confirmation fails, `Verify` reports the error, yet the key counts as verified
-- until the node restarts, and no longer after that.
pub verify_unsaved :
    (a k e : Text) (now : ℕ) (s : PinStore) (d : PinnedDevice)
    → IsValid s
    → IsSaved s
    → lookup (pin_key a k) s.devices ≡ some d
    → d.verified ≡ false
    → let t = (verify a k now (some e) s).0 in
      ((verify a k now (some e) s).1 ≡ some (write_failed e))
      × (is_verified a k t ≡ true)
      × (is_verified a k (restart t) ≡ false)
unfolding restart
verify_unsaved a k e now s d v h f u =
    let m = insert (pin_key a k) (record d { verified = true; verified_at = now }) s.devices in
    let there : lookup (pin_key a k) m ≡ some (record d { verified = true; verified_at = now }) =
      rw (lookup-insert, text_eq_refl) in
    rw (verify_failed a k e now s d f) (
      refl,
      is_verified-found a k (record s { devices = m }) there,
      is_verified-found a k (restart s) {d = d} (restart-lookup s (pin_key a k) v h ∙ f) ∙ u,
    )

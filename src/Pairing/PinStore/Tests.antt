-- ===== src/Pairing/PinStore/Tests.antt =====
-- One registry through a first contact, a confirmation and a changed key.
use onesilo_node.Base.{
  ◌≡◌, ◌≢◌, refl, true, false, List, [], ◌∷◌, ◌++◌, none, some, arith, Text, text, All, text_eq,
  text_ne,
}
use onesilo_node.Base.Assoc.{lookup, insert}
use onesilo_node.Pairing.PinStore.Invariant.{IsNulFree, IsValid, IsClean, run-IsValid}
use onesilo_node.Pairing.PinStore.Trust.{IsShutOut, verified_final}
use onesilo_node.Pairing.PinStore.Reload.{restart, IsSaved, run_durable, verify_unsaved}
use onesilo_node.Pairing.PinStore.{
  PinnedDevice, PinStore, PinCall, write_failed, observes, verifies, pin_key, values, save_locked,
  other_verified, evict, first_pin, observe_new, observe, verify, is_verified, step, run,
}

abbrev pub account : Text
account = text "acct"

abbrev pub key : Text
key = text "QUJD"

abbrev pub other_key : Text
other_key = text "WFla"

abbrev pub pending_pin : PinnedDevice
pending_pin = record {
  account_id = account;
  app_id_pub = key;
  verified = false;
  first_seen = 5;
  verified_at = 0;
}

-- After a first contact that was saved.
abbrev pub pending_store : PinStore
pending_store = record {
  devices = (account ++ 0 ∷ key, pending_pin) ∷ [];
  file = some (pending_pin ∷ []);
}

abbrev pub empty_store : PinStore
empty_store = record { devices = []; file = none }

empty_store-IsValid : IsValid empty_store
empty_store-IsValid = record { keyed = tt; single = tt }

pub pending_store-IsValid : IsValid pending_store
unfolding pin_key
pending_store-IsValid = record { keyed = ((refl, omega arith), tt); single = (tt, tt) }

abbrev calls : List PinCall
calls =
    observes account key 5 none
    ∷ verifies account key 6 none
    ∷ observes account other_key 7 (some (text "disk full"))
    ∷ []

calls-IsClean : All IsClean calls
calls-IsClean = omega arith

pub key-IsNulFree : IsNulFree key
key-IsNulFree = omega arith

pub other_key-IsNulFree : IsNulFree other_key
other_key-IsNulFree = omega arith

pub keys-ne : key ≢ other_key
unfolding text_eq
keys-ne = text_ne key other_key refl

run-IsValid_example : IsValid (run calls empty_store)
run-IsValid_example = run-IsValid calls empty_store calls-IsClean empty_store-IsValid

-- The first contact and its confirmation leave a verified key; the changed key is refused.
calls_verify : is_verified account key (run calls empty_store) ≡ true
unfolding run step observe observe_new verify is_verified lookup insert pin_key save_locked
    other_verified evict first_pin text_eq
calls_verify = refl

verified_final_example :
    (is_verified account key (run calls (run calls empty_store)) ≡ true)
    × IsShutOut account other_key 9 none (run calls (run calls empty_store))
verified_final_example =
    verified_final calls account key other_key 9 none (run calls empty_store) calls-IsClean
      key-IsNulFree other_key-IsNulFree keys-ne run-IsValid_example calls_verify

pending_store-IsSaved : IsSaved pending_store
unfolding IsSaved values
pending_store-IsSaved = refl

abbrev saved_calls : List PinCall
saved_calls = verifies account key 6 none ∷ observes account other_key 7 none ∷ []

run_durable_example :
    lookup (pin_key account key) (restart (run saved_calls pending_store)).devices
    ≡ lookup (pin_key account key) (run saved_calls pending_store).devices
run_durable_example =
    run_durable saved_calls pending_store (pin_key account key) (omega arith) (refl, (refl, tt))
      pending_store-IsValid pending_store-IsSaved

verify_unsaved_example :
    let t = (verify account key 6 (some (text "disk full")) pending_store).0 in
    ((verify account key 6 (some (text "disk full")) pending_store).1
      ≡ some (write_failed (text "disk full")))
    × (is_verified account key t ≡ true)
    × (is_verified account key (restart t) ≡ false)
unfolding lookup pin_key text_eq
verify_unsaved_example =
    verify_unsaved account key (text "disk full") 6 pending_store pending_pin pending_store-IsValid
      pending_store-IsSaved refl refl

-- ===== src/Lan/Server/Bound.antt =====
-- The bound on the connections.
use onesilo_node.Base.{ℕ, zero, suc, ◌≡◌, refl, ◌≤◌, ◌+◌, List, [], ◌∷◌, arith}
use onesilo_node.Lan.Server.{
  Slots, SlotEvent, arrives, refuses, accept_fails, server_stopped, connects, leaves, no_slots,
  arrive, refuse, give_up, connect, release_slot, slot_step, slot_run,
}

-- The counter counts the goroutines; the slots that are given out, and every count that is told, are
-- within the bound, but for counts that include refusals.
pub record IsBounded (s : Slots) : Type 0 where
  pub counted : s.clients ≡ s.refusing + s.upgrading + s.connected
  pub bounded : s.upgrading + s.connected ≤ 64

arrive-IsBounded : (s : Slots) → IsBounded s → IsBounded (arrive s)
unfolding arrive
arrive-IsBounded s x = ground arith

refuse-IsBounded : (k : ℕ) (s : Slots) → k ≡ s.refusing → IsBounded s → IsBounded (refuse k s)
unfolding refuse
refuse-IsBounded zero s e x = x
refuse-IsBounded (suc k) s e x = ground arith

give_up-IsBounded : (k : ℕ) (s : Slots) → k ≡ s.upgrading → IsBounded s → IsBounded (give_up k s)
unfolding give_up
give_up-IsBounded zero s e x = x
give_up-IsBounded (suc k) s e x = ground arith

connect-IsBounded : (k : ℕ) (s : Slots) → k ≡ s.upgrading → IsBounded s → IsBounded (connect k s)
unfolding connect
connect-IsBounded zero s e x = x
connect-IsBounded (suc k) s e x = ground arith

release_slot-IsBounded :
    (k : ℕ) (s : Slots) → k ≡ s.connected → IsBounded s → IsBounded (release_slot k s)
unfolding release_slot
release_slot-IsBounded zero s e x = x
release_slot-IsBounded (suc k) s e x = ground arith

slot_step-IsBounded : (e : SlotEvent) (s : Slots) → IsBounded s → IsBounded (slot_step e s)
unfolding slot_step
slot_step-IsBounded arrives s x = arrive-IsBounded s x
slot_step-IsBounded refuses s x = refuse-IsBounded s.refusing s refl x
slot_step-IsBounded accept_fails s x = give_up-IsBounded s.upgrading s refl x
slot_step-IsBounded server_stopped s x = give_up-IsBounded s.upgrading s refl x
slot_step-IsBounded connects s x = connect-IsBounded s.upgrading s refl x
slot_step-IsBounded leaves s x = release_slot-IsBounded s.connected s refl x

slot_run_bounds : (es : List SlotEvent) (s : Slots) → IsBounded s → IsBounded (slot_run es s)
unfolding slot_run
slot_run_bounds [] s x = x
slot_run_bounds (e ∷ es) s x = slot_run_bounds es (slot_step e s) (slot_step-IsBounded e s x)

-- However the requests come and end, also while others are being refused: never more than 64 hold a
-- slot, and the counter is the number of those that hold one or are being refused. So no slot is lost
-- or released twice.
pub slot_run-IsBounded : (es : List SlotEvent) → IsBounded (slot_run es no_slots)
slot_run-IsBounded es =
    slot_run_bounds es no_slots (record { counted = omega arith; bounded = omega arith })

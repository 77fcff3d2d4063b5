-- ===== src/Lan/Server/Tests.antt =====
-- The 65th client, and a changed model.
use onesilo_node.Base.{◌≡◌, refl, ◌++◌, true, List, [], ◌∷◌, some, text, text_eq, replicate}
use onesilo_node.Base.Int.{pos}
use onesilo_node.Lan.Server.{
  SlotEvent, arrives, refuses, accept_fails, connects, leaves, no_slots, arrive, refuse, give_up,
  connect, release_slot, slot_step, slot_run, Advert, unannounced, bonjour_txt, announce, update,
  refresh, bonjour_switch, reconcile_bonjour,
}
use onesilo_node.Lan.Server.Bound.{IsBounded, slot_run-IsBounded}

abbrev crowd : List SlotEvent
crowd = replicate 65 arrives ++ connects ∷ accept_fails ∷ refuses ∷ leaves ∷ []

crowd_leaves : (slot_run crowd no_slots).clients ≡ 62
unfolding slot_run slot_step arrive refuse give_up connect release_slot
crowd_leaves = refl

slot_run-IsBounded_example : IsBounded (slot_run crowd no_slots)
slot_run-IsBounded_example = slot_run-IsBounded crowd

abbrev advert : Advert
advert = record { enabled = true; port = pos 8765; model = text "a"; device = []; succeeds = true }

model_changes :
    (reconcile_bonjour
      (record advert { model = text "b" })
      (reconcile_bonjour advert unannounced)).announcer
    ≡ some (record { port = pos 8765; txt = bonjour_txt (text "b") [] })
unfolding reconcile_bonjour bonjour_switch announce refresh update text_eq
model_changes = refl

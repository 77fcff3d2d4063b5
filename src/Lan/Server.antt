-- ===== src/Lan/Server.antt =====
-- internal/lanserve/server.go and capability.go: the slots of the WebSocket connections, and the
-- announcement of the LAN server over Bonjour. A goroutine that handles a request is counted where it
-- stands; the network, the upgrade and zeroconf are parameters.
pub mod Bound
pub mod Announced
mod Tests
use onesilo_node.Base.{
  ℕ, zero, suc, ◌+◌, ◌-◌, Bool, true, false, not, ◌&&◌, ◌||◌, List, [], ◌∷◌, ◌++◌, Option, none,
  some, Text, text, text_eq, is_empty, ltb, if◌then◌else◌,
}
use onesilo_node.Base.Int.{ℤ}

abbrev pub max_clients : ℕ
max_clients = 64

-- `clients` is the counter. The others count the goroutines that are about to refuse, those that hold
-- a slot and upgrade, and those whose client is connected; `told` is what onClientCount was given.
pub record Slots : Type 0 where
  pub clients : ℕ
  pub refusing : ℕ
  pub upgrading : ℕ
  pub connected : ℕ
  pub told : List ℕ

abbrev pub no_slots : Slots
no_slots = record { clients = 0; refusing = 0; upgrading = 0; connected = 0; told = [] }

-- What a goroutine of handleWebSocket does next.
pub data SlotEvent : Type 0 where
  arrives refuses accept_fails server_stopped connects leaves : SlotEvent

-- The counter is raised before it is compared.
unfoldable pub arrive : Slots → Slots
arrive s =
    let n = suc s.clients in
    if ltb max_clients n
    then record s { clients = n; refusing = suc s.refusing }
    else record s { clients = n; upgrading = suc s.upgrading }

unfoldable pub refuse : ℕ → Slots → Slots
refuse zero s = s
refuse (suc k) s = record s { clients = s.clients - 1; refusing = k }

-- The upgrade fails, or finds the server stopped: the slot is released without a word.
unfoldable pub give_up : ℕ → Slots → Slots
give_up zero s = s
give_up (suc k) s = record s { clients = s.clients - 1; upgrading = k }

unfoldable pub connect : ℕ → Slots → Slots
connect zero s = s
connect (suc k) s = record s {
  upgrading = k;
  connected = suc s.connected;
  told = s.clients ∷ s.told;
}

unfoldable pub release_slot : ℕ → Slots → Slots
release_slot zero s = s
release_slot (suc k) s =
    let n = s.clients - 1 in record s { clients = n; connected = k; told = n ∷ s.told }

unfoldable pub slot_step : SlotEvent → Slots → Slots
slot_step arrives s = arrive s
slot_step refuses s = refuse s.refusing s
slot_step accept_fails s = give_up s.upgrading s
slot_step server_stopped s = give_up s.upgrading s
slot_step connects s = connect s.upgrading s
slot_step leaves s = release_slot s.connected s

unfoldable pub slot_run : List SlotEvent → Slots → Slots
slot_run [] s = s
slot_run (e ∷ es) s = slot_run es (slot_step e s)

unfoldable pub bonjour_txt : (model device : Text) → List Text
bonjour_txt model device =
    (text "model=" ++ model)
    ∷ text "version=1.0"
    ∷ text "capabilities=chat,stream,e2e"
    ∷ text "protocol=1"
    ∷ (if is_empty device then [] else (text "device_id=" ++ device) ∷ [])

-- A live registration of the service.
pub record Announcement : Type 0 where
  pub port : ℤ
  pub txt : List Text

pub record Bonjour : Type 0 where
  pub announcer : Option Announcement
  pub published : Bool
  pub last_model : Text
  pub last_device_id : Text

abbrev pub unannounced : Bonjour
unannounced = record { announcer = none; published = false; last_model = []; last_device_id = [] }

-- The device id of the last announcement stays.
unfoldable pub unpublish : Bonjour → Bonjour
unpublish b = record b { announcer = none; published = false; last_model = [] }

-- What a reconcile of the announcement finds, and whether zeroconf does what it is asked.
pub record Advert : Type 0 where
  pub enabled : Bool
  pub port : ℤ
  pub model : Text
  pub device : Text
  pub succeeds : Bool

unfoldable pub announce : Advert → Bonjour → Bonjour
announce a b =
    if a.succeeds
    then record {
      announcer = some (record { port = a.port; txt = bonjour_txt a.model a.device });
      published = true;
      last_model = a.model;
      last_device_id = a.device;
    }
    else b

abbrev pub with_txt : List Text → Option Announcement → Option Announcement
with_txt txt none = none
with_txt txt (some x) = some (record x { txt = txt })

unfoldable pub update : Advert → Bonjour → Bonjour
update a b =
    if a.succeeds
    then record b {
      announcer = with_txt (bonjour_txt a.model a.device) b.announcer;
      last_model = a.model;
      last_device_id = a.device;
    }
    else b

unfoldable pub refresh : Advert → Bonjour → Bonjour
refresh a b =
    if not (text_eq a.model b.last_model) || not (text_eq a.device b.last_device_id)
    then update a b
    else b

unfoldable pub bonjour_switch : Advert → (want published : Bool) → Bonjour → Bonjour
bonjour_switch a true false b = announce a b
bonjour_switch a false true b = unpublish b
bonjour_switch a true true b = refresh a b
bonjour_switch a false false b = b

unfoldable pub reconcile_bonjour : Advert → Bonjour → Bonjour
reconcile_bonjour a b = bonjour_switch a a.enabled b.published b

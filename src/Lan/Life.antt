-- ===== src/Lan/Life.antt =====
-- internal/lanserve: the life of a connection. Its frames are handled one after another, and between
-- them the other connections and the operator call the pin store.
pub mod Kept
pub mod Downgrade
pub mod Trusted
pub mod Inference
use onesilo_node.Base.{ℕ, List, [], ◌∷◌, Option, none, some, Text, map}
use onesilo_node.Pairing.PinStore
use onesilo_node.Pairing.PinStore.{PinCall}
use onesilo_node.Pairing.Crypto.{Primitives}
use onesilo_node.Pairing.Assertion.{Platform, AssertionVerifier}
use onesilo_node.Lan.{Pairer, Node}
use onesilo_node.Lan.Envelope.{Aead}
use onesilo_node.Lan.Gate.{verify_pairing}
use onesilo_node.Lan.Router.{Frame, Inner, Action, Surroundings, handle}

pub data Event (Private Time : Type 0) : Type 0 where
  receives : Surroundings Private Time → Frame → Event Private Time
  pins_called : PinCall → Event Private Time
  operator_verifies : (account app_id_pub : Text) → ℕ → Option Text → Event Private Time

unfoldable pub touch_pins :
    {Private : Type 0} → PinCall → Option (Pairer Private) → Option (Pairer Private)
touch_pins c none = none
touch_pins c (some q) = some (record q { pins = PinStore.step c q.pins })

module _ {Private Public Float Time S : Type 0} (p : Primitives Private Public) (c : Aead)
    (parse : Text → Inner Float) (platform : Platform Time) (v : AssertionVerifier S) where
  unfoldable pub step : Event Private Time → Node Private S → Node Private S × List (Action Float)
  step (receives w f) n = let (m, a) = handle p c parse platform v w f n in (m, a ∷ [])
  step (pins_called call) n = (record n { pairer = touch_pins call n.pairer }, [])
  step (operator_verifies account key now written) n =
      (record n { pairer = (verify_pairing account key now written n.pairer).0 }, [])

  -- The connection after the events, and what it did at each.
  unfoldable pub run :
      List (Event Private Time) → Node Private S → Node Private S × List (List (Action Float))
  run [] n = (n, [])
  run (e ∷ es) n = let (m, a) = step e n in let (l, done) = run es m in (l, a ∷ done)

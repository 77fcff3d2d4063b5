-- ===== src/Lan/Router.antt =====
-- internal/lanserve/router.go: the dispatch of a connection's frames. A frame is what encoding/json
-- makes of its bytes. Messages go out as actions, since nothing depends on whether they arrive.

use onesilo_node.Base.{ℕ, suc, Bool, true, false, Option, none, some, Text, if◌then◌else◌}
use onesilo_node.Base.Result.{Result, ok, err, ◌>>=◌, of_option}
use onesilo_node.Pairing.Crypto.{Primitives}
use onesilo_node.Pairing.Assertion.{Platform, AssertionVerifier}
use onesilo_node.Pairing.Responder.{Hello, Confirm, Draw}
use onesilo_node.Lan.{
  RouterError, Reply, UserMessage, Session, Node, handshake_incomplete, pairing_required,
  invalid_base64, decryption_failed, invalid_format, missing_type, not_routed, unknown_type,
  pairing_unverified, pong, error,
}
use onesilo_node.Lan.Envelope.{Aead, EnvelopeError, open_sealed}
use onesilo_node.Lan.Gate.{handle_hello, handle_confirm, inference_allowed}

-- A field of the wrong type makes a pairing frame `none`.
pub data Frame : Type 0 where
  envelope : (content user_id : Text) → Frame
  health_check : (content : Text) → Frame
  pair_hello : Option Hello → Frame
  pair_confirm : Option Confirm → Frame
  other_frame : Frame

-- The decrypted message; a payload that does not decode is the decoder's error.
pub data Inner (Float : Type 0) : Type 0 where
  untyped : Inner Float
  inner_health_check : Result Text Text → Inner Float
  user_message : Result Text (UserMessage Float) → Inner Float
  interrupts : Inner Float
  other_type : Text → Inner Float

-- What a frame makes the connection do. A sealed reply goes out under a key.
pub data Action (Float : Type 0) : Type 0 where
  sends : Reply → Action Float
  sends_sealed : (key user_id : Text) → Reply → Action Float
  generates : (number : ℕ) (key user_id : Text) → UserMessage Float → Action Float
  cancels : Option ℕ → Action Float

-- What a call takes from outside: the responder's draws, the clock, the outcome of a write of the
-- pin store, and the key in pairing.key.
pub record Surroundings (Private Time : Type 0) : Type 0 where
  pub draw : Draw Private Time
  pub now : ℕ
  pub written : Option Text
  pub file_key : Option Text

unfoldable pub select_key :
    {Private : Type 0} → Session Private → Option Text → Result RouterError Text
select_key s file_key = elim s.session_key [
  | some k ↦ ok k
  | none ↦ if s.started then err handshake_incomplete else of_option pairing_required file_key
]

abbrev pub opened : Result EnvelopeError Text → Result RouterError Text
opened (ok s) = ok s
opened (err e) = err decryption_failed

module _ {Private Float S : Type 0} where
  -- A new generation replaces the kept cancel function without calling the old one.
  unfoldable pub set_generation :
      Text → Text → UserMessage Float → Node Private S → Node Private S × Action Float
  set_generation key user_id m n = (
    record n {
      session = record n.session { generation = some n.generations };
      generations = suc n.generations;
    },
    generates n.generations key user_id m,
  )

  unfoldable pub cancel_generation : Node Private S → Node Private S × Action Float
  cancel_generation n =
      (record n { session = record n.session { generation = none } }, cancels n.session.generation)

  unfoldable pub answer_message :
      Text
      → Text
      → Result Text (UserMessage Float)
      → Node Private S × Bool
      → Node Private S × Action Float
  answer_message key user_id m (n, false) = (n, sends_sealed key user_id (error pairing_unverified))
  answer_message key user_id (err e) (n, true) = (n, sends (error (not_routed e)))
  answer_message key user_id (ok m) (n, true) = set_generation key user_id m n

  unfoldable pub route_inner :
      Text → Text → Inner Float → Node Private S → Node Private S × Action Float
  route_inner key user_id untyped n = (n, sends (error missing_type))
  route_inner key user_id (inner_health_check (err e)) n = (n, sends (error (not_routed e)))
  route_inner key user_id (inner_health_check (ok c)) n = (n, sends_sealed key user_id (pong c))
  route_inner key user_id (user_message m) n = answer_message key user_id m (inference_allowed n)
  route_inner key user_id interrupts n = cancel_generation n
  route_inner key user_id (other_type t) n = (n, sends (error (unknown_type t)))

  abbrev pub replied : Node Private S × Reply → Node Private S × Action Float
  replied (n, r) = (n, sends r)

module _ {Private Public : Type 0} (p : Primitives Private Public) (c : Aead) where
  unfoldable pub decrypt : (key content : Text) → Result RouterError Text
  decrypt key content = do
    combined ← of_option invalid_base64 (p.decode content)
    opened (open_sealed c key combined)

module _ {Private Public Float : Type 0} (p : Primitives Private Public) (c : Aead)
    (parse : Text → Inner Float) where
  unfoldable pub decrypted :
      {S : Type 0}
      → Text
      → Text
      → Result RouterError Text
      → Node Private S
      → Node Private S × Action Float
  decrypted key user_id (err e) n = (n, sends (error e))
  decrypted key user_id (ok s) n = route_inner key user_id (parse s) n

  -- `Handle` on an envelope, with the key that was selected.
  unfoldable pub handle_envelope :
      {S : Type 0}
      → Text
      → Text
      → Result RouterError Text
      → Node Private S
      → Node Private S × Action Float
  handle_envelope content user_id (err e) n = (n, sends (error e))
  handle_envelope content user_id (ok key) n = decrypted key user_id (decrypt p c key content) n

  module _ {Time S : Type 0} (platform : Platform Time) (v : AssertionVerifier S) where
    unfoldable pub handle :
        Surroundings Private Time → Frame → Node Private S → Node Private S × Action Float
    handle w (envelope content user_id) n =
        handle_envelope content user_id (select_key n.session w.file_key) n
    handle w (health_check content) n = (n, sends (pong content))
    handle w (pair_hello h) n = replied (handle_hello p platform v w.draw n.pairer h n)
    handle w (pair_confirm e) n =
        replied (handle_confirm p w.now w.written n.pairer e n.session.responder n)
    handle w other_frame n = (n, sends (error invalid_format))

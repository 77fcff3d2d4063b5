-- ===== src/Lan.antt =====
-- internal/lanserve: what the devices on the local network talk to. Here the connection's state and
-- the messages of messages.go; a message's fixed wording is its constructor.
pub mod Server
pub mod Envelope
pub mod Gate
pub mod Router
pub mod Life
pub mod Generation
pub mod Tests
use onesilo_node.Base.{ℕ, Bool, true, false, List, [], Option, none, some, Text, text}
use onesilo_node.Pairing.PinStore.{PinStore, PinError}
use onesilo_node.Pairing.Responder.{Responder, Ack, HandshakeError}

-- Why a pairing frame is answered with pair_error.
pub data PairFailure : Type 0 where
  not_enabled malformed_hello malformed_confirm confirm_before_hello : PairFailure
  handshake_refused : HandshakeError → PairFailure
  pin_refused : PinError → PairFailure

-- The error messages of the router. A decoder's own message is a text.
pub data RouterError : Type 0 where
  handshake_incomplete pairing_required invalid_base64 decryption_failed : RouterError
  invalid_format missing_type pairing_unverified : RouterError
  not_routed unknown_type : Text → RouterError

unfoldable pub code_of : RouterError → Text
code_of handshake_incomplete = text "NO_KEY"
code_of pairing_required = text "NO_KEY"
code_of invalid_base64 = text "INVALID_BASE64"
code_of decryption_failed = text "DECRYPTION_FAILED"
code_of invalid_format = text "INVALID_FORMAT"
code_of pairing_unverified = text "PAIRING_UNVERIFIED"
code_of missing_type = []
code_of (not_routed e) = []
code_of (unknown_type t) = []

pub data Reply : Type 0 where
  pong : (content : Text) → Reply
  acknowledged : Ack → Reply
  pair_error : PairFailure → Reply
  pair_result : (verified : Bool) (sas : Text) → Reply
  error : RouterError → Reply

-- The temperature is a float, which the router only passes on.
pub record UserMessage (Float : Type 0) : Type 0 where
  pub content : Text
  pub temperature : Option Float

pub record PendingPairing : Type 0 where
  pub account_id : Text
  pub app_id_pub : Text
  pub sas : Text

-- `fresh_responder` is what newResponder returns for a connection.
pub record Pairer (Private : Type 0) : Type 0 where
  pub fresh_responder : Responder Private
  pub pins : PinStore
  pub require_verify : Bool
  pub pending : List (Text × PendingPairing)

-- A connection. `generation` is the number of the generation whose cancel function is kept.
pub record Session (Private : Type 0) : Type 0 where
  pub responder : Option (Responder Private)
  pub started : Bool
  pub session_key : Option Text
  pub verified : Bool
  pub account_id : Text
  pub app_id_pub : Text
  pub generation : Option ℕ

unfoldable pub new_session : {Private : Type 0} → Session Private
new_session = record {
  responder = none;
  started = false;
  session_key = none;
  verified = false;
  account_id = [];
  app_id_pub = [];
  generation = none;
}

-- A connection beside what it shares with the others: the pairer, if pairing is enabled, and the
-- state of the assertion verifier's key source. `generations` counts those started.
pub record Node (Private S : Type 0) : Type 0 where
  pub session : Session Private
  pub pairer : Option (Pairer Private)
  pub source : S
  pub generations : ℕ

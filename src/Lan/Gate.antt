-- ===== src/Lan/Gate.antt =====
-- internal/lanserve/pairing.go: the pairing of a connection and the gate before inference. The writes
-- of the log are left out.
pub mod Pending
use onesilo_node.Base.{
  ℕ, Bool, true, false, not, ◌||◌, List, [], ◌∷◌, ◌++◌, Option, none, some, Text, if◌then◌else◌,
}
use onesilo_node.Base.Assoc.{insert, delete, values}
use onesilo_node.Base.Result.{Result, ok, err}
use onesilo_node.Pairing.PinStore.{
  PinStore, PinStatus, PinError, first_contact, known_verified, known_unverified, observe, verify,
  is_verified,
}
use onesilo_node.Pairing.Crypto.{Primitives}
use onesilo_node.Pairing.Assertion.{Platform, AssertionVerifier}
use onesilo_node.Pairing.Responder.{
  Hello, Ack, Confirm, Outcome, HandshakeError, Responder, Draw, hello, confirm,
}
use onesilo_node.Lan.{
  Reply, PendingPairing, Pairer, Session, Node, not_enabled, malformed_hello, malformed_confirm,
  confirm_before_hello, handshake_refused, pin_refused, acknowledged, pair_error, pair_result,
}

-- account + "\x00" + app key.
unfoldable pub pending_key : Text → Text → Text
pending_key account app_id_pub = account ++ 0 ∷ app_id_pub

abbrev pub is_known_verified : PinStatus → Bool
is_known_verified first_contact = false
is_known_verified known_verified = true
is_known_verified known_unverified = false

pub data VerifyError : Type 0 where
  pairing_not_enabled : VerifyError
  not_pinned : PinError → VerifyError

abbrev pub ack_reply : Result HandshakeError Ack → Reply
ack_reply (ok a) = acknowledged a
ack_reply (err e) = pair_error (handshake_refused e)

module _ {Private : Type 0} where
  unfoldable pub record_pending : PendingPairing → Pairer Private → Pairer Private
  record_pending w q = record q {
    pending = insert (pending_key w.account_id w.app_id_pub) w q.pending;
  }

  unfoldable pub clear_pending : (account app_id_pub : Text) → Pairer Private → Pairer Private
  clear_pending account app_id_pub q = record q {
    pending = delete (pending_key account app_id_pub) q.pending;
  }

  unfoldable pub pending_list : Option (Pairer Private) → List PendingPairing
  pending_list none = []
  pending_list (some q) = values q.pending

  -- `Verify` from the pin store's answer on.
  unfoldable pub cleared :
      (account app_id_pub : Text)
      → Pairer Private
      → PinStore × Option PinError
      → Pairer Private × Option VerifyError
  cleared account app_id_pub q (pins, some e) = (record q { pins = pins }, some (not_pinned e))
  cleared account app_id_pub q (pins, none) =
      (clear_pending account app_id_pub (record q { pins = pins }), none)

  unfoldable pub verify_pairing :
      (account app_id_pub : Text)
      → ℕ
      → Option Text
      → Option (Pairer Private)
      → Option (Pairer Private) × Option VerifyError
  verify_pairing account app_id_pub now written none = (none, some pairing_not_enabled)
  verify_pairing account app_id_pub now written (some q) =
      let (r, e) = cleared account app_id_pub q (verify account app_id_pub now written q.pins) in
      (some r, e)

  unfoldable pub responder_of : Pairer Private → Option (Responder Private) → Responder Private
  responder_of q none = q.fresh_responder
  responder_of q (some r) = r

  -- `handleHello` once the responder has answered.
  unfoldable pub greeted :
      {S : Type 0}
      → Node Private S
      → Responder Private × S × Result HandshakeError Ack
      → Node Private S × Reply
  greeted n (r, s, ack) = (
    record n { session = record n.session { responder = some r; started = true }; source = s },
    ack_reply ack,
  )

  -- `handleConfirm` once the key is pinned.
  unfoldable pub activated :
      {S : Type 0} → Bool → Outcome → Pairer Private → Node Private S → Node Private S × Reply
  activated is_trusted o q n =
      let session : Session Private = record n.session {
        session_key = some o.session_key;
        verified = is_trusted;
        account_id = o.account_id;
        app_id_pub = o.app_id_pub;
      } in
      let w : PendingPairing = record {
        account_id = o.account_id;
        app_id_pub = o.app_id_pub;
        sas = o.sas;
      } in
      if is_trusted
      then (record n { session = session; pairer = some q }, pair_result true [])
      else (
        record n { session = session; pairer = some (record_pending w q) },
        pair_result false o.sas,
      )

  unfoldable pub pinned :
      {S : Type 0}
      → Outcome
      → Pairer Private
      → PinStore × PinStatus × Option PinError
      → Node Private S
      → Node Private S × Reply
  pinned o q (pins, status, some e) n =
      (record n { pairer = some (record q { pins = pins }) }, pair_error (pin_refused e))
  pinned o q (pins, status, none) n =
      activated (is_known_verified status || not q.require_verify) o (record q { pins = pins }) n

  -- `handleConfirm` once the responder has answered.
  unfoldable pub confirmed :
      {S : Type 0}
      → ℕ
      → Option Text
      → Pairer Private
      → Responder Private × Result HandshakeError Outcome
      → Node Private S
      → Node Private S × Reply
  confirmed now written q (r, err e) n = (
    record n { session = record n.session { responder = some r } },
    pair_error (handshake_refused e),
  )
  confirmed now written q (r, ok o) n =
      pinned o q (observe o.account_id o.app_id_pub now written q.pins)
        (record n { session = record n.session { responder = some r } })

  -- A pending session asks the pin store again.
  unfoldable pub rechecked :
      {S : Type 0} → Option (Pairer Private) → Node Private S → Node Private S × Bool
  rechecked none n = (n, false)
  rechecked (some q) n =
      if is_verified n.session.account_id n.session.app_id_pub q.pins
      then (record n { session = record n.session { verified = true } }, true)
      else (n, false)

  unfoldable pub inference_allowed : {S : Type 0} → Node Private S → Node Private S × Bool
  inference_allowed n =
      if not n.session.started || n.session.verified then (n, true) else rechecked n.pairer n

module _ {Private Public : Type 0} (p : Primitives Private Public) where
  module _ {Time S : Type 0} (platform : Platform Time) (v : AssertionVerifier S) where
    unfoldable pub handle_hello :
        Draw Private Time
        → Option (Pairer Private)
        → Option Hello
        → Node Private S
        → Node Private S × Reply
    handle_hello d none h n = (n, pair_error not_enabled)
    handle_hello d (some q) none n = (n, pair_error malformed_hello)
    handle_hello d (some q) (some h) n =
        greeted n (hello p platform v d h (responder_of q n.session.responder) n.source)

  unfoldable pub handle_confirm :
      {S : Type 0}
      → ℕ
      → Option Text
      → Option (Pairer Private)
      → Option Confirm
      → Option (Responder Private)
      → Node Private S
      → Node Private S × Reply
  handle_confirm now written none c r n = (n, pair_error not_enabled)
  handle_confirm now written (some q) none r n = (n, pair_error malformed_confirm)
  handle_confirm now written (some q) (some c) none n = (n, pair_error confirm_before_hello)
  handle_confirm now written (some q) (some c) (some r) n =
      confirmed now written q (confirm p c r) n

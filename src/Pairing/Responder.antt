-- ===== src/Pairing/Responder.antt =====
-- internal/pairing/handshake.go: the node's side of the handshake, Hello and then Confirm, for one
-- connection. The keys and nonces that are drawn are arguments.
pub mod Steps
pub mod Order
pub mod Protocol
pub mod Agreement
pub mod Answer
pub mod Tests
use onesilo_node.Base.{
  ℕ, Bool, true, false, not, List, [], ◌∷◌, ◌++◌, Option, none, some, Text, text, is_empty, ◌==◌,
  if◌then◌else◌, length,
}
use onesilo_node.Base.Result.{Result, ok, err, ◌>>=◌, of_option}
use onesilo_node.Pairing.Crypto.{
  Primitives, Transcript, nonce_len, hash, derive_session_key, app_confirm, node_confirm,
  verify_mac, sas,
}
use onesilo_node.Pairing.Assertion.{Platform, AssertionVerifier, Assertion, AssertionError, verify}

abbrev pub frame_ack : Text
frame_ack = text "pair_ack"

pub record Hello : Type 0 where
  pub frame : Text
  pub app_id_pub : Text
  pub app_eph_pub : Text
  pub app_nonce : Text
  pub assertion : Text

pub record Ack : Type 0 where
  pub frame : Text
  pub node_id_pub : Text
  pub node_eph_pub : Text
  pub node_nonce : Text
  pub node_confirm : Text

pub record Confirm : Type 0 where
  pub frame : Text
  pub app_confirm : Text

pub record Outcome : Type 0 where
  pub session_key : Text
  pub sas : Text
  pub app_id_pub : Text
  pub account_id : Text
  pub node_device_id : Text

pub data HandshakeError : Type 0 where
  hello_again bad_nonce_size missing_assertion key_mismatch : HandshakeError
  not_base64 not_public_key : (field : Text) → HandshakeError
  rejected : AssertionError → HandshakeError
  no_randomness ecdh_failed derivation_failed : HandshakeError
  confirm_before_hello confirm_again confirm_invalid : HandshakeError

-- The fields that `Hello` fills in and `Confirm` consumes. The verifier is an argument.
pub record Responder (Private : Type 0) : Type 0 where
  pub identity : Private
  pub eph : Option Private
  pub transcript_hash : Text
  pub session_key : Text
  pub sas : Text
  pub app_id_pub : Text
  pub account_id : Text
  pub node_device_id : Text
  pub hello_done : Bool
  pub done : Bool

unfoldable pub new_responder : {Private : Type 0} → Private → Responder Private
new_responder identity = record {
  identity = identity;
  eph = none;
  transcript_hash = [];
  session_key = [];
  sas = [];
  app_id_pub = [];
  account_id = [];
  node_device_id = [];
  hello_done = false;
  done = false;
}

-- What `Hello` draws, and the time it is.
pub record Draw (Private Time : Type 0) : Type 0 where
  pub eph : Option Private
  pub nonce : Option Text
  pub now : Time

-- The public values of a hello, decoded.
pub record Offer (Public : Type 0) : Type 0 where
  pub app_id_pub : Public
  pub app_eph_pub : Public
  pub app_nonce : Text

-- What both sides derive.
pub record Agreed : Type 0 where
  pub transcript_hash : Text
  pub session_key : Text
  pub sas : Text

module _ {Private Public : Type 0} (p : Primitives Private Public) where
  unfoldable pub decode_b64 : Text → Text → Result HandshakeError Text
  decode_b64 field s = of_option (not_base64 field) (p.decode s)

  unfoldable pub decode_pub : Text → Text → Result HandshakeError Public
  decode_pub field s = do
    b ← decode_b64 field s
    of_option (not_public_key field) (p.parse_public b)

  unfoldable pub check_offer : Text → Offer Public → Result HandshakeError (Offer Public)
  check_offer assertion o =
      if not (length o.app_nonce == nonce_len)
      then err bad_nonce_size
      else if is_empty assertion
      then err missing_assertion
      else ok o

  unfoldable pub read_hello : Hello → Result HandshakeError (Offer Public)
  read_hello h = do
    app_id_pub ← decode_pub (text "app_id_pub") h.app_id_pub
    app_eph_pub ← decode_pub (text "app_eph_pub") h.app_eph_pub
    app_nonce ← decode_b64 (text "app_nonce") h.app_nonce
    check_offer h.assertion
        (record { app_id_pub = app_id_pub; app_eph_pub = app_eph_pub; app_nonce = app_nonce })

  unfoldable pub transcript : Private → Private → Text → Text → Offer Public → Transcript
  transcript identity eph nonce assertion o = record {
    app_id_pub = p.bytes_of o.app_id_pub;
    node_id_pub = p.bytes_of (p.public_of identity);
    app_eph_pub = p.bytes_of o.app_eph_pub;
    node_eph_pub = p.bytes_of (p.public_of eph);
    app_nonce = o.app_nonce;
    node_nonce = nonce;
    assertion_sha = p.sha256 assertion;
  }

  -- From the shared secrets to the key and the short authentication string.
  unfoldable pub derive : (ee ss : Option Text) → Transcript → Result HandshakeError Agreed
  derive ee ss t = do
    ee_shared ← of_option ecdh_failed ee
    ss_shared ← of_option ecdh_failed ss
    key ← of_option derivation_failed (derive_session_key p ee_shared ss_shared (hash p t))
    s ← of_option derivation_failed (sas p key)
    ok (record { transcript_hash = hash p t; session_key = key; sas = s })

  unfoldable pub ack_of : Private → Private → Text → Agreed → Ack
  ack_of identity eph nonce g = record {
    frame = frame_ack;
    node_id_pub = p.encode (p.bytes_of (p.public_of identity));
    node_eph_pub = p.encode (p.bytes_of (p.public_of eph));
    node_nonce = p.encode nonce;
    node_confirm = p.encode (node_confirm p g.session_key g.transcript_hash);
  }

  abbrev pub established : Agreed → Assertion → Responder Private → Responder Private
  established g a r = record r {
    transcript_hash = g.transcript_hash;
    session_key = g.session_key;
    sas = g.sas;
    app_id_pub = a.app_id_pub;
    account_id = a.account_id;
    node_device_id = a.node_device_id;
    hello_done = true;
  }

  -- `Hello` from the derivation on.
  unfoldable pub establish :
      Private
      → Text
      → Assertion
      → Responder Private
      → Result HandshakeError Agreed
      → Responder Private × Result HandshakeError Ack
  establish eph nonce a r (err e) = (record r { eph = some eph }, err e)
  establish eph nonce a r (ok g) =
      (established g a (record r { eph = some eph }), ok (ack_of r.identity eph nonce g))

  -- `Hello` once the assertion is accepted for the key that was presented, with what was drawn. The
  -- ephemeral key is stored as soon as it is there.
  unfoldable pub draw_keys :
      Option Private
      → Option Text
      → Text
      → Assertion
      → Offer Public
      → Responder Private
      → Responder Private × Result HandshakeError Ack
  draw_keys none _ assertion a o r = (record r { eph = none }, err no_randomness)
  draw_keys (some eph) none assertion a o r = (record r { eph = some eph }, err no_randomness)
  draw_keys (some eph) (some nonce) assertion a o r = establish eph nonce a r (
      derive (p.ecdh eph o.app_eph_pub) (p.ecdh r.identity o.app_id_pub)
        (transcript r.identity eph nonce assertion o))

  unfoldable pub judge_hello :
      {Time : Type 0}
      → Draw Private Time
      → Hello
      → Offer Public
      → Result AssertionError Assertion
      → Responder Private
      → Responder Private × Result HandshakeError Ack
  judge_hello d h o (err e) r = (r, err (rejected e))
  judge_hello d h o (ok a) r =
      if not (verify_mac p a.app_id_pub h.app_id_pub)
      then (r, err key_mismatch)
      else draw_keys d.eph d.nonce h.assertion a o r

  module _ {Time S : Type 0} (platform : Platform Time) (v : AssertionVerifier S) where
    -- `Hello` from the decoded offer on.
    unfoldable pub offered :
        Draw Private Time
        → Hello
        → Result HandshakeError (Offer Public)
        → Responder Private
        → S
        → Responder Private × S × Result HandshakeError Ack
    offered d h (err e) r s = (r, s, err e)
    offered d h (ok o) r s =
        let (t, checked) = verify platform v d.now h.assertion s in
        let (q, ack) = judge_hello d h o checked r in (q, t, ack)

    unfoldable pub hello :
        Draw Private Time
        → Hello
        → Responder Private
        → S
        → Responder Private × S × Result HandshakeError Ack
    hello d h r s = if r.hello_done then (r, s, err hello_again) else offered d h (read_hello h) r s

  unfoldable pub outcome_of : Responder Private → Outcome
  outcome_of r = record {
    session_key = r.session_key;
    sas = r.sas;
    app_id_pub = r.app_id_pub;
    account_id = r.account_id;
    node_device_id = r.node_device_id;
  }

  -- `Confirm` from the decoded tag on.
  unfoldable pub conclude :
      Result HandshakeError Text
      → Responder Private
      → Responder Private × Result HandshakeError Outcome
  conclude (err e) r = (r, err e)
  conclude (ok got) r =
      if verify_mac p (app_confirm p r.session_key r.transcript_hash) got
      then (record r { done = true }, ok (outcome_of r))
      else (r, err confirm_invalid)

  unfoldable pub confirm :
      Confirm → Responder Private → Responder Private × Result HandshakeError Outcome
  confirm c r =
      if r.hello_done
      then (if r.done
          then (r, err confirm_again)
          else conclude (decode_b64 (text "app_confirm") c.app_confirm) r)
      else (r, err confirm_before_hello)

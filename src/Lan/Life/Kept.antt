-- ===== src/Lan/Life/Kept.antt =====
-- What every frame leaves true of a connection, if the changes that frames make leave it true.
use onesilo_node.Base.{ℕ, ◌≡◌, refl, Bool, true, false, not, ◌||◌, Option, none, some, Text}
use onesilo_node.Base.Result.{Result, ok, err}
use onesilo_node.Pairing.Crypto.{Primitives}
use onesilo_node.Pairing.Assertion.{Platform, AssertionVerifier}
use onesilo_node.Pairing.Responder.{Hello, Confirm, Responder, Draw, hello, confirm}
use onesilo_node.Pairing.Responder.Steps.{if_cases}
use onesilo_node.Lan.{Node, Pairer, UserMessage}
use onesilo_node.Lan.Envelope.{Aead}
use onesilo_node.Lan.Gate.{
  confirmed, handle_confirm, greeted, handle_hello, rechecked, responder_of, inference_allowed,
}
use onesilo_node.Lan.Router.{
  Frame, Inner, Surroundings, envelope, health_check, pair_hello, pair_confirm, other_frame,
  untyped, inner_health_check, user_message, interrupts, other_type, select_key, set_generation,
  cancel_generation, answer_message, route_inner, decrypted, handle_envelope, handle,
}

-- The changes that a frame makes. A hello and a confirmation reach the connection's own responder.
pub record IsKept {Private Public Time S : Type 0} (p : Primitives Private Public)
    (platform : Platform Time) (v : AssertionVerifier S) (P : Node Private S → Type 0)
    : Type 0 where
  pub greets :
      (d : Draw Private Time) (h : Hello) (q : Pairer Private) (n : Node Private S)
      → n.pairer ≡ some q
      → P n
      → P (greeted n (hello p platform v d h (responder_of q n.session.responder) n.source)).0
  pub confirms :
      (now : ℕ) (written : Option Text) (c : Confirm) (q : Pairer Private) (r : Responder Private)
      (n : Node Private S)
      → n.pairer ≡ some q
      → n.session.responder ≡ some r
      → P n
      → P (confirmed now written q (confirm p c r) n).0
  pub rechecks : (n : Node Private S) → P n → P (rechecked n.pairer n).0
  pub generates :
      (g : Option ℕ) (k : ℕ) (n : Node Private S)
      → P n
      → P (record n { session = record n.session { generation = g }; generations = k })

module _ {Private Public Float Time S : Type 0} (p : Primitives Private Public) (c : Aead)
    (parse : Text → Inner Float) (platform : Platform Time) (v : AssertionVerifier S)
    {P : Node Private S → Type 0} (kept : IsKept p platform v P) where
  inference_allowed-kept : (n : Node Private S) → P n → P (inference_allowed n).0
  unfolding inference_allowed
  inference_allowed-kept n h =
      if_cases (λ (x : Node Private S × Bool). P x.0) (not n.session.started || n.session.verified)
        (λ e. h) (λ e. kept.rechecks n h)

  answer_message-kept :
      (key user_id : Text) (m : Result Text (UserMessage Float)) (x : Node Private S × Bool)
      → P x.0
      → P (answer_message key user_id m x).0
  unfolding answer_message set_generation
  answer_message-kept key user_id m (n, false) h = h
  answer_message-kept key user_id (err e) (n, true) h = h
  answer_message-kept key user_id (ok m) (n, true) h = kept.generates _ _ n h

  route_inner-kept :
      (key user_id : Text) (m : Inner Float) (n : Node Private S)
      → P n
      → P (route_inner key user_id m n).0
  unfolding route_inner cancel_generation
  route_inner-kept key user_id untyped n h = h
  route_inner-kept key user_id (inner_health_check (err e)) n h = h
  route_inner-kept key user_id (inner_health_check (ok t)) n h = h
  route_inner-kept key user_id (user_message m) n h =
      answer_message-kept key user_id m _ (inference_allowed-kept n h)
  route_inner-kept key user_id interrupts n h = kept.generates none n.generations n h
  route_inner-kept key user_id (other_type t) n h = h

  decrypted-kept :
      (key user_id : Text) (s : Result _ Text) (n : Node Private S)
      → P n
      → P (decrypted p c parse key user_id s n).0
  unfolding decrypted
  decrypted-kept key user_id (err e) n h = h
  decrypted-kept key user_id (ok s) n h = route_inner-kept key user_id (parse s) n h

  handle_envelope-kept :
      (content user_id : Text) (key : Result _ Text) (n : Node Private S)
      → P n
      → P (handle_envelope p c parse content user_id key n).0
  unfolding handle_envelope
  handle_envelope-kept content user_id (err e) n h = h
  handle_envelope-kept content user_id (ok key) n h = decrypted-kept key user_id _ n h

  handle_hello-kept :
      (d : Draw Private Time) (q : Option (Pairer Private)) (h : Option Hello) (n : Node Private S)
      → n.pairer ≡ q
      → P n
      → P (handle_hello p platform v d q h n).0
  unfolding handle_hello
  handle_hello-kept d none h n e x = x
  handle_hello-kept d (some q) none n e x = x
  handle_hello-kept d (some q) (some h) n e x = kept.greets d h q n e x

  handle_confirm-kept :
      (now : ℕ) (written : Option Text) (q : Option (Pairer Private)) (c : Option Confirm)
      (r : Option (Responder Private)) (n : Node Private S)
      → n.pairer ≡ q
      → n.session.responder ≡ r
      → P n
      → P (handle_confirm p now written q c r n).0
  unfolding handle_confirm
  handle_confirm-kept now written none c r n e f x = x
  handle_confirm-kept now written (some q) none r n e f x = x
  handle_confirm-kept now written (some q) (some c) none n e f x = x
  handle_confirm-kept now written (some q) (some c) (some r) n e f x =
      kept.confirms now written c q r n e f x

  pub handle-kept :
      (w : Surroundings Private Time) (f : Frame) (n : Node Private S)
      → P n
      → P (handle p c parse platform v w f n).0
  unfolding handle
  handle-kept w (envelope content user_id) n h =
      handle_envelope-kept content user_id (select_key n.session w.file_key) n h
  handle-kept w (health_check content) n h = h
  handle-kept w (pair_hello q) n h = handle_hello-kept w.draw n.pairer q n refl h
  handle-kept w (pair_confirm e) n h =
      handle_confirm-kept w.now w.written n.pairer e n.session.responder n refl refl h
  handle-kept w other_frame n h = h

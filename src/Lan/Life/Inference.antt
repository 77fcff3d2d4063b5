-- ===== src/Lan/Life/Inference.antt =====
-- Inference on a node that requires verification, over the whole life of a connection.
use onesilo_node.Base.{
  ℕ, ◌≡◌, refl, ap, ◌∙◌, ◌⊎◌, inl, inr, Bool, true, false, not, ◌||◌, List, [], ◌∷◌, Option, none,
  some, Text, arith, Option-cases, if◌then◌else◌,
}
use onesilo_node.Base.Result.{Result, ok, err, of_option}
use onesilo_node.Pairing.PinStore
use onesilo_node.Pairing.PinStore.{PinStore, PinError, PinCall, verify, is_verified}
use onesilo_node.Pairing.PinStore.Standing.{step-is_verified, verify-is_verified}
use onesilo_node.Pairing.Crypto.{Primitives}
use onesilo_node.Pairing.Assertion.{Platform, AssertionVerifier}
use onesilo_node.Pairing.Responder.{Responder}
use onesilo_node.Pairing.Responder.Steps.{if_cases}
use onesilo_node.Lan.{
  Session, Node, Pairer, UserMessage, RouterError, handshake_incomplete, pairing_required,
  new_session,
}
use onesilo_node.Lan.Envelope.{Aead}
use onesilo_node.Lan.Gate.{rechecked, inference_allowed, cleared, clear_pending, verify_pairing}
use onesilo_node.Lan.Router.{
  Frame, Inner, Action, Surroundings, envelope, health_check, pair_hello, pair_confirm, other_frame,
  untyped, inner_health_check, user_message, interrupts, other_type, generates, select_key,
  set_generation, cancel_generation, answer_message, route_inner, decrypt, decrypted,
  handle_envelope, handle,
}
use onesilo_node.Lan.Life.{Event, receives, pins_called, operator_verifies, touch_pins, step, run}
use onesilo_node.Lan.Life.Kept.{handle-kept}
use onesilo_node.Lan.Life.Trusted.{IsVouched, IsTrusted, IsTrusted-IsKept, repinned}

module _ {Private : Type 0} where
  cleared-IsVouched :
      (account key : Text) (q : Pairer Private) (s : Session Private)
      (res : PinStore × Option PinError)
      → ((b l : Text) → is_verified b l q.pins ≡ true → is_verified b l res.0 ≡ true)
      → IsVouched q s
      → IsVouched (cleared account key q res).0 s
  unfolding cleared clear_pending
  cleared-IsVouched account key q s (t, some e) more h = repinned q t s more h
  cleared-IsVouched account key q s (t, none) more h =
      let g = repinned q t s more h in record { strict = g.strict; vouched = g.vouched }

-- A generation that starts: the key was selected for this connection, and the gate was open.
record IsOpen {Private S : Type 0} (n m : Node Private S) : Type 0 where
  same_key : m.session.session_key ≡ n.session.session_key
  same_started : m.session.started ≡ n.session.started
  allowed : (n.session.started ≡ false) ⊎ (m.session.verified ≡ true)

either : (a b : Bool) → (not a || b) ≡ true → (a ≡ false) ⊎ (b ≡ true)
either a b h = ground arith

module _ {Private S : Type 0} where
  abbrev Opens : Node Private S → Node Private S × Bool → Type 0
  Opens n x = x.1 ≡ true → IsOpen n x.0

  rechecked-Opens : (o : Option (Pairer Private)) (n : Node Private S) → Opens n (rechecked o n)
  unfolding rechecked
  rechecked-Opens none n = λ e. absurd (cc)
  rechecked-Opens (some q) n =
      if_cases (Opens n) (is_verified n.session.account_id n.session.app_id_pub q.pins)
        (λ v e. record { same_key = refl; same_started = refl; allowed = inr refl })
        (λ v e. absurd (cc))

  inference_allowed-Opens : (n : Node Private S) → Opens n (inference_allowed n)
  unfolding inference_allowed
  inference_allowed-Opens n =
      if_cases (Opens n) (not n.session.started || n.session.verified)
        (λ h e. record {
          same_key = refl;
          same_started = refl;
          allowed = either n.session.started n.session.verified h;
        })
        (λ h. rechecked-Opens n.pairer n)

module _ {Private Float S : Type 0} (i : ℕ) (k u : Text) (m : UserMessage Float) where
  -- If the action is this generation, then under the key that was selected.
  abbrev Generates : Text → Node Private S → Node Private S × Action Float → Type 0
  Generates key n x = x.1 ≡ generates i k u m → (key ≡ k) × IsOpen n x.0

  answer_message-Generates :
      (key user_id : Text) (t : Result Text (UserMessage Float)) (n : Node Private S)
      (x : Node Private S × Bool)
      → Opens n x
      → Generates key n (answer_message key user_id t x)
  unfolding answer_message set_generation
  answer_message-Generates key user_id t n (x, false) o e = absurd (cc)
  answer_message-Generates key user_id (err r) n (x, true) o e = absurd (cc)
  answer_message-Generates key user_id (ok t) n (x, true) o e =
      let h = o refl in
      (cc, record { same_key = h.same_key; same_started = h.same_started; allowed = h.allowed })

  route_inner-Generates :
      (key user_id : Text) (t : Inner Float) (n : Node Private S)
      → Generates key n (route_inner key user_id t n)
  unfolding route_inner cancel_generation
  route_inner-Generates key user_id untyped n e = absurd (cc)
  route_inner-Generates key user_id (inner_health_check (err r)) n e = absurd (cc)
  route_inner-Generates key user_id (inner_health_check (ok t)) n e = absurd (cc)
  route_inner-Generates key user_id (user_message t) n e =
      answer_message-Generates key user_id t n _ (inference_allowed-Opens n) e
  route_inner-Generates key user_id interrupts n e = absurd (cc)
  route_inner-Generates key user_id (other_type t) n e = absurd (cc)

  module _ {Public : Type 0} (p : Primitives Private Public) (c : Aead)
      (parse : Text → Inner Float) where
    decrypted-Generates :
        (key user_id : Text) (t : Result RouterError Text) (n : Node Private S)
        → Generates key n (decrypted p c parse key user_id t n)
    unfolding decrypted
    decrypted-Generates key user_id (err r) n e = absurd (cc)
    decrypted-Generates key user_id (ok t) n e = route_inner-Generates key user_id (parse t) n e

    handle_envelope-Generates :
        (content user_id : Text) (key : Result RouterError Text) (n : Node Private S)
        → (handle_envelope p c parse content user_id key n).1 ≡ generates i k u m
        → (key ≡ ok k) × IsOpen n (handle_envelope p c parse content user_id key n).0
    unfolding handle_envelope
    handle_envelope-Generates content user_id (err r) n e = absurd (cc)
    handle_envelope-Generates content user_id (ok key) n e =
        let (same, o) = decrypted-Generates key user_id (decrypt p c key content) n e in
        (ap ok same, o)

    handle-Generates :
        {Time : Type 0} (platform : Platform Time) (v : AssertionVerifier S)
        (w : Surroundings Private Time) (f : Frame) (n : Node Private S)
        → (handle p c parse platform v w f n).1 ≡ generates i k u m
        → (select_key n.session w.file_key ≡ ok k) × IsOpen n (handle p c parse platform v w f n).0
    unfolding handle
    handle-Generates platform v w (envelope content user_id) n e =
        handle_envelope-Generates content user_id (select_key n.session w.file_key) n e
    handle-Generates platform v w (health_check t) n e = absurd (cc)
    handle-Generates platform v w (pair_hello h) n e = absurd (cc)
    handle-Generates platform v w (pair_confirm t) n e = absurd (cc)
    handle-Generates platform v w other_frame n e = absurd (cc)

-- The two ways to inference: the key in pairing.key, on a connection without a handshake, or the key
-- of a completed handshake with an app that the pin store has as verified.
pub data IsAdmitted {Private S : Type 0} (file_key : Option Text) (k : Text) (n : Node Private S)
    : Type 0 where
  by_file : n.session.started ≡ false → file_key ≡ some k → IsAdmitted file_key k n
  by_handshake :
      (q : Pairer Private) (r : Responder Private)
      → n.pairer ≡ some q
      → n.session.responder ≡ some r
      → r.done ≡ true
      → r.session_key ≡ k
      → is_verified r.account_id r.app_id_pub q.pins ≡ true
      → IsAdmitted file_key k n

unkeyed :
    (b : Bool) (file_key : Option Text) (k : Text)
    → (if b then err handshake_incomplete else of_option pairing_required file_key) ≡ ok k
    → (b ≡ false) × (file_key ≡ some k)
unkeyed true file_key k h = absurd (cc)
unkeyed false none k h = absurd (cc)
unkeyed false (some j) k h = (refl, cc)

select_key-ok :
    {Private : Type 0} (s : Session Private) (file_key : Option Text) (k : Text)
    → select_key s file_key ≡ ok k
    → (s.session_key ≡ some k) ⊎ ((s.started ≡ false) × (file_key ≡ some k))
unfolding select_key
select_key-ok s file_key k = elim (Option-cases s.session_key) [
  | inr (j, e) ↦ rw (e, select_key) (λ h. inl (cc))
  | inl e ↦ rw (e, select_key) (λ h. inr (unkeyed s.started file_key k h))
]

-- A connection that has just been accepted.
abbrev pub new_node : {Private S : Type 0} → Pairer Private → S → Node Private S
new_node q s = record { session = new_session; pairer = some q; source = s; generations = 0 }

new_node-IsTrusted :
    {Private S : Type 0} (q : Pairer Private) (s : S)
    → q.require_verify ≡ true
    → IsTrusted (new_node q s)
unfolding new_session
new_node-IsTrusted q s strict = record {
  pairer = q;
  enabled = refl;
  is_vouched = record { strict = strict; vouched = λ e. absurd (cc) };
  owned = λ k e. absurd (cc);
  begun = λ r e. absurd (cc);
}

module _ {Private Public Float Time S : Type 0} (p : Primitives Private Public) (c : Aead)
    (parse : Text → Inner Float) (platform : Platform Time) (v : AssertionVerifier S) where
  step-IsTrusted :
      (e : Event Private Time) (n : Node Private S)
      → IsTrusted n
      → IsTrusted (step p c parse platform v e n).0
  unfolding step touch_pins verify_pairing
  step-IsTrusted (receives w f) n t =
      handle-kept p c parse platform v (IsTrusted-IsKept p platform v) w f n t
  step-IsTrusted (pins_called call) n t = record {
    pairer = record t.pairer { pins = PinStore.step call t.pairer.pins };
    enabled = ap (touch_pins call) t.enabled;
    is_vouched =
        repinned t.pairer _ n.session (λ b l. step-is_verified call b l t.pairer.pins) t.is_vouched;
    owned = t.owned;
    begun = t.begun;
  }
  step-IsTrusted (operator_verifies account key now written) n t = record {
    pairer = (cleared account key t.pairer (verify account key now written t.pairer.pins)).0;
    enabled = ap (λ q. (verify_pairing account key now written q).0) t.enabled;
    is_vouched =
        cleared-IsVouched account key t.pairer n.session _
          (λ b l. verify-is_verified account key now written b l t.pairer.pins) t.is_vouched;
    owned = t.owned;
    begun = t.begun;
  }

  run-IsTrusted :
      (es : List (Event Private Time)) (n : Node Private S)
      → IsTrusted n
      → IsTrusted (run p c parse platform v es n).0
  unfolding run
  run-IsTrusted [] n t = t
  run-IsTrusted (e ∷ es) n t = run-IsTrusted es _ (step-IsTrusted e n t)

  handle-IsAdmitted :
      (w : Surroundings Private Time) (f : Frame) (n : Node Private S) (i : ℕ) (k u : Text)
      (m : UserMessage Float)
      → IsTrusted n
      → (handle p c parse platform v w f n).1 ≡ generates i k u m
      → IsAdmitted w.file_key k (handle p c parse platform v w f n).0
  handle-IsAdmitted w f n i k u m t e =
      let (selected, o) = handle-Generates i k u m p c parse platform v w f n e in
      let t' = handle-kept p c parse platform v (IsTrusted-IsKept p platform v) w f n t in
      elim (select_key-ok n.session w.file_key k selected) [
        | inr (fresh, of_file) ↦ by_file (o.same_started ∙ fresh) of_file
        | inl own ↦
            let owner = t.owned k own in
            let owner' = t'.owned k (o.same_key ∙ own) in
            elim o.allowed [
              | inl fresh ↦ absurd (cc (fresh, t.begun owner.responder owner.kept))
              | inr verified ↦
                  by_handshake t'.pairer owner'.responder t'.enabled owner'.kept owner'.done
                    owner'.same_key
                    (rw (owner'.same_account, owner'.same_app) (t'.is_vouched.vouched verified))
            ]
      ]

  -- On a node that requires verification, whatever a connection has received and whatever the other
  -- connections and the operator have done to the pin store: if a frame makes the node run inference
  -- for the connection, under a key, then either the connection has never begun a handshake and the
  -- key is the one in pairing.key, or the key is that of the handshake that the connection has
  -- completed, and the pin store has the app of this handshake as verified.
  pub inference-IsAdmitted :
      (es : List (Event Private Time)) (q : Pairer Private) (s : S) (w : Surroundings Private Time)
      (f : Frame) (i : ℕ) (k u : Text) (m : UserMessage Float)
      → q.require_verify ≡ true
      → (handle p c parse platform v w f (run p c parse platform v es (new_node q s)).0).1
        ≡ generates i k u m
      → IsAdmitted w.file_key k
          (handle p c parse platform v w f (run p c parse platform v es (new_node q s)).0).0
  inference-IsAdmitted es q s w f i k u m strict =
      handle-IsAdmitted w f _ i k u m
        (run-IsTrusted es (new_node q s) (new_node-IsTrusted q s strict))

-- ===== src/Lan/Life/Downgrade.antt =====
-- A connection that has begun a handshake has done with the key in the file.
use onesilo_node.Base.{
  ℕ, ◌≡◌, refl, ap, inl, inr, Bool, true, false, List, [], ◌∷◌, Option, none, some, Text, map,
  Option-cases,
}
use onesilo_node.Base.Result.{Result, ok, err}
use onesilo_node.Pairing.PinStore.{PinStore, PinStatus, PinError}
use onesilo_node.Pairing.Crypto.{Primitives}
use onesilo_node.Pairing.Assertion.{Platform, AssertionVerifier}
use onesilo_node.Pairing.Responder.{Hello, Responder, Outcome, HandshakeError, confirm}
use onesilo_node.Pairing.Responder.Steps.{if_cases}
use onesilo_node.Lan.{Session, Node, Pairer}
use onesilo_node.Lan.Envelope.{Aead}
use onesilo_node.Lan.Gate.{activated, pinned, confirmed, greeted, handle_hello, rechecked}
use onesilo_node.Lan.Router.{
  Frame, Inner, Action, Surroundings, envelope, health_check, pair_hello, pair_confirm, other_frame,
  select_key, handle_envelope, handle,
}
use onesilo_node.Lan.Life.{Event, receives, pins_called, operator_verifies, step, run}
use onesilo_node.Lan.Life.Kept.{IsKept, handle-kept}

-- After a hello nothing but the session's own key is selected.
select_key_started :
    {Private : Type 0} (s : Session Private) (f g : Option Text)
    → s.started ≡ true
    → select_key s f ≡ select_key s g
unfolding select_key
select_key_started s f g h = elim (Option-cases s.session_key) [
  | inl e ↦ rw (e, select_key, h) refl
  | inr (k, e) ↦ rw (e, select_key) refl
]

module _ {Private S : Type 0} where
  abbrev IsStarted : Node Private S → Type 0
  IsStarted n = n.session.started ≡ true

  activated-IsStarted :
      (b : Bool) (o : Outcome) (q : Pairer Private) (n : Node Private S)
      → IsStarted n
      → IsStarted (activated b o q n).0
  unfolding activated
  activated-IsStarted true o q n h = h
  activated-IsStarted false o q n h = h

  pinned-IsStarted :
      (o : Outcome) (q : Pairer Private) (res : PinStore × PinStatus × Option PinError)
      (n : Node Private S)
      → IsStarted n
      → IsStarted (pinned o q res n).0
  unfolding pinned
  pinned-IsStarted o q (pins, status, some e) n h = h
  pinned-IsStarted o q (pins, status, none) n h = activated-IsStarted _ o _ n h

  confirmed-IsStarted :
      (now : ℕ) (written : Option Text) (q : Pairer Private)
      (res : Responder Private × Result HandshakeError Outcome) (n : Node Private S)
      → IsStarted n
      → IsStarted (confirmed now written q res n).0
  unfolding confirmed
  confirmed-IsStarted now written q (r, err e) n h = h
  confirmed-IsStarted now written q (r, ok o) n h = pinned-IsStarted o q _ _ h

  rechecked-IsStarted :
      (q : Option (Pairer Private)) (n : Node Private S) → IsStarted n → IsStarted (rechecked q n).0
  unfolding rechecked
  rechecked-IsStarted none n h = h
  rechecked-IsStarted (some q) n h =
      if_cases (λ (x : Node Private S × Bool). IsStarted x.0) _ (λ e. h) (λ e. h)

module _ {Private Public Float Time S : Type 0} (p : Primitives Private Public) (c : Aead)
    (parse : Text → Inner Float) (platform : Platform Time) (v : AssertionVerifier S) where
  IsStarted-IsKept : IsKept p platform v IsStarted
  unfolding greeted
  IsStarted-IsKept = record {
    greets = λ d h q n e x. refl;
    confirms = λ now written c q r n e f x. confirmed-IsStarted now written q (confirm p c r) n x;
    rechecks = λ n x. rechecked-IsStarted n.pairer n x;
    generates = λ g k n x. x;
  }

  -- The same event at a node that has no pairing.key.
  unfoldable pub without_file_key : Event Private Time → Event Private Time
  without_file_key (receives w f) = receives (record w { file_key = none }) f
  without_file_key (pins_called call) = pins_called call
  without_file_key (operator_verifies account key now written) =
      operator_verifies account key now written

  handle_started :
      (w : Surroundings Private Time) (f : Frame) (n : Node Private S)
      → IsStarted n
      → handle p c parse platform v w f n
        ≡ handle p c parse platform v (record w { file_key = none }) f n
  unfolding handle
  handle_started w (envelope content user_id) n h =
      ap (λ k. handle_envelope p c parse content user_id k n)
        (select_key_started n.session w.file_key none h)
  handle_started w (health_check content) n h = refl
  handle_started w (pair_hello q) n h = refl
  handle_started w (pair_confirm e) n h = refl
  handle_started w other_frame n h = refl

  step-IsStarted :
      (e : Event Private Time) (n : Node Private S)
      → IsStarted n
      → IsStarted (step p c parse platform v e n).0
        × (step p c parse platform v e n ≡ step p c parse platform v (without_file_key e) n)
  unfolding step without_file_key
  step-IsStarted (receives w f) n h = (
    handle-kept p c parse platform v IsStarted-IsKept w f n h,
    ap (λ (x : Node Private S × Action Float). (x.0, x.1 ∷ [])) (handle_started w f n h),
  )
  step-IsStarted (pins_called call) n h = (h, refl)
  step-IsStarted (operator_verifies account key now written) n h = (h, refl)

  run_started :
      (es : List (Event Private Time)) (n : Node Private S)
      → IsStarted n
      → run p c parse platform v es n ≡ run p c parse platform v (map without_file_key es) n
  unfolding run
  run_started [] n h = refl
  run_started (e ∷ es) n h =
      let (g, e') = step-IsStarted e n h in
      rw (run_started es (step p c parse platform v e n).0 g, e') refl

  handle_hello-IsStarted :
      (w : Surroundings Private Time) (h : Hello) (o : Option (Pairer Private)) (n : Node Private S)
      {q : Pairer Private}
      → o ≡ some q
      → IsStarted (handle_hello p platform v w.draw o (some h) n).0
  unfolding handle_hello greeted
  handle_hello-IsStarted w h none n e = absurd (cc)
  handle_hello-IsStarted w h (some q) n e = refl

  -- Once a pair_hello that decodes has been handled, on a node with pairing enabled, the key in
  -- pairing.key has no influence: whatever frames and calls follow, the connection ends in the same
  -- state and does the same at each of them as on a node that has no such file.
  pub no_downgrade :
      (w : Surroundings Private Time) (h : Hello) (q : Pairer Private)
      (es : List (Event Private Time)) (n : Node Private S)
      → n.pairer ≡ some q
      → let m = (handle p c parse platform v w (pair_hello (some h)) n).0 in
        run p c parse platform v es m ≡ run p c parse platform v (map without_file_key es) m
  unfolding handle
  no_downgrade w h q es n e = run_started es _ (handle_hello-IsStarted w h n.pairer n e)

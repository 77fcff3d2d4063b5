-- ===== src/Lan/Generation.antt =====
-- internal/lanserve/router.go, generate: one generation, from its first frame to its last. The
-- context's cancellation shows in the stream, which then ends.
pub mod Frames
use onesilo_node.Base.{
  ℕ, suc, ◌||◌, ltb, Bool, true, false, not, List, [], ◌∷◌, ◌++◌, Option, none, some, Text, text,
  is_empty, length, if◌then◌else◌,
}
use onesilo_node.Lan.{UserMessage}

pub data Status : Type 0 where
  processing generating : Status

pub data GenerationError : Type 0 where
  unavailable not_started stream_failed : GenerationError

-- A frame that goes out sealed. A finish reason is always "stop".
pub data Streamed (Float : Type 0) : Type 0 where
  status : Status → Streamed Float
  failed : GenerationError → Streamed Float
  content_delta : (delta : Text) (index : ℕ) → Streamed Float
  metadata : (thinking average : Float) (inputs outputs : ℕ) → Streamed Float
  completed : Streamed Float

-- What the model's stream yields; `broken` is a result with an error.
pub record Delta : Type 0 where
  pub response : Text
  pub prompt_eval_count : ℕ
  pub is_done : Bool

pub data Generated : Type 0 where
  yields : Delta → Generated
  broken : Generated

-- The floats: the temperature of a message that has none, the time that was spent before the first
-- token, and the rate of the tokens, as the clock and the division give them.
pub record Measures (Float : Type 0) : Type 0 where
  pub default_temperature : Float
  pub no_time : Float
  pub thinking_time : Float
  pub tokens_per_second : ℕ → Float

-- What went out, in order, after how many attempts.
pub record Wire (Float : Type 0) : Type 0 where
  pub sent : List (Streamed Float)
  pub attempts : ℕ

-- The end of the loop over the stream: a return, or the values of its variables.
pub data Ending (Float : Type 0) : Type 0 where
  returned : Wire Float → Ending Float
  ended : (index inputs : ℕ) (had_token : Bool) → Wire Float → Ending Float

-- `works` tells of each attempt to send whether the connection took the frame.
module _ {Float : Type 0} (works : ℕ → Bool) where
  unfoldable pub enc : Streamed Float → Wire Float → Wire Float × Bool
  enc f w =
      if works w.attempts
      then (record { sent = w.sent ++ f ∷ []; attempts = suc w.attempts }, true)
      else (record { sent = w.sent; attempts = suc w.attempts }, false)

  unfoldable pub enc_delta : Text → ℕ → Wire Float → ℕ × Wire Float × Bool
  enc_delta [] i w = (i, w, true)
  enc_delta (b ∷ t) i w =
      let (v, took) = enc (content_delta (b ∷ t) i) w in ((if took then suc i else i), v, took)

  unfoldable pub stream_all :
      List Generated → (index inputs : ℕ) (had_token : Bool) → Wire Float → Ending Float
  stream_all [] i inputs had w = ended i inputs had w
  stream_all (broken ∷ l) i inputs had w = returned (enc (failed stream_failed) w).0
  stream_all (yields d ∷ l) i inputs had w =
      let counted = if ltb 0 d.prompt_eval_count then d.prompt_eval_count else inputs in
      let heard = had || not (is_empty d.response) in
      let (j, v, took) = enc_delta d.response i w in
      let rest = stream_all l j counted heard v in
      if took then (if d.is_done then ended j counted heard v else rest) else returned v

  module _ (f : Measures Float) where
    -- The frames after the loop; their errors are ignored.
    unfoldable pub conclude : Ending Float → Wire Float
    conclude (returned w) = w
    conclude (ended i inputs had w) =
        let thinking = if had then f.thinking_time else f.no_time in
        let v = (enc (metadata thinking (f.tokens_per_second i) inputs i) w).0 in
        (enc completed v).0

    unfoldable pub generate_from : Option (List Generated) → Wire Float → Wire Float
    generate_from none w = (enc (failed not_started) w).0
    generate_from (some l) w = conclude (stream_all l 0 0 false w)

    abbrev temperature_of : Option Float → Float
    temperature_of none = f.default_temperature
    temperature_of (some t) = t

    -- The compute backend is `none` if there is none, or it is disabled; its stream is `none` if
    -- StreamGenerate fails.
    unfoldable pub generate_with :
        Option ((prompt : Text) → (temperature : Float) → Option (List Generated))
        → UserMessage Float
        → Wire Float
        → Wire Float
    generate_with none m w = (enc (failed unavailable) w).0
    generate_with (some stream_generate) m w =
        let (v, took) = enc (status generating) w in
        if took
        then generate_from (stream_generate m.content (temperature_of m.temperature)) v
        else v

    unfoldable pub generate :
        Option ((prompt : Text) → (temperature : Float) → Option (List Generated))
        → UserMessage Float
        → List (Streamed Float)
    generate compute m =
        let (v, took) = enc (status processing) (record { sent = []; attempts = 0 }) in
        if took then (generate_with compute m v).sent else v.sent

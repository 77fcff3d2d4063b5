-- ===== src/Lan/Generation/Frames.antt =====
-- The frames of a generation, described without its loop.
use mathlib.Core.List.{append_assoc}
use onesilo_node.Base.{
  ℕ, ◌≡◌, refl, sym, inl, inr, Bool-cases, ap, ◌∙◌, ◌+◌, suc, ltb, ◌||◌, Bool, true, false, List,
  [], ◌∷◌, ◌++◌, Option, none, some, Text, length, arith, if◌then◌else◌,
}
use onesilo_node.Lan.{UserMessage}
use onesilo_node.Lan.Generation.{
  Streamed, Generated, Delta, Measures, Wire, yields, broken, status, failed, content_delta,
  metadata, completed, processing, generating, unavailable, not_started, stream_failed, ended, enc,
  enc_delta, stream_all, conclude, generate_from, temperature_of, generate_with, generate,
}

-- The deltas that count: up to the first that is done, and before the first error.
unfoldable pub counting : List Generated → List Delta
counting [] = []
counting (broken ∷ l) = []
counting (yields d ∷ l) = let rest = counting l in if d.is_done then d ∷ [] else d ∷ rest

-- An error comes before anything is done.
unfoldable pub breaks : List Generated → Bool
breaks [] = false
breaks (broken ∷ l) = true
breaks (yields d ∷ l) = let rest = breaks l in if d.is_done then false else rest

abbrev pub keep_text : Text → List Text → List Text
keep_text [] l = l
keep_text (b ∷ t) l = (b ∷ t) ∷ l

-- The responses that are not empty.
unfoldable pub texts : List Delta → List Text
texts [] = []
texts (d ∷ l) = keep_text d.response (texts l)

-- The last prompt count that is positive.
unfoldable pub last_count : ℕ → List Delta → ℕ
last_count n [] = n
last_count n (d ∷ l) = last_count (if ltb 0 d.prompt_eval_count then d.prompt_eval_count else n) l

abbrev pub some_text : List Text → Bool
some_text [] = false
some_text (t ∷ l) = true

unfoldable pub number_from : {Float : Type 0} → ℕ → List Text → List (Streamed Float)
number_from i [] = []
number_from i (t ∷ l) = content_delta t i ∷ number_from (suc i) l

or_false : (b : Bool) → (b || false) ≡ b
or_false true = refl
or_false false = refl

or_true : (b c : Bool) → (b || true) ≡ ((b || true) || c)
or_true true c = refl
or_true false c = refl

add_zero : (i : ℕ) → i + 0 ≡ i
add_zero i = omega arith

zero_add : (n : ℕ) → n ≡ 0 + n
zero_add n = omega arith

add_one : (i : ℕ) → i + 1 ≡ suc i
add_one i = omega arith

suc_add : (i n : ℕ) → suc i + n ≡ i + suc n
suc_add i n = omega arith

module _ {Float : Type 0} (f : Measures Float) where
  -- The frames from the first delta on.
  unfoldable pub answer : List Generated → List (Streamed Float)
  answer l =
      let ts = texts (counting l) in
      number_from 0 ts
      ++ (if breaks l
          then failed stream_failed ∷ []
          else metadata (if some_text ts then f.thinking_time else f.no_time)
              (f.tokens_per_second (length ts)) (last_count 0 (counting l)) (length ts)
            ∷ completed
            ∷ [])

  unfoldable pub answered : Option (List Generated) → List (Streamed Float)
  answered none = failed not_started ∷ []
  answered (some l) = answer l

  unfoldable pub expected :
      Option ((prompt : Text) → (temperature : Float) → Option (List Generated))
      → UserMessage Float
      → List (Streamed Float)
  expected none m = status processing ∷ failed unavailable ∷ []
  expected (some stream) m =
      status processing
      ∷ status generating
      ∷ answered (stream m.content (temperature_of (λ n. true) f m.temperature))

  closing : (had : Bool) (i inputs : ℕ) (broke : Bool) → List (Streamed Float)
  closing had i inputs true = failed stream_failed ∷ []
  closing had i inputs false =
      metadata (if had then f.thinking_time else f.no_time) (f.tokens_per_second i) inputs i
      ∷ completed
      ∷ []

  -- The loop ends as the description says, from any values of its variables.
  Streams : List Generated → Type 0
  Streams l =
      (i inputs k : ℕ) (had g : Bool) (w : Wire Float)
      → k ≡ i + length (texts (counting l))
      → g ≡ (had || some_text (texts (counting l)))
      → (conclude (λ n. true) f (stream_all (λ n. true) l i inputs had w)).sent
        ≡ w.sent
          ++ (number_from i (texts (counting l))
              ++ closing g k (last_count inputs (counting l)) (breaks l))

  ended-sent :
      (i inputs : ℕ) (had : Bool) (w : Wire Float)
      → (conclude (λ n. true) f (ended i inputs had w)).sent ≡ w.sent ++ closing had i inputs false
  unfolding conclude enc closing
  ended-sent i inputs had w = append_assoc w.sent _ _

  yields-Streams :
      (response : Text) (count : ℕ) (is_done : Bool) (l : List Generated)
      → Streams l
      → Streams (
          yields (record { response = response; prompt_eval_count = count; is_done = is_done }) ∷ l)
  unfolding Streams stream_all enc enc_delta counting breaks texts last_count number_from
  yields-Streams [] count true l h i inputs k had g w e e' =
      rw (e ∙ add_zero i, e' ∙ or_false had, or_false had) (ended-sent i _ had w)
  yields-Streams [] count false l h i inputs k had g w e e' =
      rw (or_false had) (h i _ k had g w e e')
  yields-Streams (b ∷ t) count true l h i inputs k had g w e e' =
      rw (e ∙ add_one i, e') (ended-sent (suc i) _ (had || true) _ ∙ append_assoc w.sent _ _)
  yields-Streams (b ∷ t) count false l h i inputs k had g w e e' =
      h (suc i) _ k (had || true) g _ (e ∙ sym (suc_add i _)) (e' ∙ or_true had _)
      ∙ append_assoc w.sent _ _

  stream_all-Streams : (l : List Generated) → Streams l
  unfolding Streams stream_all conclude enc counting breaks texts last_count number_from closing
  stream_all-Streams [] i inputs k had g w e e' =
      rw (e ∙ add_zero i, e' ∙ or_false had) (ended-sent i inputs had w)
  stream_all-Streams (broken ∷ l) i inputs k had g w e e' = refl
  stream_all-Streams (yields d ∷ l) i inputs k had g w e e' =
      yields-Streams d.response d.prompt_eval_count d.is_done l (stream_all-Streams l) i inputs k
        had g w e e'

  answer-closing :
      (l : List Generated)
      → answer l
        ≡ number_from 0 (texts (counting l))
          ++ closing
              (some_text (texts (counting l)))
              (length (texts (counting l)))
              (last_count 0 (counting l))
              (breaks l)
  unfolding answer closing
  answer-closing l = elim (Bool-cases (breaks l)) [ inl e ↦ rw e refl | inr e ↦ rw e refl ]

  generate_from-answered :
      (o : Option (List Generated)) (w : Wire Float)
      → (generate_from (λ n. true) f o w).sent ≡ w.sent ++ answered o
  unfolding generate_from answered enc Streams
  generate_from-answered none w = refl
  generate_from-answered (some l) w =
      stream_all-Streams l 0 0 _ false _ w (zero_add (length (texts (counting l)))) refl
      ∙ ap (λ x. w.sent ++ x) (sym (answer-closing l))

  -- What the app sees of a generation on a connection that takes every frame: a status; the refusal of
  -- a node without compute; or a second status and then the refusal of a stream that does not start,
  -- or the responses that are not empty, up to the first delta that is done, numbered from 0, and
  -- after them an error, if the stream breaks before it is done, or the metadata, with the number of
  -- the responses and the last positive prompt count, and the completion.
  pub generate-answer :
      (compute : Option ((prompt : Text) → (temperature : Float) → Option (List Generated)))
      (m : UserMessage Float)
      → generate (λ n. true) f compute m ≡ expected compute m
  unfolding generate generate_with enc expected
  generate-answer none m = refl
  generate-answer (some stream) m =
      generate_from-answered (stream m.content (temperature_of (λ n. true) f m.temperature))
        (record { sent = status processing ∷ status generating ∷ []; attempts = 2 })

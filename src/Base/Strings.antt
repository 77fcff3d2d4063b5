-- ===== src/Base/Strings.antt =====
-- Go's strings.Split at one byte, strings.TrimRight of one byte, and what the first one promises.
use Prim.Native.Nat.{ℕ}
use mathlib.Core.Path.{◌≡◌, refl, sym, ap, subst, ◌∙◌}
use mathlib.Core.Logic.{inl, inr}
use mathlib.Core.Bool.{false, ◌&&◌}
use mathlib.Core.List.{List, [], ◌∷◌, ◌++◌}
use native.Mathlib.Omega.{arith}
use onesilo_node.Base.Tests.{if◌then◌else◌, ◌==◌, Bool-cases, ==_iff}
use onesilo_node.Base.Lists.{All}
use onesilo_node.Base.Bytes.{Text, is_empty}

unfoldable pub trim_right : ℕ → Text → Text
trim_right c [] = []
trim_right c (b ∷ s) =
    let rest = trim_right c s in if is_empty rest && (b == c) then [] else b ∷ rest

-- A byte in front of the first piece.
abbrev onto_first : ℕ → List Text → List Text
onto_first b [] = (b ∷ []) ∷ []
onto_first b (p ∷ ps) = (b ∷ p) ∷ ps

unfoldable pub split : ℕ → Text → List Text
split d [] = [] ∷ []
split d (b ∷ s) = let rest = split d s in if b == d then [] ∷ rest else onto_first b rest

-- The pieces with the byte between them.
abbrev pub join : ℕ → List Text → Text
join d [] = []
join d (p ∷ []) = p
join d (p ∷ q ∷ ps) = p ++ d ∷ join d (q ∷ ps)

-- The byte does not occur.
abbrev pub IsFree : ℕ → Text → Type 0
IsFree d = All λ b. (b == d) ≡ false

split_cons : (d : ℕ) (s : Text) → (p : Text) × (ps : List Text) × (split d s ≡ p ∷ ps)
unfolding split
split_cons d [] = ([], [], refl)
split_cons d (b ∷ s) =
    let (p, ps, e) = split_cons d s in
    elim (Bool-cases (b == d)) [
      | inl h ↦ ([], split d s, rw h refl)
      | inr h ↦ (b ∷ p, ps, rw (h, e) refl)
    ]

join-onto_first :
    (d b : ℕ) (p : Text) (ps : List Text) → join d ((b ∷ p) ∷ ps) ≡ b ∷ join d (p ∷ ps)
join-onto_first d b p [] = refl
join-onto_first d b p (q ∷ ps) = refl

-- The pieces give the text back.
pub join-split : (d : ℕ) (s : Text) → join d (split d s) ≡ s
unfolding split
join-split d [] = refl
join-split d (b ∷ s) =
    let (p, ps, e) = split_cons d s in
    let ih : join d (p ∷ ps) ≡ s = ap (join d) (sym e) ∙ join-split d s in
    elim (Bool-cases (b == d)) [
      | inl h ↦ rw (h, e) (cc (ih, (==_iff b d).0 h))
      | inr h ↦ rw (h, e) (join-onto_first d b p ps ∙ ap (◌∷◌ b) ih)
    ]

pub split-IsFree : (d : ℕ) (s : Text) → All (IsFree d) (split d s)
unfolding split
split-IsFree d [] = (tt, tt)
split-IsFree d (b ∷ s) =
    let (p, ps, e) = split_cons d s in
    let ih = split-IsFree d s in
    elim (Bool-cases (b == d)) [
      | inl h ↦ rw h (tt, ih)
      | inr h ↦ let both = subst (All (IsFree d)) e ih in rw (h, e) ((h, both.0), both.1)
    ]

-- Pieces without the byte are found again.
split-append : (d : ℕ) (p s : Text) → IsFree d p → split d (p ++ d ∷ s) ≡ p ∷ split d s
unfolding split
split-append d [] s h = ground arith
split-append d (b ∷ p) s h = rw (h.0, split-append d p s h.1) refl

split-single : (d : ℕ) (p : Text) → IsFree d p → split d p ≡ p ∷ []
unfolding split
split-single d [] h = refl
split-single d (b ∷ p) h = rw (h.0, split-single d p h.1) refl

pub split-join :
    (d : ℕ) (p : Text) (ps : List Text)
    → All (IsFree d) (p ∷ ps)
    → split d (join d (p ∷ ps)) ≡ p ∷ ps
split-join d p [] h = split-single d p h.0
split-join d p (q ∷ ps) h =
    split-append d p (join d (q ∷ ps)) h.0 ∙ ap (◌∷◌ p) (split-join d q ps h.1)

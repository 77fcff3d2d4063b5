-- ===== src/Base/Assoc.antt =====
-- Go's `map[string]V` as an association list. The first entry of a key counts; Go leaves the order
-- of a range over a map open, and no statement about a map depends on it.
use mathlib.Core.Path.{◌≡◌, refl, subst, ap₂}
use mathlib.Core.List.{List, [], ◌∷◌}
use mathlib.Core.Option.{Option, none, some}
use native.Mathlib.Omega.{arith}
use mathlib.Core.Logic.{inl, inr}
use onesilo_node.Base.Tests.{if◌then◌else◌, Bool-cases}
use onesilo_node.Base.Lists.{All}
use onesilo_node.Base.Bytes.{Text, text_eq, text_eq_iff, text_eq_refl}

module _ {ℓ} {V : Type ℓ} where
  unfoldable pub lookup : Text → List (Text × V) → Option V
  lookup k [] = none
  lookup k ((j, v) ∷ m) = if text_eq j k then some v else lookup k m

  unfoldable pub insert : Text → V → List (Text × V) → List (Text × V)
  insert k v [] = (k, v) ∷ []
  insert k v ((j, w) ∷ m) = if text_eq j k then (k, v) ∷ m else (j, w) ∷ insert k v m

  unfoldable pub delete : Text → List (Text × V) → List (Text × V)
  delete k [] = []
  delete k ((j, w) ∷ m) = let rest = delete k m in if text_eq j k then rest else (j, w) ∷ rest

  pub lookup-delete :
      (k j : Text) (m : List (Text × V))
      → lookup j (delete k m) ≡ (if text_eq k j then none else lookup j m)
  unfolding lookup delete
  lookup-delete k j [] = ground arith
  lookup-delete k j ((i, w) ∷ m) = ground (
    arith,
    text_eq_iff k j,
    text_eq_iff i k,
    text_eq_iff i j,
    text_eq_refl k,
    lookup-delete k j m,
  )

  unfoldable pub values : List (Text × V) → List V
  values [] = []
  values ((k, v) ∷ m) = v ∷ values m

  pub lookup-insert :
      (k j : Text) (v : V) (m : List (Text × V))
      → lookup j (insert k v m) ≡ (if text_eq k j then some v else lookup j m)
  unfolding lookup insert
  lookup-insert k j v [] = refl
  lookup-insert k j v ((i, w) ∷ m) = ground (
    arith,
    text_eq_iff k j,
    text_eq_iff i k,
    text_eq_iff i j,
    text_eq_refl k,
    lookup-insert k j v m,
  )

  pub All-insert {κ} :
      (P : Text × V → Type κ) (k : Text) (v : V) (m : List (Text × V))
      → P (k, v)
      → All P m
      → All P (insert k v m)
  unfolding insert
  All-insert P k v [] p h = (p, tt)
  All-insert P k v ((j, w) ∷ m) p h = elim (Bool-cases (text_eq j k)) [
    | inl e ↦ rw (e, insert) (p, h.1)
    | inr e ↦ rw (e, insert) (h.0, All-insert P k v m p h.1)
  ]

  -- What is found stands in the list, under the key that was asked for.
  pub All-lookup {κ} :
      (P : Text × V → Type κ) (k : Text) (m : List (Text × V)) {v : V}
      → All P m
      → lookup k m ≡ some v
      → P (k, v)
  unfolding lookup
  All-lookup P k [] h e = absurd (cc)
  All-lookup P k ((j, w) ∷ m) {v} h e = elim (Bool-cases (text_eq j k)) [
    | inl t ↦
        let p : j ≡ k = (text_eq_iff j k).0 t in
        let q : w ≡ v = ground arith in subst P (ap₂ (λ a b. (a, b)) p q) h.0
    | inr t ↦ All-lookup P k m h.1 (ground arith)
  ]

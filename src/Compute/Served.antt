-- ===== src/Compute/Served.antt =====
-- The model that is served.
use onesilo_node.Base.{
  ◌≡◌, refl, sym, subst, true, List, [], ◌∷◌, Text, text_eq_refl, Bool-cases, inl, inr,
}
use onesilo_node.Base.Result.{Result, ok}
use onesilo_node.Compute.{ComputeError, has_model, pick_model, resolve_model}

model-injective : {a b : Text} → ◌≡◌ {A = Result ComputeError Text} (ok a) (ok b) → a ≡ b
model-injective e = cc

pick_model-installed :
    (preferred : Text) (models : List Text) (m : Text)
    → pick_model preferred models ≡ ok m
    → (has_model m models ≡ true) × (has_model preferred models ≡ true → m ≡ preferred)
unfolding pick_model
pick_model-installed preferred [] m = λ h. absurd (cc)
pick_model-installed preferred (x ∷ xs) m = elim (Bool-cases (has_model preferred (x ∷ xs))) [
  | inl e ↦
      rw e (λ h.
        let q = model-injective h in (subst (λ m. has_model m (x ∷ xs) ≡ true) q e, λ _. sym q))
  | inr e ↦ rw e (λ h.
      let q = model-injective h in
      (
        subst (λ m. has_model m (x ∷ xs) ≡ true) q (unfold has_model in rw (text_eq_refl x) refl),
        λ g. absurd (cc),
      ))
]

-- The model that is resolved is installed, and it is the preferred one wherever that is.
pub resolve_model-installed :
    (preferred : Text) (models : List Text) (m : Text)
    → resolve_model preferred (ok models) ≡ ok m
    → (has_model m models ≡ true) × (has_model preferred models ≡ true → m ≡ preferred)
unfolding resolve_model
resolve_model-installed preferred models m h = pick_model-installed preferred models m h

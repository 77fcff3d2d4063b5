-- ===== src/Pairing/PinStore/Effects.antt =====
-- What one `Observe` changes.
use onesilo_node.Base.{
  ℕ, ◌≡◌, ◌≢◌, refl, sym, ◌∙◌, inl, inr, false, List, [], ◌∷◌, Option, none, some, arith, Text,
  text_eq, text_eq_iff, text_eq_refl, All, Option-cases,
}
use onesilo_node.Base.Assoc.{lookup, insert, lookup-insert}
use onesilo_node.Pairing.PinStore.Invariant.{
  IsNulFree, IsKeyed, IsValid, evict-Lacks, evict-All, pin_key-injective,
}
use onesilo_node.Pairing.PinStore.Trust.{not-found, save_locked-devices}
use onesilo_node.Pairing.PinStore.{
  PinnedDevice, PinStore, first_contact, pin_key, other_verified, evict, first_pin, save_locked,
  observe_new, observe,
}

-- Nothing of the account is verified.
abbrev pub HasNoVerified : Text → List (Text × PinnedDevice) → Type 0
HasNoVerified a = All (λ e. e.1.account_id ≡ a → e.1.verified ≡ false)

not-other_verified :
    (a k : Text) (m : List (Text × PinnedDevice)) → HasNoVerified a m → other_verified a k m ≡ false
unfolding other_verified
not-other_verified a k [] h = refl
not-other_verified a k ((j, d) ∷ m) h =
    ground (arith, not-other_verified a k m h.1, text_eq_iff d.account_id a, h.0)

lookup-evict_ne :
    (a b l : Text) (m : List (Text × PinnedDevice))
    → IsNulFree l
    → a ≢ b
    → All IsKeyed m
    → lookup (pin_key b l) (evict a m) ≡ lookup (pin_key b l) m
unfolding lookup evict
lookup-evict_ne a b l [] free ne h = refl
lookup-evict_ne a b l ((j, d) ∷ m) free ne h = ground (
  arith,
  lookup-evict_ne a b l m free ne h.1,
  text_eq_iff d.account_id a,
  text_eq_iff j (pin_key b l),
  pin_key-injective b d.account_id l d.app_id_pub free h.0.1,
)

-- The store after a first contact.
pub record IsFirstContact (a k : Text) (now : ℕ) (s t : PinStore) : Type 0 where
  pub pending : lookup (pin_key a k) t.devices ≡ some (first_pin a k now)
  pub alone : (l : Text) → IsNulFree l → l ≢ k → lookup (pin_key a l) t.devices ≡ none
  pub others :
      (b l : Text)
      → IsNulFree l
      → a ≢ b
      → lookup (pin_key b l) t.devices ≡ lookup (pin_key b l) s.devices

module _ (a k : Text) (now : ℕ) (s : PinStore) where
  kept : List (Text × PinnedDevice)
  kept = insert (pin_key a k) (first_pin a k now) (evict a s.devices)

  lookup-kept_ne :
      (b l : Text)
      → IsNulFree k
      → IsNulFree l
      → ¬ ((a ≡ b) × (k ≡ l))
      → lookup (pin_key b l) kept ≡ lookup (pin_key b l) (evict a s.devices)
  unfolding kept
  lookup-kept_ne b l fk fl ne =
      let apart : text_eq (pin_key a k) (pin_key b l) ≡ false =
        ground
          (arith, text_eq_iff (pin_key a k) (pin_key b l), pin_key-injective a b k l fk fl, ne) in
      rw (lookup-insert, apart)

  kept-IsFirstContact :
      IsNulFree k
      → IsValid s
      → lookup (pin_key a k) s.devices ≡ none
      → HasNoVerified a s.devices
      → (t : PinStore) → t.devices ≡ kept
      → IsFirstContact a k now s t
  unfolding kept
  kept-IsFirstContact free v e h t eq = record {
    pending = rw (eq, lookup-insert, text_eq_refl);
    alone = λ l fl ne. rw eq (lookup-kept_ne a l free fl (λ p. ne (sym p.1)) ∙ gone l fl);
    others = λ b l fl ne.
        rw eq (
          lookup-kept_ne b l free fl (λ p. ne p.0) ∙ lookup-evict_ne a b l s.devices fl ne v.keyed);
  }
    where
      gone : (l : Text) → IsNulFree l → lookup (pin_key a l) (evict a s.devices) ≡ none
      gone l fl = elim (Option-cases (lookup (pin_key a l) (evict a s.devices))) [
        | inl f ↦ f
        | inr (d, f) ↦ absurd (
            not-found a l (evict a s.devices) {d = d} fl (evict-All IsKeyed a s.devices v.keyed)
              (evict-Lacks a k s.devices v.keyed e (not-other_verified a k s.devices h)) f)
      ]

  -- A key that is new for an account without verified keys: it is reported as a first contact and
  -- stands in the registry unverified, the account's earlier pending keys are gone, and the other
  -- accounts' keys are as before, whether or not the write to disk succeeds.
  pub observe-IsFirstContact :
      (written : Option Text)
      → IsNulFree k
      → IsValid s
      → lookup (pin_key a k) s.devices ≡ none
      → HasNoVerified a s.devices
      → ((observe a k now written s).1 ≡ first_contact)
        × IsFirstContact a k now s (observe a k now written s).0
  unfolding observe observe_new
  observe-IsFirstContact written free v e h =
      rw (e, observe)
        (rw (not-other_verified a k s.devices h, observe_new)
          (refl, kept-IsFirstContact free v e h _ (unfold kept in save_locked-devices written _)))

  -- Such a contact fails only with the write.
  pub observe-saved :
      lookup (pin_key a k) s.devices ≡ none
      → HasNoVerified a s.devices
      → (observe a k now none s).2 ≡ none
  unfolding observe observe_new save_locked
  observe-saved e h = rw (e, observe) (rw (not-other_verified a k s.devices h, observe_new) refl)

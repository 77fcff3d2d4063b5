-- ===== src/Pairing/PinStore/Standing.antt =====
-- What a caller of the store may rely on: a key that is verified stays so.
use onesilo_node.Base.{
  ℕ, ◌≡◌, refl, inl, inr, true, Option, none, some, arith, Text, Bool-cases, Option-cases,
}
use onesilo_node.Base.Assoc.{lookup}
use onesilo_node.Pairing.PinStore.Trust.{step-Holds, Holds-iff}
use onesilo_node.Pairing.PinStore.{
  PinStore, PinCall, observes, verifies, known_verified, first_contact, pin_key, observe,
  no_pending_pairing, observe_new, other_verified, verify, is_verified, step,
}

pub step-is_verified :
    (c : PinCall) (b l : Text) (s : PinStore)
    → is_verified b l s ≡ true
    → is_verified b l (step c s) ≡ true
step-is_verified c b l s h =
    (Holds-iff b l (step c s)).1 (step-Holds c b l s ((Holds-iff b l s).0 h))

pub observe-is_verified :
    (a k : Text) (now : ℕ) (written : Option Text) (b l : Text) (s : PinStore)
    → is_verified b l s ≡ true
    → is_verified b l (observe a k now written s).0 ≡ true
unfolding step
observe-is_verified a k now written b l s h = step-is_verified (observes a k now written) b l s h

pub verify-is_verified :
    (a k : Text) (now : ℕ) (written : Option Text) (b l : Text) (s : PinStore)
    → is_verified b l s ≡ true
    → is_verified b l (verify a k now written s).0 ≡ true
unfolding step
verify-is_verified a k now written b l s h = step-is_verified (verifies a k now written) b l s h

observe_new-status :
    (a k : Text) (now : ℕ) (written : Option Text) (s : PinStore)
    → (observe_new a k now written s).1 ≡ first_contact
unfolding observe_new
observe_new-status a k now written s = elim (Bool-cases (other_verified a k s.devices)) [
  | inl e ↦ rw (e, observe_new) refl
  | inr e ↦ rw (e, observe_new) refl
]

first≢known : ¬ (first_contact ≡ known_verified)
first≢known e = absurd (cc)

-- Only a key that is verified is reported as such.
pub observe-known_verified :
    (a k : Text) (now : ℕ) (written : Option Text) (s : PinStore)
    → (observe a k now written s).1 ≡ known_verified
    → is_verified a k (observe a k now written s).0 ≡ true
unfolding observe is_verified
observe-known_verified a k now written s = elim (Option-cases (lookup (pin_key a k) s.devices)) [
  | inr (d, e) ↦
      rw (e, observe)
        (λ h.
          rw (e, is_verified)
            (elim (Bool-cases d.verified) [ inl t ↦ t | inr f ↦ absurd (ground (arith, h)) ]))
  | inl e ↦ rw (e, observe) (λ h. absurd (cc (h, observe_new-status a k now written s)))
]

-- There is nothing to confirm under a key that is not pinned.
pub verify-unpinned :
    (a k : Text) (now : ℕ) (written : Option Text) (s : PinStore)
    → lookup (pin_key a k) s.devices ≡ none
    → verify a k now written s ≡ (s, some no_pending_pairing)
unfolding verify
verify-unpinned a k now written s e = rw (e, verify) refl

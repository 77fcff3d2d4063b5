-- ===== src/Pairing/PinStore/Trust.antt =====
-- What a verified key is worth: it stays, and it keeps every other key of its account out.
use onesilo_node.Base.{
  ℕ, ◌≡◌, ◌≢◌, refl, sym, subst, ◌∙◌, ◌↔◌, inl, inr, true, false, List, [], ◌∷◌, Option, none, some,
  arith, Text, text_eq, text_eq_iff, All, Bool-cases, Option-cases,
}
use onesilo_node.Base.Assoc.{lookup, lookup-insert, All-lookup}
use onesilo_node.Pairing.PinStore.Invariant.{
  IsNulFree, IsKeyed, IsSingle, Lacks, IsValid, IsClean, run-IsValid, pin_key-injective,
}
use onesilo_node.Pairing.PinStore.{
  PinnedDevice, PinStore, PinCall, observes, verifies, first_contact, safety_number_changed,
  no_pending_pairing, pin_key, save_locked, other_verified, evict, observe_new, observe, verify,
  is_verified, step, run,
}

abbrev pub Holds : Text → Text → List (Text × PinnedDevice) → Type 0
Holds account key m =
    (d : PinnedDevice) × (lookup (pin_key account key) m ≡ some d) × (d.verified ≡ true)

-- An entry found under a pin's key is that pin's.
pub found_owner :
    (a k : Text) (m : List (Text × PinnedDevice)) {d : PinnedDevice}
    → IsNulFree k
    → All IsKeyed m
    → lookup (pin_key a k) m ≡ some d
    → (a ≡ d.account_id) × (k ≡ d.app_id_pub)
found_owner a k m {d} free h e =
    let (at, clean) = All-lookup IsKeyed (pin_key a k) m h e in
    pin_key-injective a d.account_id k d.app_id_pub free clean at

pub not-found :
    (a k : Text) (m : List (Text × PinnedDevice)) {d : PinnedDevice}
    → IsNulFree k
    → All IsKeyed m
    → Lacks a m
    → ¬ (lookup (pin_key a k) m ≡ some d)
not-found a k m free h l e =
    All-lookup (λ e. e.1.account_id ≢ a) (pin_key a k) m l e (sym (found_owner a k m free h e).0)

-- Two keys of one account are never both there.
lookup-single :
    (a k l : Text) (m : List (Text × PinnedDevice)) {d e : PinnedDevice}
    → IsNulFree k
    → IsNulFree l
    → All IsKeyed m
    → IsSingle m
    → lookup (pin_key a k) m ≡ some d
    → lookup (pin_key a l) m ≡ some e
    → k ≡ l
unfolding lookup
lookup-single a k l [] fk fl h s p q = absurd (cc)
lookup-single a k l ((j, w) ∷ m) {d} {e} fk fl h s p q =
    elim (Bool-cases (text_eq j (pin_key a k))) [
      | inl x ↦ elim (Bool-cases (text_eq j (pin_key a l))) [
        | inl y ↦
            let ej = (text_eq_iff j (pin_key a k)).0 x in
            let el = (text_eq_iff j (pin_key a l)).0 y in
            (pin_key-injective a a k l fk fl (sym ej ∙ el)).1
        | inr y ↦
            let own = found_owner a k ((j, w) ∷ m) {d = w} fk h (unfold lookup in rw x) in
            absurd (
              not-found a l m {d = e} fl h.1 (subst (λ b. Lacks b m) (sym own.0) s.0)
                (ground arith))
      ]
      | inr x ↦ elim (Bool-cases (text_eq j (pin_key a l))) [
        | inl y ↦
            let own = found_owner a l ((j, w) ∷ m) {d = w} fl h (unfold lookup in rw y) in
            absurd (
              not-found a k m {d = d} fk h.1 (subst (λ b. Lacks b m) (sym own.0) s.0)
                (ground arith))
        | inr y ↦ lookup-single a k l m {d = d} {e = e} fk fl h.1 s.1 (ground arith) (ground arith)
      ]
    ]

lookup-evict :
    (a k : Text) (m : List (Text × PinnedDevice)) {d : PinnedDevice}
    → lookup k m ≡ some d
    → d.verified ≡ true
    → lookup k (evict a m) ≡ some d
unfolding lookup evict
lookup-evict a k [] e v = e
lookup-evict a k ((j, w) ∷ m) {d} e v = ground (arith, lookup-evict a k m {d = d})

other_verified-found :
    (a k l : Text) (m : List (Text × PinnedDevice)) {d : PinnedDevice}
    → lookup (pin_key a k) m ≡ some d
    → d.verified ≡ true
    → d.account_id ≡ a
    → d.app_id_pub ≢ l
    → other_verified a l m ≡ true
unfolding lookup other_verified
other_verified-found a k l [] e v p q = absurd (cc)
other_verified-found a k l ((j, w) ∷ m) {d} e v p q = ground (
  arith,
  other_verified-found a k l m {d = d},
  text_eq_iff w.account_id a,
  text_eq_iff w.app_id_pub l,
)

-- Whether or not the write succeeds, the registry in memory keeps the change.
pub save_locked-devices :
    (written : Option Text) (s : PinStore) → (save_locked written s).0.devices ≡ s.devices
unfolding save_locked
save_locked-devices none s = refl
save_locked-devices (some e) s = refl

observe-Holds :
    (a k b l : Text) (now : ℕ) (written : Option Text) (s : PinStore)
    → Holds b l s.devices
    → Holds b l (observe a k now written s).0.devices
unfolding observe observe_new
observe-Holds a k b l now written s (d, e, v) =
    elim (Option-cases (lookup (pin_key a k) s.devices)) [
      | inr (x, f) ↦ rw (f, observe) (d, e, v)
      | inl f ↦ elim (Bool-cases (other_verified a k s.devices)) [
        | inl o ↦ rw (f, observe, o, observe_new) (d, e, v)
        | inr o ↦
            let apart : text_eq (pin_key a k) (pin_key b l) ≡ false =
              ground (arith, text_eq_iff (pin_key a k) (pin_key b l)) in
            (
              d,
              rw (f, observe, o, observe_new)
                  (rw (save_locked-devices written _, lookup-insert, apart)
                    (lookup-evict a _ s.devices e v)),
              v,
            )
      ]
    ]

verify-Holds :
    (a k b l : Text) (now : ℕ) (written : Option Text) (s : PinStore)
    → Holds b l s.devices
    → Holds b l (verify a k now written s).0.devices
unfolding verify
verify-Holds a k b l now written s (d, e, v) =
    elim (Option-cases (lookup (pin_key a k) s.devices)) [
      | inl f ↦ rw (f, verify) (d, e, v)
      | inr (x, f) ↦ elim (Bool-cases (text_eq (pin_key a k) (pin_key b l))) [
        | inl y ↦ (
          record x { verified = true; verified_at = now },
          rw (f, verify) (rw (save_locked-devices written _, lookup-insert, y)),
          refl,
        )
        | inr y ↦ (d, rw (f, verify) (rw (save_locked-devices written _, lookup-insert, y) e), v)
      ]
    ]

pub step-Holds :
    (c : PinCall) (b l : Text) (s : PinStore) → Holds b l s.devices → Holds b l (step c s).devices
unfolding step
step-Holds (observes a k now written) b l s h = observe-Holds a k b l now written s h
step-Holds (verifies a k now written) b l s h = verify-Holds a k b l now written s h

run-Holds :
    (cs : List PinCall) (b l : Text) (s : PinStore)
    → Holds b l s.devices
    → Holds b l (run cs s).devices
unfolding run
run-Holds [] b l s h = h
run-Holds (c ∷ cs) b l s h = run-Holds cs b l (step c s) (step-Holds c b l s h)

pub Holds-iff : (b l : Text) (s : PinStore) → (is_verified b l s ≡ true) ↔ Holds b l s.devices
unfolding is_verified
Holds-iff b l s = elim (Option-cases (lookup (pin_key b l) s.devices)) [
  | inl e ↦ rw (e, is_verified) ((λ h. absurd (cc)), (λ h. absurd (cc (h.1))))
  | inr (d, e) ↦ rw (e, is_verified) ((λ h. (d, refl, h)), (λ h. ground (arith, h.1, h.2)))
]

-- What a key other than the account's verified one meets.
pub record IsShutOut (a k : Text) (now : ℕ) (written : Option Text) (s : PinStore) : Type 0 where
  pub unverified : is_verified a k s ≡ false
  pub observed : observe a k now written s ≡ (s, first_contact, some safety_number_changed)
  pub refused : verify a k now written s ≡ (s, some no_pending_pairing)

shut_out :
    (a k l : Text) (now : ℕ) (written : Option Text) (s : PinStore)
    → IsNulFree k
    → IsNulFree l
    → k ≢ l
    → IsValid s
    → Holds a k s.devices
    → IsShutOut a l now written s
unfolding is_verified observe observe_new verify
shut_out a k l now written s fk fl ne v (d, e, t) =
    elim (Option-cases (lookup (pin_key a l) s.devices)) [
      | inr (x, f) ↦ absurd (ne (lookup-single a k l s.devices fk fl v.keyed v.single e f))
      | inl f ↦
          let own = found_owner a k s.devices fk v.keyed e in
          let other : other_verified a l s.devices ≡ true =
            other_verified-found a k l s.devices e t (sym own.0) (λ p. ne (own.1 ∙ p)) in
          record {
            unverified = rw (f, is_verified);
            observed = rw (f, observe, other, observe_new);
            refused = rw (f, verify);
          }
    ]

-- From a valid registry in which an account has a verified key, whatever calls are made: the key
-- stays verified, and any other key of the account is not verified, is met by the safety-number
-- error without being recorded, and cannot be confirmed: `Verify` finds no pending pairing for it.
pub verified_final :
    (cs : List PinCall) (a k l : Text) (now : ℕ) (written : Option Text) (s : PinStore)
    → All IsClean cs
    → IsNulFree k
    → IsNulFree l
    → k ≢ l
    → IsValid s
    → is_verified a k s ≡ true
    → (is_verified a k (run cs s) ≡ true) × IsShutOut a l now written (run cs s)
verified_final cs a k l now written s clean fk fl ne v h =
    let kept = run-Holds cs a k s ((Holds-iff a k s).0 h) in
    (
      (Holds-iff a k (run cs s)).1 kept,
      shut_out a k l now written (run cs s) fk fl ne (run-IsValid cs s clean v) kept,
    )

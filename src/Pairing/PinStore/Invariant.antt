-- ===== src/Pairing/PinStore/Invariant.antt =====
-- Every entry of the registry stands under its own key, and an account has one entry at most.
use onesilo_node.Base.{
  ℕ, ◌≡◌, ◌≢◌, refl, sym, subst, inl, inr, false, List, [], ◌∷◌, ◌++◌, Option, none, some, arith,
  Text, text_eq, text_eq_iff, All, Bool-cases, Option-cases,
}
use onesilo_node.Base.Assoc.{lookup, insert, All-insert, All-lookup}
use onesilo_node.Pairing.PinStore.{
  PinnedDevice, PinStore, PinCall, observes, verifies, pin_key, save_locked, other_verified, evict,
  observe_new, observe, verify, step, run,
}

abbrev pub IsNulFree : Text → Type 0
IsNulFree = All (λ b. b ≢ 0)

not-IsNulFree : (s t : Text) → ¬ IsNulFree (s ++ 0 ∷ t)
not-IsNulFree [] t h = h.0 refl
not-IsNulFree (b ∷ s) t h = not-IsNulFree s t h.1

-- Two pins share a key of the registry only if account and app key agree. App keys are base64, so
-- they have no zero byte; nothing is asked of the accounts.
pub pin_key-injective :
    (a b k l : Text) → IsNulFree k → IsNulFree l → pin_key a k ≡ pin_key b l → (a ≡ b) × (k ≡ l)
unfolding pin_key
pin_key-injective [] [] k l hk hl e = (refl, (cc))
pin_key-injective [] (y ∷ b) k l hk hl e = absurd (not-IsNulFree b l (subst IsNulFree tail hk))
  where
    tail : k ≡ b ++ 0 ∷ l
    tail = cc
pin_key-injective (x ∷ a) [] k l hk hl e = absurd (not-IsNulFree a k (subst IsNulFree tail hl))
  where
    tail : l ≡ a ++ 0 ∷ k
    tail = cc
pin_key-injective (x ∷ a) (y ∷ b) k l hk hl e =
    let (p, q) = pin_key-injective a b k l hk hl (cc) in ((cc), q)

-- Where an entry of the registry stands.
abbrev pub IsKeyed : Text × PinnedDevice → Type 0
IsKeyed e = (e.0 ≡ pin_key e.1.account_id e.1.app_id_pub) × IsNulFree e.1.app_id_pub

-- No entry of the list is of the account.
abbrev pub Lacks : Text → List (Text × PinnedDevice) → Type 0
Lacks account = All (λ e. e.1.account_id ≢ account)

abbrev pub IsSingle : List (Text × PinnedDevice) → Type 0
IsSingle [] = Unit {0}
IsSingle ((k, d) ∷ m) = Lacks d.account_id m × IsSingle m

pub record IsValid (s : PinStore) : Type 0 where
  pub keyed : All IsKeyed s.devices
  pub single : IsSingle s.devices

pub evict-All {κ} :
    (P : Text × PinnedDevice → Type κ) (account : Text) (m : List (Text × PinnedDevice))
    → All P m
    → All P (evict account m)
unfolding evict
evict-All P account [] h = tt
evict-All P account ((k, d) ∷ m) h = ground (arith, evict-All P account m h.1)

evict-IsSingle :
    (account : Text) (m : List (Text × PinnedDevice)) → IsSingle m → IsSingle (evict account m)
unfolding evict
evict-IsSingle account [] h = tt
evict-IsSingle account ((k, d) ∷ m) h = ground (
  arith,
  evict-IsSingle account m h.1,
  evict-All (λ (e : Text × PinnedDevice). e.1.account_id ≢ d.account_id) account m h.0,
)

-- Where the account has neither this key nor another verified one, nothing of it is left.
pub evict-Lacks :
    (account key : Text) (m : List (Text × PinnedDevice))
    → All IsKeyed m
    → lookup (pin_key account key) m ≡ none
    → other_verified account key m ≡ false
    → Lacks account (evict account m)
unfolding evict other_verified lookup
evict-Lacks account key [] h e o = tt
evict-Lacks account key ((k, d) ∷ m) h e o = ground (
  arith,
  evict-Lacks account key m h.1,
  text_eq_iff d.account_id account,
  text_eq_iff d.app_id_pub key,
  text_eq_iff k (pin_key account key),
)

IsSingle-insert_new :
    (k : Text) (d : PinnedDevice) (m : List (Text × PinnedDevice))
    → Lacks d.account_id m
    → IsSingle m
    → IsSingle (insert k d m)
unfolding insert
IsSingle-insert_new k d [] l h = (tt, tt)
IsSingle-insert_new k d ((j, w) ∷ m) l h = elim (Bool-cases (text_eq j k)) [
  | inl e ↦ rw (e, insert) (l.1, h.1)
  | inr e ↦
      rw (e, insert)
        (
          All-insert (λ e. e.1.account_id ≢ w.account_id) k d m (λ p. l.0 (sym p)) h.0,
          IsSingle-insert_new k d m l.1 h.1,
        )
]

IsSingle-insert_same :
    (k : Text) (d d' : PinnedDevice) (m : List (Text × PinnedDevice))
    → lookup k m ≡ some d
    → d'.account_id ≡ d.account_id
    → IsSingle m
    → IsSingle (insert k d' m)
unfolding insert lookup
IsSingle-insert_same k d d' [] f e h = (tt, tt)
IsSingle-insert_same k d d' ((j, w) ∷ m) f e h = elim (Bool-cases (text_eq j k)) [
  | inl t ↦ let p : d ≡ w = ground arith in rw (t, insert, e, p) h
  | inr t ↦
      let found : lookup k m ≡ some d = ground arith in
      let other : d.account_id ≢ w.account_id =
        All-lookup (λ e. e.1.account_id ≢ w.account_id) k m h.0 found in
      rw (t, insert)
        (
          All-insert (λ e. e.1.account_id ≢ w.account_id) k d' m (rw e other) h.0,
          IsSingle-insert_same k d d' m found e h.1,
        )
]

save_locked-IsValid :
    (written : Option Text) (s : PinStore) → IsValid s → IsValid (save_locked written s).0
unfolding save_locked
save_locked-IsValid none s v = record { keyed = v.keyed; single = v.single }
save_locked-IsValid (some e) s v = v

observe_new-IsValid :
    (account key : Text) (now : ℕ) (written : Option Text) (s : PinStore)
    → IsNulFree key
    → lookup (pin_key account key) s.devices ≡ none
    → IsValid s
    → IsValid (observe_new account key now written s).0
unfolding observe_new
observe_new-IsValid account key now written s free e v =
    elim (Bool-cases (other_verified account key s.devices)) [
      | inl o ↦ rw (o, observe_new) v
      | inr o ↦
          rw (o, observe_new)
            (save_locked-IsValid written _ (record {
              keyed =
                  All-insert IsKeyed _ _ _ (refl, free)
                    (evict-All IsKeyed account s.devices v.keyed);
              single =
                  IsSingle-insert_new _ _ _ (evict-Lacks account key s.devices v.keyed e o)
                    (evict-IsSingle account s.devices v.single);
            }))
    ]

observe-IsValid :
    (account key : Text) (now : ℕ) (written : Option Text) (s : PinStore)
    → IsNulFree key
    → IsValid s
    → IsValid (observe account key now written s).0
unfolding observe
observe-IsValid account key now written s free v =
    elim (Option-cases (lookup (pin_key account key) s.devices)) [
      | inl e ↦ rw (e, observe) (observe_new-IsValid account key now written s free e v)
      | inr (d, e) ↦ rw (e, observe) v
    ]

verify-IsValid :
    (account key : Text) (now : ℕ) (written : Option Text) (s : PinStore)
    → IsValid s
    → IsValid (verify account key now written s).0
unfolding verify
verify-IsValid account key now written s v =
    elim (Option-cases (lookup (pin_key account key) s.devices)) [
      | inl e ↦ rw (e, verify) v
      | inr (d, e) ↦
          let here : IsKeyed (pin_key account key, d) =
            All-lookup IsKeyed (pin_key account key) s.devices v.keyed e in
          rw (e, verify)
            (save_locked-IsValid written _ (record {
              keyed = All-insert IsKeyed _ _ s.devices here v.keyed;
              single = IsSingle-insert_same _ d _ s.devices e refl v.single;
            }))
    ]

-- The app keys of the calls have no zero byte.
abbrev pub IsClean : PinCall → Type 0
IsClean (observes account key now written) = IsNulFree key
IsClean (verifies account key now written) = Unit {0}

pub step-IsValid : (c : PinCall) (s : PinStore) → IsClean c → IsValid s → IsValid (step c s)
unfolding step
step-IsValid (observes account key now written) s h v =
    observe-IsValid account key now written s h v
step-IsValid (verifies account key now written) s h v = verify-IsValid account key now written s v

-- Whatever calls are made on a valid registry, in whatever order and whether or not their writes
-- succeed, every entry stands under its own key and no account has two entries: an account has one
-- verified key or one pending key, never both.
pub run-IsValid :
    (cs : List PinCall) (s : PinStore) → All IsClean cs → IsValid s → IsValid (run cs s)
unfolding run
run-IsValid [] s h v = v
run-IsValid (c ∷ cs) s h v = run-IsValid cs (step c s) h.1 (step-IsValid c s h.0 v)

-- ===== src/Openai/Keys/Access.antt =====
-- Who is let in: what a mint and a revocation change of `Verify`.
use onesilo_node.Base.{
  ◌≡◌, ◌≢◌, refl, subst, inl, inr, Bool, true, false, not, ◌&&◌, ◌||◌, List, [], ◌∷◌, ◌++◌, Option,
  none, some, arith, Text, text_eq, text_eq_iff, text_eq_refl, starts_with, All, Bool-cases,
}
use onesilo_node.Openai.Keys.{
  Key, KeyStore, Std, Draw, minted, key_prefix, plaintext_of, new_key, persist_locked, add_key,
  mint, matches, verify, has_id, without, revoke,
}

starts_with-append : (p q : Text) → starts_with (p ++ q) p ≡ true
unfolding starts_with
starts_with-append [] [] = refl
starts_with-append [] (b ∷ q) = refl
starts_with-append (a ∷ p) q = ground (arith, starts_with-append p q)

matches-append :
    (h : Text) (ks : List Key) (k : Key)
    → matches h (ks ++ k ∷ []) ≡ (matches h ks || text_eq h k.sha256)
unfolding matches
matches-append h [] k = ground arith
matches-append h (j ∷ ks) k = ground (arith, matches-append h ks k)

-- The first key with the id.
abbrev pub find_id : Text → List Key → Option Key
find_id id [] = none
find_id id (k ∷ ks) = elim (text_eq k.id id) [ true ↦ some k | false ↦ find_id id ks ]

-- No two keys have the same hash.
abbrev pub HasDistinctHashes : List Key → Type 0
HasDistinctHashes [] = Unit {0}
HasDistinctHashes (k ∷ ks) = All (λ j. j.sha256 ≢ k.sha256) ks × HasDistinctHashes ks

matches-absent : (h : Text) (ks : List Key) → All (λ j. j.sha256 ≢ h) ks → matches h ks ≡ false
unfolding matches
matches-absent h [] a = refl
matches-absent h (k ∷ ks) a = ground (arith, matches-absent h ks a.1, text_eq_iff h k.sha256)

find_id-All {κ} :
    (P : Key → Type κ) (id : Text) (ks : List Key) {k : Key}
    → All P ks
    → find_id id ks ≡ some k
    → P k
find_id-All P id [] a e = absurd (cc)
find_id-All P id (j ∷ ks) {k} a e = elim (Bool-cases (text_eq j.id id)) [
  | inl t ↦ let same : j ≡ k = ground arith in subst P same a.0
  | inr t ↦ find_id-All P id ks a.1 (ground arith)
]

has_id-find_id :
    (id : Text) (ks : List Key) {k : Key} → find_id id ks ≡ some k → has_id id ks ≡ true
unfolding has_id
has_id-find_id id [] e = absurd (cc)
has_id-find_id id (j ∷ ks) {k} e = ground (arith, has_id-find_id id ks {k = k})

matches-without :
    (h id : Text) (ks : List Key) (k : Key)
    → find_id id ks ≡ some k
    → HasDistinctHashes ks
    → matches h (without id ks) ≡ (matches h ks && not (text_eq h k.sha256))
unfolding matches without
matches-without h id [] k e d = absurd (cc)
matches-without h id (j ∷ ks) k e d = elim (Bool-cases (text_eq j.id id)) [
  | inl t ↦ ground (arith, matches-absent j.sha256 ks d.0, text_eq_iff h j.sha256)
  | inr t ↦
      let there : find_id id ks ≡ some k = ground arith in
      let other : k.sha256 ≢ j.sha256 = find_id-All (λ i. i.sha256 ≢ j.sha256) id ks d.0 there in
      ground (
        arith,
        matches-without h id ks k there d.1,
        text_eq_iff h j.sha256,
        text_eq_iff h k.sha256,
        other,
      )
]

module _ (std : Std) where
  abbrev pub hash : Text → Text
  hash p = std.hex (std.sum256 p)

  -- A key that was minted and saved lets its plaintext in, and changes nothing for a presented
  -- secret with another hash.
  pub verify-mint :
      (name scope x y : Text) (draw : Draw) (s : KeyStore)
      → draw.secret ≡ some x
      → draw.id_bytes ≡ some y
      → let t = (mint std name scope draw none s).0 in
        ((mint std name scope draw none s).1
          ≡ minted (plaintext_of std x) (new_key std name scope x y draw.now))
        × (verify std (plaintext_of std x) t ≡ true)
        × ((p : Text) → hash p ≢ hash (plaintext_of std x) → verify std p t ≡ verify std p s)
  unfolding mint add_key persist_locked verify new_key
  verify-mint name scope x y draw s ex ey = (
    rw (ex, ey, mint),
    rw (ex, ey, mint)
        (rw (starts_with-append key_prefix (std.hex x), matches-append, text_eq_refl) (or_true _)),
    λ p ne. rw (ex, ey, mint) (rw (matches-append (hash p) s.keys, differs p ne, or_false)),
  )
    where
      or_true : (b : Bool) → (b || true) ≡ true
      or_true true = refl
      or_true false = refl

      or_false : (b : Bool) → (b || false) ≡ b
      or_false true = refl
      or_false false = refl

      differs :
          (p : Text)
          → hash p ≢ hash (plaintext_of std x)
          → text_eq (hash p) (hash (plaintext_of std x)) ≡ false
      differs p ne = ground (arith, text_eq_iff (hash p) (hash (plaintext_of std x)))

  -- A revocation that was saved shuts out exactly the secrets with the hash of the revoked key, if
  -- no two keys have the same hash.
  pub verify-revoke :
      (id p : Text) (s : KeyStore) (k : Key)
      → find_id id s.keys ≡ some k
      → HasDistinctHashes s.keys
      → verify std p (revoke id none s).0 ≡ (verify std p s && not (text_eq (hash p) k.sha256))
  unfolding verify revoke persist_locked
  verify-revoke id p s k e d =
      rw (has_id-find_id id s.keys e, revoke)
        (rw (matches-without (hash p) id s.keys k e d) (ground arith))

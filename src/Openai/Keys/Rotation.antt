-- ===== src/Openai/Keys/Rotation.antt =====
-- The control plane's key is rotated: a mint for it, and the commit that retires the earlier ones.
use onesilo_node.Base.{
  ◌≡◌, ◌≢◌, refl, sym, ap, subst, ◌∙◌, ◌⊎◌, inl, inr, Bool, true, false, not, ◌||◌, List, [], ◌∷◌,
  ◌++◌, Option, none, some, arith, Text, text_eq, text_eq_iff, text_eq_refl, All, Bool-cases,
  Option-cases,
}
use onesilo_node.Openai.Keys.Disk.{add_key-undone}
use onesilo_node.Openai.Keys.{
  Key, KeyStore, KeyError, generating_key, generating_id, write_failed, Std, Draw, Switches,
  Provided, nothing, provided, provide_failed, control_plane_key_name, control_plane_key_scope,
  plaintext_of, new_key, persist_locked, add_key, mint, is_control_plane, superseded_ids, without,
  revoke, revoke_from, revoke_all, mint_for_control_plane, provider_mint, commit,
}

-- The keys that people hold.
abbrev pub persons : List Key → List Key
persons [] = []
persons (k ∷ ks) = elim (is_control_plane k) [ true ↦ persons ks | false ↦ k ∷ persons ks ]

abbrev pub HasDistinctIds : List Key → Type 0
HasDistinctIds [] = Unit {0}
HasDistinctIds (k ∷ ks) = All (λ j. j.id ≢ k.id) ks × HasDistinctIds ks

-- Only the control plane's keys have the id.
abbrev IsScoped : List Key → Text → Type 0
IsScoped ks id = All (λ k. k.id ≡ id → is_control_plane k ≡ true) ks

persons-append :
    (ks : List Key) (k : Key) → is_control_plane k ≡ true → persons (ks ++ k ∷ []) ≡ persons ks
persons-append [] k h = ground arith
persons-append (j ∷ ks) k h = ground (arith, persons-append ks k h)

IsScoped-append :
    (id : Text) (ks : List Key) (k : Key)
    → is_control_plane k ≡ true
    → IsScoped ks id
    → IsScoped (ks ++ k ∷ []) id
IsScoped-append id [] k h a = ((λ e. h), tt)
IsScoped-append id (j ∷ ks) k h a = (a.0, IsScoped-append id ks k h a.1)

persons-without :
    (id : Text) (ks : List Key) → IsScoped ks id → persons (without id ks) ≡ persons ks
unfolding without
persons-without id [] a = refl
persons-without id (k ∷ ks) a = ground (arith, persons-without id ks a.1, text_eq_iff k.id id, a.0)

IsScoped-without : (id i : Text) (ks : List Key) → IsScoped ks id → IsScoped (without i ks) id
unfolding without
IsScoped-without id i [] a = tt
IsScoped-without id i (k ∷ ks) a = elim (Bool-cases (text_eq k.id i)) [
  | inl t ↦ rw (t, without) a.1
  | inr t ↦ rw (t, without) (a.0, IsScoped-without id i ks a.1)
]

All-IsScoped-without :
    (i : Text) (ks : List Key) (ids : List Text)
    → All (IsScoped ks) ids
    → All (IsScoped (without i ks)) ids
All-IsScoped-without i ks [] a = tt
All-IsScoped-without i ks (id ∷ ids) a =
    (IsScoped-without id i ks a.0, All-IsScoped-without i ks ids a.1)

-- A revocation takes the key out, or changes nothing.
revoke-keys :
    (id : Text) (written : Option Text) (s : KeyStore)
    → ((revoke id written s).0.keys ≡ s.keys) ⊎ ((revoke id written s).0.keys ≡ without id s.keys)
unfolding revoke persist_locked
revoke-keys id written s = ground arith

revoke_from-persons :
    (ids : List Text) (r : Option KeyError) (written : Text → Option Text) (s : KeyStore)
    → All (IsScoped s.keys) ids
    → persons (revoke_from r ids written s).0.keys ≡ persons s.keys
unfolding revoke_from
revoke_from-persons [] r written s a = refl
revoke_from-persons (id ∷ ids) r written s a =
    let t = (revoke id (written id) s).0 in
    elim (revoke-keys id (written id) s) [
      | inl e ↦
          revoke_from-persons ids _ written t (subst (λ ks. All (IsScoped ks) ids) (sym e) a.1)
          ∙ ap persons e
      | inr e ↦
          revoke_from-persons ids _ written t
            (subst (λ ks. All (IsScoped ks) ids) (sym e) (All-IsScoped-without id s.keys ids a.1))
          ∙ ap persons e
          ∙ persons-without id s.keys a.0
    ]

pub superseded-apart :
    (x : Text) (ks : List Key) → All (λ j. j.id ≢ x) ks → All (λ i. i ≢ x) (superseded_ids ks)
unfolding superseded_ids
superseded-apart x [] a = tt
superseded-apart x (k ∷ ks) a = ground (arith, superseded-apart x ks a.1)

IsScoped-cons :
    (k : Key) (ks : List Key) (ids : List Text)
    → (is_control_plane k ≡ true) ⊎ All (λ i. i ≢ k.id) ids
    → All (IsScoped ks) ids
    → All (IsScoped (k ∷ ks)) ids
IsScoped-cons k ks [] h a = tt
IsScoped-cons k ks (id ∷ ids) (inl c) a = (((λ e. c), a.0), IsScoped-cons k ks ids (inl c) a.1)
IsScoped-cons k ks (id ∷ ids) (inr h) a =
    (((λ e. absurd (h.0 (sym e))), a.0), IsScoped-cons k ks ids (inr h.1) a.1)

IsScoped-apart : (x : Text) (ks : List Key) → All (λ j. j.id ≢ x) ks → IsScoped ks x
IsScoped-apart x [] a = tt
IsScoped-apart x (k ∷ ks) a = ((λ e. absurd (a.0 e)), IsScoped-apart x ks a.1)

superseded-IsScoped : (ks : List Key) → HasDistinctIds ks → All (IsScoped ks) (superseded_ids ks)
unfolding superseded_ids
superseded-IsScoped [] d = tt
superseded-IsScoped (k ∷ ks) d = elim (Bool-cases (is_control_plane k)) [
  | inl c ↦
      rw (c, superseded_ids)
        (
          ((λ e. c), IsScoped-apart k.id ks d.0),
          IsScoped-cons k ks (superseded_ids ks) (inl c) (superseded-IsScoped ks d.1),
        )
  | inr c ↦
      rw (c, superseded_ids)
        (IsScoped-cons k ks (superseded_ids ks) (inr (superseded-apart k.id ks d.0))
          (superseded-IsScoped ks d.1))
]

abbrev pub after_mint : (Text → Option Text) → KeyStore → Provided → KeyStore
after_mint revoked t nothing = t
after_mint revoked t (provided plaintext ids) = commit ids revoked t
after_mint revoked t (provide_failed e) = t

-- A registration's use of the provider: the mint, and the commit once the key has been accepted.
unfoldable pub rotate :
    (std : Std) → Switches → Draw → Option Text → (Text → Option Text) → KeyStore → KeyStore
rotate std cfg draw written revoked s =
    let (t, r) = provider_mint std cfg draw written s in after_mint revoked t r

commit-persons :
    (ids : List Text) (written : Text → Option Text) (s : KeyStore)
    → All (IsScoped s.keys) ids
    → persons (commit ids written s).keys ≡ persons s.keys
unfolding commit revoke_all
commit-persons [] written s a = refl
commit-persons (id ∷ ids) written s a = revoke_from-persons (id ∷ ids) none written s a

All-IsScoped-append :
    (ks : List Key) (k : Key) (ids : List Text)
    → is_control_plane k ≡ true
    → All (IsScoped ks) ids
    → All (IsScoped (ks ++ k ∷ [])) ids
All-IsScoped-append ks k [] c a = tt
All-IsScoped-append ks k (id ∷ ids) c a =
    (IsScoped-append id ks k c a.0, All-IsScoped-append ks k ids c a.1)

abbrev pub is_off : Switches → Bool
is_off cfg = not cfg.publish || (not cfg.enabled || not cfg.compute)

module _ (std : Std) (cfg : Switches) (draw : Draw) (revoked : Text → Option Text)
    (s : KeyStore) where
  abbrev pub minted_key : Text → Text → Key
  minted_key x y = new_key std control_plane_key_name control_plane_key_scope x y draw.now

  minted_key-scoped : (x y : Text) → is_control_plane (minted_key x y) ≡ true
  unfolding new_key
  minted_key-scoped x y = text_eq_refl control_plane_key_scope

  -- What a rotation comes to when its draws succeed and its first write has the outcome `written`.
  abbrev pub rotated : Text → Text → Option Text → KeyStore
  rotated x y written = elim written [
    | none ↦ commit (superseded_ids s.keys) revoked (record {
      keys = s.keys ++ minted_key x y ∷ [];
      file = some (s.keys ++ minted_key x y ∷ []);
    })
    | some e ↦ (add_key (minted_key x y) (some e) s).0
  ]

  abbrev ProvidesAs : Option Text → KeyStore → Provided → Type 0
  ProvidesAs written t r = provider_mint std cfg draw written s ≡ (t, r)

  rotate_of :
      (written : Option Text) (t : KeyStore) (r : Provided)
      → ProvidesAs written t r
      → rotate std cfg draw written revoked s ≡ after_mint revoked t r
  unfolding rotate
  rotate_of written t r e = rw e

  off_lem : (written : Option Text) → is_off cfg ≡ true → ProvidesAs written s nothing
  unfolding provider_mint
  off_lem written off = rw (off, provider_mint)

  no_secret :
      (written : Option Text)
      → is_off cfg ≡ false
      → draw.secret ≡ none
      → ProvidesAs written s (provide_failed generating_key)
  unfolding provider_mint mint_for_control_plane mint
  no_secret written off ex = rw (off, ex, provider_mint, mint_for_control_plane, mint)

  no_id :
      (written : Option Text) (x : Text)
      → is_off cfg ≡ false
      → draw.secret ≡ some x
      → draw.id_bytes ≡ none
      → ProvidesAs written s (provide_failed generating_id)
  unfolding provider_mint mint_for_control_plane mint
  no_id written x off ex ey = rw (off, ex, ey, provider_mint, mint_for_control_plane, mint)

  pub rotate-on :
      (x y : Text) (written : Option Text)
      → is_off cfg ≡ false
      → draw.secret ≡ some x
      → draw.id_bytes ≡ some y
      → rotate std cfg draw written revoked s ≡ rotated x y written
  unfolding provider_mint mint_for_control_plane mint add_key persist_locked
  rotate-on x y none off ex ey =
      let keys = s.keys ++ minted_key x y ∷ [] in
      let p : ProvidesAs none (record { keys = keys; file = some keys })
          (provided (plaintext_of std x) (superseded_ids s.keys)) =
        rw (off, ex, ey, provider_mint, mint_for_control_plane, mint) in
      rotate_of none _ _ p
  rotate-on x y (some e) off ex ey =
      let p : ProvidesAs (some e) (add_key (minted_key x y) (some e) s).0
          (provide_failed (write_failed e)) =
        rw (off, ex, ey, provider_mint, mint_for_control_plane, mint) in
      rotate_of (some e) _ _ p

  rotated-persons :
      (x y : Text) (written : Option Text)
      → HasDistinctIds s.keys
      → persons (rotated x y written).keys ≡ persons s.keys
  rotated-persons x y none d =
      commit-persons (superseded_ids s.keys) revoked _ (
        All-IsScoped-append s.keys (minted_key x y) (superseded_ids s.keys) (minted_key-scoped x y)
          (superseded-IsScoped s.keys d))
      ∙ persons-append s.keys (minted_key x y) (minted_key-scoped x y)
  rotated-persons x y (some e) d = ap (λ (t : KeyStore). persons t.keys) (add_key-undone _ e s)

  -- A rotation never takes a person's key away, whatever the keys are called, whether the switches
  -- are on, whether the draws succeed, and whichever of its writes fail, if no two keys share an id.
  pub rotate-persons :
      (written : Option Text)
      → HasDistinctIds s.keys
      → persons (rotate std cfg draw written revoked s).keys ≡ persons s.keys
  rotate-persons written d = elim (Bool-cases (is_off cfg)) [
    | inl off ↦ same (rotate_of written s nothing (off_lem written off))
    | inr off ↦ elim (Option-cases draw.secret) [
      | inl ex ↦ same (rotate_of written s _ (no_secret written off ex))
      | inr (x, ex) ↦ elim (Option-cases draw.id_bytes) [
        | inl ey ↦ same (rotate_of written s _ (no_id written x off ex ey))
        | inr (y, ey) ↦ same (rotate-on x y written off ex ey) ∙ rotated-persons x y written d
      ]
    ]
  ]
    where
      same :
          {t : KeyStore}
          → rotate std cfg draw written revoked s ≡ t
          → persons (rotate std cfg draw written revoked s).keys ≡ persons t.keys
      same e = ap (λ (t : KeyStore). persons t.keys) e

-- ===== src/Openai/Keys/Retire.antt =====
-- What a rotation leaves when nothing fails.
use mathlib.Core.List.{append_assoc}
use onesilo_node.Base.{
  ◌≡◌, ◌≢◌, refl, sym, ◌∙◌, inl, inr, true, false, List, [], ◌∷◌, ◌++◌, Option, none, some, arith,
  Text, text_eq_iff, text_eq_refl, All, Bool-cases,
}
use onesilo_node.Openai.Keys.Rotation.{
  persons, HasDistinctIds, superseded-apart, is_off, rotate, rotate-on,
}
use onesilo_node.Openai.Keys.{
  Key, KeyStore, KeyError, Std, Draw, Switches, control_plane_key_name, control_plane_key_scope,
  new_key, persist_locked, is_control_plane, superseded_ids, has_id, without, revoke, first_error,
  revoke_from, revoke_all, commit,
}

-- The id is first met behind `pre`.
revoke-saved :
    (pre ks : List Key) (k : Key) (s : KeyStore)
    → All (λ p. k.id ≢ p.id) pre
    → s.keys ≡ pre ++ k ∷ ks
    → (revoke k.id none s).0.keys ≡ pre ++ ks
unfolding revoke persist_locked has_id without
revoke-saved pre ks k s a e = let (there, rest) = skip pre a in rw (e, there, revoke) rest
  where
    skip :
        (l : List Key)
        → All (λ p. k.id ≢ p.id) l
        → (has_id k.id (l ++ k ∷ ks) ≡ true) × (without k.id (l ++ k ∷ ks) ≡ l ++ ks)
    skip [] h = (ground (arith, text_eq_refl k.id), ground (arith, text_eq_refl k.id))
    skip (p ∷ l) h =
        let (x, y) = skip l h.1 in
        (ground (arith, x), ground (arith, y, text_eq_iff p.id k.id, h.0))

-- No id that is to be revoked is the key's.
abbrev IsClear : List Key → Key → Type 0
IsClear ks p = All (λ i. i ≢ p.id) (superseded_ids ks)

IsClear-scoped :
    (k : Key) (ks pre : List Key)
    → is_control_plane k ≡ true
    → All (IsClear (k ∷ ks)) pre
    → All (λ p. k.id ≢ p.id) pre × All (IsClear ks) pre
unfolding superseded_ids
IsClear-scoped k ks [] c a = (tt, tt)
IsClear-scoped k ks (p ∷ pre) c a =
    let (x, y) = IsClear-scoped k ks pre c a.1 in
    let head : All (λ i. i ≢ p.id) (k.id ∷ superseded_ids ks) = rw (c, superseded_ids) at (a.0) in
    ((head.0, x), (head.1, y))

IsClear-person :
    (k : Key) (ks pre : List Key)
    → is_control_plane k ≡ false
    → All (IsClear (k ∷ ks)) pre
    → All (IsClear ks) pre
unfolding superseded_ids
IsClear-person k ks [] c a = tt
IsClear-person k ks (p ∷ pre) c a = (rw (c, superseded_ids) at (a.0), IsClear-person k ks pre c a.1)

IsClear-append :
    (ks pre : List Key) (k : Key)
    → All (IsClear ks) pre
    → IsClear ks k
    → All (IsClear ks) (pre ++ k ∷ [])
IsClear-append ks [] k a b = (b, tt)
IsClear-append ks (p ∷ pre) k a b = (a.0, IsClear-append ks pre k a.1 b)

superseded-scoped :
    (k : Key) (ks : List Key)
    → is_control_plane k ≡ true
    → superseded_ids (k ∷ ks) ≡ k.id ∷ superseded_ids ks
unfolding superseded_ids
superseded-scoped k ks c = rw (c, superseded_ids)

superseded-person :
    (k : Key) (ks : List Key)
    → is_control_plane k ≡ false
    → superseded_ids (k ∷ ks) ≡ superseded_ids ks
unfolding superseded_ids
superseded-person k ks c = rw (c, superseded_ids)

revoke_from-cons :
    (r : Option KeyError) (id : Text) (ids : List Text) (revoked : Text → Option Text)
    (s : KeyStore)
    → revoke_from r (id ∷ ids) revoked s
      ≡ revoke_from
          (first_error r (revoke id (revoked id) s).1)
          ids
          revoked
          (revoke id (revoked id) s).0
unfolding revoke_from
revoke_from-cons r id ids revoked s = refl

commit-revoke_from :
    (ids : List Text) (revoked : Text → Option Text) (s : KeyStore)
    → commit ids revoked s ≡ (revoke_from none ids revoked s).0
unfolding commit revoke_all revoke_from
commit-revoke_from [] revoked s = refl
commit-revoke_from (id ∷ ids) revoked s = refl

module _ (revoked : Text → Option Text) (ok : (id : Text) → revoked id ≡ none) where
  revoke_from-retires :
      (ks pre new : List Key) (r : Option KeyError) (s : KeyStore)
      → HasDistinctIds ks
      → All (IsClear ks) pre
      → s.keys ≡ pre ++ (ks ++ new)
      → (revoke_from r (superseded_ids ks) revoked s).0.keys ≡ pre ++ (persons ks ++ new)
  unfolding revoke_from
  revoke_from-retires [] pre new r s d c e = unfold superseded_ids in e
  revoke_from-retires (k ∷ ks) pre new r s d c e = elim (Bool-cases (is_control_plane k)) [
    | inl scoped ↦
        let (far, rest) = IsClear-scoped k ks pre scoped c in
        let t = revoke k.id none s in
        rw (superseded-scoped k ks scoped, revoke_from-cons, ok k.id, scoped, persons)
          (revoke_from-retires ks pre new (first_error r t.1) t.0 d.1 rest
            (revoke-saved pre (ks ++ new) k s far e))
    | inr person ↦
        let more =
          IsClear-append ks pre k (IsClear-person k ks pre person c)
            (superseded-apart k.id ks d.0) in
        rw (superseded-person k ks person, person, persons)
          (revoke_from-retires ks (pre ++ k ∷ []) new r s d.1 more
              (e ∙ sym (append_assoc pre (k ∷ []) (ks ++ new)))
            ∙ append_assoc pre (k ∷ []) (persons ks ++ new))
  ]

  commit-retires :
      (ks new : List Key) (s : KeyStore)
      → HasDistinctIds ks
      → s.keys ≡ ks ++ new
      → (commit (superseded_ids ks) revoked s).keys ≡ persons ks ++ new
  commit-retires ks new s d e = rw commit-revoke_from (revoke_from-retires ks [] new none s d tt e)

  -- A rotation in which nothing fails leaves the keys that people hold, in their order, and behind
  -- them the new key alone: every earlier key of the control plane is retired.
  pub rotate-retires :
      (std : Std) (cfg : Switches) (draw : Draw) (s : KeyStore) (x y : Text)
      → is_off cfg ≡ false
      → draw.secret ≡ some x
      → draw.id_bytes ≡ some y
      → HasDistinctIds s.keys
      → (rotate std cfg draw none revoked s).keys
        ≡ persons s.keys
          ++ new_key std control_plane_key_name control_plane_key_scope x y draw.now ∷ []
  rotate-retires std cfg draw s x y on ex ey d =
      let key = new_key std control_plane_key_name control_plane_key_scope x y draw.now in
      let keys = s.keys ++ key ∷ [] in
      rw (rotate-on std cfg draw revoked s x y none on ex ey)
        (commit-retires s.keys (key ∷ []) (record { keys = keys; file = some keys }) d refl)

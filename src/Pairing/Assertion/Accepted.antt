-- ===== src/Pairing/Assertion/Accepted.antt =====
-- What an accepted assertion has to be.
use onesilo_node.Base.{
  ◌≡◌, ◌↔◌, inl, inr, refl, sym, ap, subst, ◌∙◌, List, [], ◌∷◌, ◌++◌, Option, none, some, arith,
  Text, Option-cases, All,
}
use onesilo_node.Base.Assoc.{lookup}
use onesilo_node.Base.Result.{Result-cases, ok, err, of_option}
use onesilo_node.Base.Strings.{split, join, IsFree, join-split, split-IsFree, split-join}
use onesilo_node.Pairing.Assertion.Stages.{
  bind_ok, of_option_ok, IsHeader, IsSigned, IsClaims, IsAdmitted, read_header-IsHeader,
  IsHeader-read_header, check_signature-IsSigned, IsSigned-check_signature, check_claims-IsAdmitted,
  IsAdmitted-check_claims,
}
use onesilo_node.Pairing.Assertion.{
  Header, Claims, EcKey, EcPublicKeys, Platform, KeySource, AssertionVerifier, Assertion,
  AssertionError, bad_claims, no_trusted_key, dot, Parts, b64url_decode, read_header, read_parts,
  check_signature, check_claims, read_claims, judge, refreshed_key, trusted_key, verify_parts,
  verify,
}

-- The key stands under the kid in the keys that the source has, or, if those do not know the kid,
-- in the keys that it finds for it.
pub data IsTrusted {S : Type 0} (src : KeySource S) (kid : Text) (s : S) (key : EcKey)
    : Type 0 where
  known :
      (m : EcPublicKeys)
      → (src.keys s).1 ≡ some m
      → lookup kid m ≡ some key
      → IsTrusted src kid s key
  refreshed :
      (m n : EcPublicKeys) (f : Text → S → S × Option EcPublicKeys)
      → (src.keys s).1 ≡ some m
      → lookup kid m ≡ none
      → src.keys_for_kid ≡ some f
      → (f kid (src.keys s).0).1 ≡ some n
      → lookup kid n ≡ some key
      → IsTrusted src kid s key

module _ {S : Type 0} (src : KeySource S) (kid : Text) (s : S) (key : EcKey) where
  refreshed_key-found :
      (t : S) (n : EcPublicKeys) (f : Text → S → S × Option EcPublicKeys)
      → src.keys_for_kid ≡ some f
      → (f kid t).1 ≡ some n
      → lookup kid n ≡ some key
      → (refreshed_key src kid t).1 ≡ ok key
  unfolding refreshed_key
  refreshed_key-found t n f g r h = rw (g, refreshed_key) (simp (r, h))

  IsTrusted-trusted_key : IsTrusted src kid s key → (trusted_key src kid s).1 ≡ ok key
  unfolding trusted_key refreshed_key
  IsTrusted-trusted_key (known m k e) = rw (k, e, trusted_key) refl
  IsTrusted-trusted_key (refreshed m n f k e g r h) =
      rw (k, e, trusted_key) (refreshed_key-found (src.keys s).0 n f g r h)

  trusted_key-IsTrusted : (trusted_key src kid s).1 ≡ ok key → IsTrusted src kid s key
  unfolding trusted_key refreshed_key
  trusted_key-IsTrusted h = elim (Option-cases (src.keys s).1) [
    | inl k ↦ absurd (ground arith)
    | inr mk ↦
        let (m, k) = mk in
        elim (Option-cases (lookup kid m)) [
          | inr xe ↦ let (x, e) = xe in known m k (ground arith)
          | inl e ↦ elim (Option-cases src.keys_for_kid) [
            | inl g ↦ absurd (ground arith)
            | inr fg ↦
                let (f, g) = fg in
                elim (Option-cases (f kid (src.keys s).0).1) [
                  | inl r ↦ absurd (ground arith)
                  | inr nr ↦
                      let (n, r) = nr in
                      refreshed m n f k e g r
                        (ground (arith, of_option_ok no_trusted_key (lookup kid n)))
                ]
          ]
        ]
  ]

-- Three parts without a dot, a header, a trusted key that verifies the signature, and claims that
-- this node admits.
pub record IsAuthentic {Time S : Type 0} (p : Platform Time) (v : AssertionVerifier S)
    (src : KeySource S) (now : Time) (token : Text) (s : S) (a : Assertion) : Type 0 where
  head : Text
  body : Text
  tail : Text
  compact : token ≡ head ++ dot ∷ (body ++ dot ∷ tail)
  dotless : All (IsFree dot) (head ∷ body ∷ tail ∷ [])
  header : Header
  is_header : IsHeader p head header
  key : EcKey
  is_trusted : IsTrusted src header.kid s key
  is_signed : IsSigned p key head body tail
  claims : Claims
  is_claims : IsClaims p body claims
  is_admitted : IsAdmitted p v now claims a

module _ {Time S : Type 0} (p : Platform Time) (v : AssertionVerifier S) (src : KeySource S)
    (now : Time) where
  judge-found :
      (t : Parts) (key : EcKey) (a : Assertion)
      → judge p v now t key ≡ ok a
      → IsSigned p key t.head t.body t.tail
        × ((c : Claims) × IsClaims p t.body c × IsAdmitted p v now c a)
  unfolding judge read_claims
  judge-found t key a e =
      let (u, s, e1) = bind_ok (check_signature p key t) _ e in
      let (c, d, e2) = bind_ok (read_claims p t.body) (check_claims p v now) e1 in
      let (raw, d1, d2) = bind_ok (of_option bad_claims (b64url_decode p t.body)) _ d in
      (
        check_signature-IsSigned p key t s,
        (
          c,
          record { raw = raw; decoded = of_option_ok _ _ d1; read = of_option_ok _ _ d2 },
          check_claims-IsAdmitted p v now c a e2,
        ),
      )

  found-judge :
      (t : Parts) (key : EcKey) (c : Claims) (a : Assertion)
      → IsSigned p key t.head t.body t.tail
      → IsClaims p t.body c
      → IsAdmitted p v now c a
      → judge p v now t key ≡ ok a
  unfolding judge read_claims
  found-judge t key c a i j k =
      simp (
        IsSigned-check_signature p key t i,
        j.decoded,
        j.read,
        IsAdmitted-check_claims p v now c a k,
      )

  read_parts-found :
      (l : List Text) (t : Parts)
      → read_parts p l ≡ ok t
      → (l ≡ t.head ∷ t.body ∷ t.tail ∷ []) × IsHeader p t.head t.header
  unfolding read_parts
  read_parts-found [] t e = absurd (cc)
  read_parts-found (h ∷ []) t e = absurd (cc)
  read_parts-found (h ∷ b ∷ []) t e = absurd (cc)
  read_parts-found (h ∷ b ∷ x ∷ y ∷ l) t e = absurd (cc)
  read_parts-found (h ∷ b ∷ x ∷ []) t e =
      let (g, r, e1) = bind_ok (read_header p h) _ e in
      let same : record { header = g; head = h; body = b; tail = x } ≡ t = cc e1 in
      subst (λ u. (h ∷ b ∷ x ∷ [] ≡ u.head ∷ u.body ∷ u.tail ∷ []) × IsHeader p u.head u.header)
        same (refl, read_header-IsHeader p h g r)

  read_parts-split :
      (token : Text) (t : Parts)
      → read_parts p (split dot token) ≡ ok t
      → (token ≡ t.head ++ dot ∷ (t.body ++ dot ∷ t.tail))
        × All (IsFree dot) (t.head ∷ t.body ∷ t.tail ∷ [])
        × IsHeader p t.head t.header
  read_parts-split token t e =
      let (l, h) = read_parts-found (split dot token) t e in
      (
        sym (join-split dot token) ∙ ap (join dot) l,
        subst (All (IsFree dot)) l (split-IsFree dot token),
        h,
      )

  split-read_parts :
      (head body tail : Text) (h : Header)
      → All (IsFree dot) (head ∷ body ∷ tail ∷ [])
      → IsHeader p head h
      → read_parts p (split dot (head ++ dot ∷ (body ++ dot ∷ tail)))
        ≡ ok (record { header = h; head = head; body = body; tail = tail })
  unfolding read_parts
  split-read_parts head body tail h free i =
      simp (split-join dot head (body ∷ tail ∷ []) free, IsHeader-read_header p head h i)

  verify_parts-found :
      (t : Parts) (s : S) (a : Assertion)
      → (verify_parts p v src now t s).1 ≡ ok a
      → (key : EcKey) × IsTrusted src t.header.kid s key × (judge p v now t key ≡ ok a)
  unfolding verify_parts
  verify_parts-found t s a e =
      let (key, h, e1) = bind_ok (trusted_key src t.header.kid s).1 (judge p v now t) e in
      (key, trusted_key-IsTrusted src t.header.kid s key h, e1)

  verify-read :
      (token : Text) (s : S) (t : Parts)
      → v.keys ≡ some src
      → read_parts p (split dot token) ≡ ok t
      → verify p v now token s ≡ verify_parts p v src now t s
  unfolding verify verify_parts judge check_claims
  verify-read token s t k h = rw (k, h, verify) refl

  verify-unread :
      (token : Text) (s : S) (e : AssertionError)
      → v.keys ≡ some src
      → read_parts p (split dot token) ≡ err e
      → verify p v now token s ≡ (s, err e)
  unfolding verify
  verify-unread token s e k h = rw (k, h, verify) refl

  verify-parts :
      (token : Text) (s : S) (a : Assertion)
      → v.keys ≡ some src
      → (verify p v now token s).1 ≡ ok a
      → (t : Parts) × (read_parts p (split dot token) ≡ ok t)
        × ((verify_parts p v src now t s).1 ≡ ok a)
  verify-parts token s a k e = elim (Result-cases (read_parts p (split dot token))) [
    | inl te ↦ let (t, h) = te in (t, h, sym (ap (λ x. x.1) (verify-read token s t k h)) ∙ e)
    | inr xe ↦ let (x, h) = xe in absurd (cc (ap (λ y. y.1) (verify-unread token s x k h), e))
  ]

  accepted-IsAuthentic :
      (token : Text) (s : S) (a : Assertion)
      → v.keys ≡ some src
      → (verify p v now token s).1 ≡ ok a
      → IsAuthentic p v src now token s a
  accepted-IsAuthentic token s a k e =
      let (t, h, e1) = verify-parts token s a k e in
      let (compact, dotless, is_header) = read_parts-split token t h in
      let (key, is_trusted, e2) = verify_parts-found t s a e1 in
      let (is_signed, rest) = judge-found t key a e2 in
      let (claims, is_claims, is_admitted) = rest in
      record {
        head = t.head;
        body = t.body;
        tail = t.tail;
        compact = compact;
        dotless = dotless;
        header = t.header;
        is_header = is_header;
        key = key;
        is_trusted = is_trusted;
        is_signed = is_signed;
        claims = claims;
        is_claims = is_claims;
        is_admitted = is_admitted;
      }

  IsAuthentic-accepted :
      (token : Text) (s : S) (a : Assertion)
      → v.keys ≡ some src
      → IsAuthentic p v src now token s a
      → (verify p v now token s).1 ≡ ok a
  unfolding verify_parts
  IsAuthentic-accepted token s a k i =
      let t : Parts = record { header = i.header; head = i.head; body = i.body; tail = i.tail } in
      let parts : read_parts p (split dot token) ≡ ok t =
        ap (λ x. read_parts p (split dot x)) i.compact
        ∙ split-read_parts i.head i.body i.tail i.header i.dotless i.is_header in
      let trusted = IsTrusted-trusted_key src i.header.kid s i.key i.is_trusted in
      let judged = found-judge t i.key i.claims a i.is_signed i.is_claims i.is_admitted in
      ap (λ x. x.1) (verify-read token s t k parts) ∙ rw (trusted, verify_parts) judged

  -- A token is accepted exactly if it is authentic: three dotless parts, a header that names ES256
  -- and a kid, a key that the source has or finds for this kid, a signature of 64 bytes that the key
  -- verifies over the first two parts, and claims for the node's audience, its device id and its
  -- account, with an app key, not expired and begun. The verifier has a key source.
  pub verify-IsAuthentic :
      (token : Text) (s : S) (a : Assertion)
      → v.keys ≡ some src
      → ((verify p v now token s).1 ≡ ok a) ↔ IsAuthentic p v src now token s a
  verify-IsAuthentic token s a k =
      (accepted-IsAuthentic token s a k, IsAuthentic-accepted token s a k)

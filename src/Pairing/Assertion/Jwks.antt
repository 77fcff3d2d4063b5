-- ===== src/Pairing/Assertion/Jwks.antt =====
-- What the keys of a parsed key set are.
use onesilo_node.Base.{
  suc, ◌≡◌, ◌≢◌, inl, inr, refl, subst, true, false, not, ◌||◌, List, [], ◌∷◌, ◌++◌, none, some,
  arith, Text, text, text_eq_iff, is_empty, length, All, Has, Bool-cases, ◌==◌,
}
use onesilo_node.Base.Assoc.{lookup, insert, All-insert, All-lookup}
use onesilo_node.Base.Result.{Result-cases, ok, err, of_option}
use onesilo_node.Pairing.Crypto.{big_endian}
use onesilo_node.Pairing.Assertion.Stages.{bind_ok, of_option_ok, if_ok, neither, is_empty_iff}
use onesilo_node.Pairing.Assertion.{
  Jwk, EcKey, EcPublicKeys, Platform, bad_document, bad_coordinate, b64url_decode, ec_p256_from_xy,
  point_of, is_p256, parse_keys, parse_jwks,
}

module _ {ℓ κ} {A : Type ℓ} where
  All-Has : (P : A → Type κ) (l : List A) → ((a : A) → Has a l → P a) → All P l
  All-Has P [] h = tt
  All-Has P (x ∷ l) h = (h x (0, refl), All-Has P l λ a i. h a (suc i.0, i.1))

module _ {Time : Type 0} (p : Platform Time) where
  -- The key of an entry: two coordinates of 32 bytes each, of a point that the curve accepts.
  pub record IsPoint (k : Jwk) (key : EcKey) : Type 0 where
    x : Text
    y : Text
    x_decoded : b64url_decode p k.x ≡ some x
    y_decoded : b64url_decode p k.y ≡ some y
    x_size : length x ≡ 32
    y_size : length y ≡ 32
    on_curve : p.is_point (4 ∷ x ++ y) ≡ true
    value : key ≡ record { x = big_endian 0 x; y = big_endian 0 y }

  -- An entry for elliptic-curve keys on P-256, under its kid, with its point.
  pub record IsEntry (ks : List Jwk) (kid : Text) (key : EcKey) : Type 0 where
    entry : Jwk
    listed : Has entry ks
    kty : entry.kty ≡ text "EC"
    crv : entry.crv ≡ text "P-256"
    named : entry.kid ≡ kid
    nonempty : kid ≢ []
    is_point : IsPoint entry key

  point_of-IsValid :
      (x y : Text) (key : EcKey)
      → point_of p x y ≡ ok key
      → (length x ≡ 32)
        × (length y ≡ 32)
        × (p.is_point (4 ∷ x ++ y) ≡ true)
        × (key ≡ record { x = big_endian 0 x; y = big_endian 0 y })
  unfolding point_of
  point_of-IsValid x y key e =
      let (sizes, e1) = if_ok (not (length x == 32) || not (length y == 32)) _ _ e in
      let (s, t) = neither (not (length x == 32)) _ sizes in
      (ground arith, ground arith, ground arith, ground arith)

  ec_p256_from_xy-IsPoint :
      (k : Jwk) (key : EcKey) → ec_p256_from_xy p k.x k.y ≡ ok key → IsPoint k key
  unfolding ec_p256_from_xy
  ec_p256_from_xy-IsPoint k key e =
      let (x, dx, e1) = bind_ok (of_option bad_coordinate (b64url_decode p k.x)) _ e in
      let (y, dy, e2) =
        bind_ok (of_option bad_coordinate (b64url_decode p k.y)) (point_of p x) e1 in
      let (sx, sy, on, same) = point_of-IsValid x y key e2 in
      record {
        x = x;
        y = y;
        x_decoded = of_option_ok _ _ dx;
        y_decoded = of_option_ok _ _ dy;
        x_size = sx;
        y_size = sy;
        on_curve = on;
        value = same;
      }

  -- The loop keeps what holds of the entries that it takes.
  parse_keys-All :
      (Q : Text × EcKey → Type 0) (ks : List Jwk) (out m : EcPublicKeys)
      → All
          (λ k.
            (key : EcKey)
            → is_p256 k ≡ true
            → is_empty k.kid ≡ false
            → ec_p256_from_xy p k.x k.y ≡ ok key
            → Q (k.kid, key))
          ks
      → All Q out
      → parse_keys p ks out ≡ ok m
      → All Q m
  unfolding parse_keys
  parse_keys-All Q [] out m h q e = subst (All Q) (cc e) q
  parse_keys-All Q (k ∷ ks) out m h q e = elim (Bool-cases (is_p256 k)) [
    | inl c ↦ elim (Bool-cases (is_empty k.kid)) [
      | inl n ↦ absurd (ground arith)
      | inr n ↦ elim (Result-cases (ec_p256_from_xy p k.x k.y)) [
        | inr xe ↦ let (x, r) = xe in absurd (ground arith)
        | inl kr ↦
            let (key, r) = kr in
            parse_keys-All Q ks (insert k.kid key out) m h.1
              (All-insert Q k.kid key out (h.0 key c n r) q) (ground arith)
      ]
    ]
    | inr c ↦ parse_keys-All Q ks out m h.1 q (ground arith)
  ]

  -- A kid is trusted only through an entry of the document for P-256, with this non-empty kid, whose
  -- coordinates have 32 bytes and lie on the curve.
  pub lookup-parse_jwks-IsEntry :
      (doc : Text) (ks : List Jwk) (m : EcPublicKeys) (kid : Text) (key : EcKey)
      → p.jwks_json doc ≡ some ks
      → parse_jwks p doc ≡ ok m
      → lookup kid m ≡ some key
      → IsEntry ks kid key
  unfolding parse_jwks is_p256
  lookup-parse_jwks-IsEntry doc ks m kid key d e f =
      All-lookup (λ e. IsEntry ks e.0 e.1) kid m
        (parse_keys-All (λ e. IsEntry ks e.0 e.1) ks [] m
          (All-Has _ ks λ k listed key c n r. record {
            entry = k;
            listed = listed;
            kty = (text_eq_iff k.kty (text "EC")).0 (ground arith);
            crv = (text_eq_iff k.crv (text "P-256")).0 (ground arith);
            named = refl;
            nonempty = (is_empty_iff k.kid).0 n;
            is_point = ec_p256_from_xy-IsPoint k key r;
          })
          tt
          (subst (λ o. elim o [ none ↦ err bad_document | some l ↦ parse_keys p l [] ] ≡ ok m) d e))
        f

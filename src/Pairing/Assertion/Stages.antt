-- ===== src/Pairing/Assertion/Stages.antt =====
-- What each stage of the check demands, said without the order of the tests.
use onesilo_node.Base.{
  ◌≡◌, ◌≢◌, ◌↔◌, ◌⊎◌, refl, sym, ap, ◌∙◌, Bool, true, false, ◌||◌, ◌&&◌, not, [], ◌∷◌, ◌++◌, Option,
  none, some, arith, Text, text, text_eq, text_eq_iff, is_empty, length, take, drop, if◌then◌else◌,
}
use onesilo_node.Base.Result.{Result, ok, err, ◌>>=◌, of_option}
use onesilo_node.Pairing.Crypto.{big_endian}
use onesilo_node.Pairing.Assertion.{
  Header, Claims, EcKey, Platform, AssertionVerifier, Assertion, pairing_audience, dot, is_zero,
  Parts, b64url_decode, read_header, check_signature, check_header, check_bytes, missing_kid,
  wrong_audience, expired, not_yet_valid, wrong_node, wrong_account, missing_app_id_pub,
  check_claims, bad_header, bad_signature_encoding,
}

pub is_empty_iff : (s : Text) → (is_empty s ≡ false) ↔ (s ≢ [])
is_empty_iff [] = (λ h e. cc, λ n. absurd (n refl))
is_empty_iff (b ∷ s) = (λ h e. cc, λ n. refl)

-- A test that guards a result lets it through.
pub if_ok :
    {E A : Type 0} (b : Bool) (e : E) (m : Result E A) {a : A}
    → (if b then err e else m) ≡ ok a
    → (b ≡ false) × (m ≡ ok a)
if_ok true e m h = absurd (cc)
if_ok false e m h = (refl, h)

-- Six tests that guard a result.
six_ok :
    {E A : Type 0} (b1 b2 b3 b4 b5 b6 : Bool) (e1 e2 e3 e4 e5 e6 : E) (r : A) {a : A}
    → (if b1
        then err e1
        else if b2
        then err e2
        else if b3
        then err e3
        else if b4
        then err e4
        else if b5
        then err e5
        else if b6
        then err e6
        else ok r)
      ≡ ok a
    → (b1 ≡ false)
      × (b2 ≡ false)
      × (b3 ≡ false)
      × (b4 ≡ false)
      × (b5 ≡ false)
      × (b6 ≡ false)
      × (r ≡ a)
six_ok b1 b2 b3 b4 b5 b6 e1 e2 e3 e4 e5 e6 r h = ground arith

pub neither : (a b : Bool) → (a || b) ≡ false → (a ≡ false) × (b ≡ false)
neither a b h = ground arith

not_both : (a b : Bool) → ((not a && b) ≡ false) ↔ ((a ≡ true) ⊎ (b ≡ false))
not_both a b = ground arith

not_same : (s t : Text) → (not (text_eq s t) ≡ false) ↔ (s ≡ t)
not_same s t = ground (arith, text_eq_iff s t)

-- A chain that gives a result has one at its first step.
pub bind_ok :
    {E A B : Type 0} (m : Result E B) (f : B → Result E A) {a : A}
    → m >>= f ≡ ok a
    → (b : B) × (m ≡ ok b) × (f b ≡ ok a)
bind_ok (ok b) f h = (b, refl, h)
bind_ok (err e) f h = absurd (cc)

pub of_option_ok : {E B : Type 0} (e : E) (o : Option B) {b : B} → of_option e o ≡ ok b → o ≡ some b
of_option_ok e none h = absurd (cc)
of_option_ok e (some b) h = cc

check_header_ok :
    (g h : Header) → check_header g ≡ ok h → (g ≡ h) × (g.alg ≡ text "ES256") × (g.kid ≢ [])
unfolding check_header
check_header_ok g h e =
    let (a, e1) = if_ok (not (text_eq g.alg (text "ES256"))) _ _ e in
    let (k, e2) = if_ok (is_empty g.kid) missing_kid (ok g) e1 in
    (cc e2, (not_same g.alg (text "ES256")).0 a, (is_empty_iff g.kid).0 k)

-- What the caller gets of the claims.
abbrev pub admitted : Claims → Assertion
admitted c = record {
  app_id_pub = c.app_id_pub;
  node_device_id = c.node_device_id;
  account_id = c.account_id;
}

module _ {Time : Type 0} (p : Platform Time) where
  pub record IsHeader (seg : Text) (h : Header) : Type 0 where
    pub raw : Text
    pub decoded : b64url_decode p seg ≡ some raw
    pub read : p.header_json raw ≡ some h
    pub alg : h.alg ≡ text "ES256"
    pub kid : h.kid ≢ []

  pub record IsSigned (key : EcKey) (head body tail : Text) : Type 0 where
    pub sig : Text
    pub decoded : b64url_decode p tail ≡ some sig
    pub size : length sig ≡ 64
    pub valid :
        p.ecdsa_verify key
          (p.sum256 (head ++ dot ∷ body))
          (big_endian 0 (take 32 sig))
          (big_endian 0 (drop 32 sig))
        ≡ true

  pub record IsClaims (seg : Text) (c : Claims) : Type 0 where
    pub raw : Text
    pub decoded : b64url_decode p seg ≡ some raw
    pub read : p.claims_json raw ≡ some c

  pub record IsAdmitted {S : Type 0} (v : AssertionVerifier S) (now : Time) (c : Claims)
      (a : Assertion) : Type 0 where
    pub aud : c.aud ≡ text "onesilo-node-pairing"
    pub exp_set : is_zero c.exp ≡ false
    pub unexpired : p.after now (p.add_skew (p.unix c.exp)) ≡ false
    pub started : (is_zero c.iat ≡ true) ⊎ (p.before (p.add_skew now) (p.unix c.iat) ≡ false)
    pub node : c.node_device_id ≡ v.own_device_id
    pub account : c.account_id ≡ v.own_account
    pub app_id_pub : c.app_id_pub ≢ []
    pub result : a ≡ admitted c

  pub read_header-IsHeader : (seg : Text) (h : Header) → read_header p seg ≡ ok h → IsHeader seg h
  unfolding read_header
  read_header-IsHeader seg h e =
      let (raw, d, e1) = bind_ok (of_option bad_header (b64url_decode p seg)) _ e in
      let (g, r, e2) = bind_ok (of_option bad_header (p.header_json raw)) check_header e1 in
      let (same, alg, kid) = check_header_ok g h e2 in
      record {
        raw = raw;
        decoded = of_option_ok _ _ d;
        read = of_option_ok _ _ r ∙ ap some same;
        alg = ap (λ x. x.alg) (sym same) ∙ alg;
        kid = λ n. kid (ap (λ x. x.kid) same ∙ n);
      }

  pub IsHeader-read_header : (seg : Text) (h : Header) → IsHeader seg h → read_header p seg ≡ ok h
  unfolding read_header check_header
  IsHeader-read_header seg h i =
      simp
        (i.decoded, i.read, (not_same h.alg (text "ES256")).1 i.alg, (is_empty_iff h.kid).1 i.kid)

  check_bytes_ok :
      (key : EcKey) (head body sig : Text)
      → check_bytes p key head body sig ≡ ok tt
      → (length sig ≡ 64)
        × (p.ecdsa_verify key
              (p.sum256 (head ++ dot ∷ body))
              (big_endian 0 (take 32 sig))
              (big_endian 0 (drop 32 sig))
            ≡ true)
  unfolding check_bytes
  check_bytes_ok key head body sig e = ground arith

  pub check_signature-IsSigned :
      (key : EcKey) (t : Parts)
      → check_signature p key t ≡ ok tt
      → IsSigned key t.head t.body t.tail
  unfolding check_signature
  check_signature-IsSigned key t e =
      let (sig, d, e1) =
        bind_ok (of_option bad_signature_encoding (b64url_decode p t.tail))
          (check_bytes p key t.head t.body) e in
      let (size, valid) = check_bytes_ok key t.head t.body sig e1 in
      record { sig = sig; decoded = of_option_ok _ _ d; size = size; valid = valid }

  pub IsSigned-check_signature :
      (key : EcKey) (t : Parts)
      → IsSigned key t.head t.body t.tail
      → check_signature p key t ≡ ok tt
  unfolding check_signature check_bytes
  IsSigned-check_signature key t i = simp (i.decoded, i.size, i.valid)

  pub check_claims-IsAdmitted :
      {S : Type 0} (v : AssertionVerifier S) (now : Time) (c : Claims) (a : Assertion)
      → check_claims p v now c ≡ ok a
      → IsAdmitted v now c a
  unfolding check_claims
  check_claims-IsAdmitted v now c a e =
      let (aud, exp, iat, node, account, app, same) =
        six_ok (not (text_eq c.aud pairing_audience))
          (is_zero c.exp || p.after now (p.add_skew (p.unix c.exp)))
          (not (is_zero c.iat) && p.before (p.add_skew now) (p.unix c.iat))
          (not (text_eq c.node_device_id v.own_device_id))
          (not (text_eq c.account_id v.own_account)) (is_empty c.app_id_pub) wrong_audience expired
          not_yet_valid wrong_node wrong_account missing_app_id_pub (admitted c) e in
      let (set, unexpired) = neither (is_zero c.exp) _ exp in
      record {
        aud = (not_same _ _).0 aud;
        exp_set = set;
        unexpired = unexpired;
        started = (not_both (is_zero c.iat) (p.before (p.add_skew now) (p.unix c.iat))).0 iat;
        node = (not_same _ _).0 node;
        account = (not_same _ _).0 account;
        app_id_pub = (is_empty_iff c.app_id_pub).0 app;
        result = sym same;
      }

  pub IsAdmitted-check_claims :
      {S : Type 0} (v : AssertionVerifier S) (now : Time) (c : Claims) (a : Assertion)
      → IsAdmitted v now c a
      → check_claims p v now c ≡ ok a
  unfolding check_claims
  IsAdmitted-check_claims v now c a i = simp (
    (not_same c.aud (text "onesilo-node-pairing")).1 i.aud,
    i.exp_set,
    i.unexpired,
    (not_both _ _).1 i.started,
    (not_same c.node_device_id v.own_device_id).1 i.node,
    (not_same c.account_id v.own_account).1 i.account,
    (is_empty_iff c.app_id_pub).1 i.app_id_pub,
    i.result,
  )

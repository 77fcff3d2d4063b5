-- ===== src/Pairing/Assertion.antt =====
-- internal/pairing/verify.go: the check of a pairing assertion, and the parsing of the control
-- plane's key set. Base64, JSON, SHA-256, the curve, ECDSA and the clock are parameters.
pub mod Stages
pub mod Accepted
pub mod Jwks
pub mod Tests
use onesilo_node.Base.{
  ℕ, zero, suc, Bool, true, false, ◌&&◌, ◌||◌, not, List, [], ◌∷◌, ◌++◌, Option, none, some, Text,
  text, text_eq, is_empty, ◌==◌, if◌then◌else◌, length, take, drop,
}
use onesilo_node.Base.Int.{ℤ, pos, negsuc}
use onesilo_node.Base.Assoc.{lookup, insert}
use onesilo_node.Base.Result.{Result, ok, err, ◌>>=◌, of_option}
use onesilo_node.Base.Strings.{split, trim_right}
use onesilo_node.Pairing.Crypto.{big_endian}

pub record Header : Type 0 where
  pub alg : Text
  pub kid : Text

pub record Claims : Type 0 where
  pub aud : Text
  pub exp : ℤ
  pub iat : ℤ
  pub node_device_id : Text
  pub account_id : Text
  pub app_id_pub : Text

pub record Jwk : Type 0 where
  pub kty : Text
  pub crv : Text
  pub kid : Text
  pub x : Text
  pub y : Text

-- An ecdsa.PublicKey on P-256.
pub record EcKey : Type 0 where
  pub x : ℕ
  pub y : ℕ

abbrev pub EcPublicKeys : Type 0
EcPublicKeys = List (Text × EcKey)

-- `none` is an error. `is_point` tells whether the validating constructor of crypto/ecdh accepts an
-- encoded point, `unix` is time.Unix of a number of seconds, `add_skew` adds `clockSkew`.
pub record Platform (Time : Type 0) : Type 0 where
  pub raw_url : Text → Option Text
  pub header_json : Text → Option Header
  pub claims_json : Text → Option Claims
  pub jwks_json : Text → Option (List Jwk)
  pub sum256 : Text → Text
  pub is_point : Text → Bool
  pub ecdsa_verify : EcKey → Text → ℕ → ℕ → Bool
  pub unix : ℤ → Time
  pub add_skew : Time → Time
  pub after : Time → Time → Bool
  pub before : Time → Time → Bool

-- A KeySource with state `S`; a KidRefresher also has `keys_for_kid`.
pub record KeySource (S : Type 0) : Type 0 where
  pub keys : S → S × Option EcPublicKeys
  pub keys_for_kid : Option (Text → S → S × Option EcPublicKeys)

pub record AssertionVerifier (S : Type 0) : Type 0 where
  pub own_device_id : Text
  pub own_account : Text
  pub keys : Option (KeySource S)

pub record Assertion : Type 0 where
  pub app_id_pub : Text
  pub node_device_id : Text
  pub account_id : Text

pub data AssertionError : Type 0 where
  no_key_source not_compact bad_header unexpected_alg missing_kid : AssertionError
  keys_unavailable no_trusted_key : AssertionError
  bad_signature_encoding bad_signature_size signature_invalid : AssertionError
  bad_claims wrong_audience expired not_yet_valid wrong_node wrong_account : AssertionError
  missing_app_id_pub : AssertionError

pub data JwksError : Type 0 where
  bad_document jwk_missing_kid bad_coordinate bad_coordinate_size not_on_curve : JwksError

abbrev pub pairing_audience : Text
pairing_audience = text "onesilo-node-pairing"

abbrev pub dot : ℕ
dot = 46

abbrev pub is_zero : ℤ → Bool
is_zero (pos zero) = true
is_zero (pos (suc n)) = false
is_zero (negsuc n) = false

-- The token in its three parts, with the header read.
pub record Parts : Type 0 where
  pub header : Header
  pub head : Text
  pub body : Text
  pub tail : Text

-- The algorithm is never taken from the token.
unfoldable pub check_header : Header → Result AssertionError Header
check_header h =
    if not (text_eq h.alg (text "ES256"))
    then err unexpected_alg
    else if is_empty h.kid
    then err missing_kid
    else ok h

module _ {Time : Type 0} (p : Platform Time) where
  unfoldable pub b64url_decode : Text → Option Text
  b64url_decode s = p.raw_url (trim_right 61 s)

  unfoldable pub read_header : Text → Result AssertionError Header
  read_header seg = do
    raw ← of_option bad_header (b64url_decode seg)
    h ← of_option bad_header (p.header_json raw)
    check_header h

  unfoldable pub read_parts : List Text → Result AssertionError Parts
  read_parts (head ∷ body ∷ tail ∷ []) = do
    header ← read_header head
    ok (record { header = header; head = head; body = body; tail = tail })
  read_parts _ = err not_compact

  unfoldable pub check_bytes : EcKey → Text → Text → Text → Result AssertionError (Unit {0})
  check_bytes key head body sig =
      if not (length sig == 64)
      then err bad_signature_size
      else if p.ecdsa_verify key (p.sum256 (head ++ dot ∷ body)) (big_endian 0 (take 32 sig))
          (big_endian 0 (drop 32 sig))
      then ok tt
      else err signature_invalid

  unfoldable pub check_signature : EcKey → Parts → Result AssertionError (Unit {0})
  check_signature key t = do
    sig ← of_option bad_signature_encoding (b64url_decode t.tail)
    check_bytes key t.head t.body sig

  unfoldable pub check_claims :
      {S : Type 0} → AssertionVerifier S → Time → Claims → Result AssertionError Assertion
  check_claims v now c =
      if not (text_eq c.aud pairing_audience)
      then err wrong_audience
      else if is_zero c.exp || p.after now (p.add_skew (p.unix c.exp))
      then err expired
      else if not (is_zero c.iat) && p.before (p.add_skew now) (p.unix c.iat)
      then err not_yet_valid
      else if not (text_eq c.node_device_id v.own_device_id)
      then err wrong_node
      else if not (text_eq c.account_id v.own_account)
      then err wrong_account
      else if is_empty c.app_id_pub
      then err missing_app_id_pub
      else ok (record {
        app_id_pub = c.app_id_pub;
        node_device_id = c.node_device_id;
        account_id = c.account_id;
      })

  unfoldable pub read_claims : Text → Result AssertionError Claims
  read_claims seg = do
    raw ← of_option bad_claims (b64url_decode seg)
    of_option bad_claims (p.claims_json raw)

  -- What follows once the key is known.
  unfoldable pub judge :
      {S : Type 0} → AssertionVerifier S → Time → Parts → EcKey → Result AssertionError Assertion
  judge v now t key = do _ ← check_signature key t; c ← read_claims t.body; check_claims v now c

-- The second chance that a source with `keys_for_kid` gets for an unknown kid.
unfoldable pub refreshed_key :
    {S : Type 0} → KeySource S → Text → S → S × Result AssertionError EcKey
refreshed_key src kid s = elim src.keys_for_kid [
  | none ↦ (s, err no_trusted_key)
  | some f ↦
      let (t, keys) = f kid s in
      (
        t,
        elim keys [ none ↦ err no_trusted_key | some m ↦ of_option no_trusted_key (lookup kid m) ],
      )
]

unfoldable pub trusted_key : {S : Type 0} → KeySource S → Text → S → S × Result AssertionError EcKey
trusted_key src kid s =
    let (t, keys) = src.keys s in
    elim keys [
      | none ↦ (t, err keys_unavailable)
      | some m ↦ elim (lookup kid m) [ some key ↦ (t, ok key) | none ↦ refreshed_key src kid t ]
    ]

unfoldable pub is_p256 : Jwk → Bool
is_p256 k = text_eq k.kty (text "EC") && text_eq k.crv (text "P-256")

module _ {Time : Type 0} (p : Platform Time) where
  unfoldable pub verify_parts :
      {S : Type 0}
      → AssertionVerifier S
      → KeySource S
      → Time
      → Parts
      → S
      → S × Result AssertionError Assertion
  verify_parts v src now t s =
      let (u, key) = trusted_key src t.header.kid s in (u, key >>= λ k. judge p v now t k)

  unfoldable pub verify :
      {S : Type 0} → AssertionVerifier S → Time → Text → S → S × Result AssertionError Assertion
  verify v now token s = elim v.keys [
    | none ↦ (s, err no_key_source)
    | some src ↦ elim (read_parts p (split dot token)) [
      | err e ↦ (s, err e)
      | ok t ↦ verify_parts v src now t s
    ]
  ]

  -- SetBytes of both coordinates, once they pass.
  unfoldable pub point_of : Text → Text → Result JwksError EcKey
  point_of x y =
      if not (length x == 32) || not (length y == 32)
      then err bad_coordinate_size
      else if p.is_point (4 ∷ x ++ y)
      then ok (record { x = big_endian 0 x; y = big_endian 0 y })
      else err not_on_curve

  unfoldable pub ec_p256_from_xy : Text → Text → Result JwksError EcKey
  ec_p256_from_xy x64 y64 = do
    x ← of_option bad_coordinate (b64url_decode p x64)
    y ← of_option bad_coordinate (b64url_decode p y64)
    point_of x y

  -- The loop of `ParseJWKS` over the entries that are left.
  unfoldable pub parse_keys : List Jwk → EcPublicKeys → Result JwksError EcPublicKeys
  parse_keys [] out = ok out
  parse_keys (k ∷ ks) out = elim (is_p256 k) [
    | false ↦ parse_keys ks out
    | true ↦ elim (is_empty k.kid) [
      | true ↦ err jwk_missing_kid
      | false ↦ elim (ec_p256_from_xy k.x k.y) [
        | err e ↦ err e
        | ok key ↦ parse_keys ks (insert k.kid key out)
      ]
    ]
  ]

  unfoldable pub parse_jwks : Text → Result JwksError EcPublicKeys
  parse_jwks doc = elim (p.jwks_json doc) [ none ↦ err bad_document | some ks ↦ parse_keys ks [] ]

-- ===== src/Pairing/Assertion/Tests.antt =====
-- A platform whose tokens are read to one header and one set of claims, an accepted token, and a key
-- set with an RSA key that is passed over.
use onesilo_node.Base.{
  ℕ, ◌≡◌, ◌↔◌, refl, true, false, List, [], ◌∷◌, ◌++◌, none, some, Text, text, text_eq, replicate,
}
use onesilo_node.Base.Int.{pos}
use onesilo_node.Base.Result.{ok}
use onesilo_node.Pairing.Assertion.Accepted.{IsAuthentic, verify-IsAuthentic}
use onesilo_node.Pairing.Assertion.{
  Jwk, Claims, Platform, KeySource, AssertionVerifier, Assertion, verify,
}

abbrev device_claims : Claims
device_claims = record {
  aud = text "onesilo-node-pairing";
  exp = pos 100;
  iat = pos 90;
  node_device_id = text "d1";
  account_id = text "acct";
  app_id_pub = text "app";
}

-- Encodings keep the text; the clock counts seconds.
abbrev pub platform : Platform ℕ
platform = record {
  raw_url = λ s. some s;
  header_json = λ s. some (record { alg = text "ES256"; kid = text "k1" });
  claims_json = λ s. some device_claims;
  jwks_json = λ s. none;
  sum256 = λ s. s;
  is_point = λ s. true;
  ecdsa_verify = λ key digest r s. text_eq digest (text "h.c");
  unix = λ t. 95;
  add_skew = λ t. t;
  after = λ s t. false;
  before = λ s t. false;
}

-- A source that knows no kid until it looks for one.
abbrev pub source : KeySource (List Text)
source = record {
  keys = λ s. (s, some []);
  keys_for_kid = some (λ kid s. (kid ∷ s, some ((kid, record { x = 1; y = 2 }) ∷ [])));
}

abbrev pub verifier : AssertionVerifier (List Text)
verifier = record { own_device_id = text "d1"; own_account = text "acct"; keys = some source }

abbrev pub token : Text
token = text "h.c." ++ replicate 64 65

abbrev pub assertion : Assertion
assertion = record { app_id_pub = text "app"; node_device_id = text "d1"; account_id = text "acct" }

verify-IsAuthentic_example :
    ((verify platform verifier 95 token []).1 ≡ ok assertion)
    ↔ IsAuthentic platform verifier source 95 token [] assertion
verify-IsAuthentic_example = verify-IsAuthentic platform verifier source 95 token [] assertion refl

abbrev ec_entry : Jwk
ec_entry = record {
  kty = text "EC";
  crv = text "P-256";
  kid = text "k1";
  x = replicate 32 0;
  y = replicate 32 0;
}

abbrev entries : List Jwk
entries = record { kty = text "RSA"; crv = []; kid = text "k1"; x = []; y = [] } ∷ ec_entry ∷ []

abbrev publishing : Platform ℕ
publishing = record platform { jwks_json = λ s. some entries }

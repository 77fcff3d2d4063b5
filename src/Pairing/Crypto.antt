-- ===== src/Pairing/Crypto.antt =====
-- internal/pairing/crypto.go: the transcript, the key derivation and the confirmation tags, over the
-- primitives of the standard library, which are parameters.
pub mod Framing
mod Tests
use onesilo_node.Base.{
  ℕ, zero, suc, ◌*◌, ◌+◌, ◌/◌, ◌%◌, ◌^◌, Bool, List, [], ◌∷◌, ◌++◌, Option, none, some, Text, text,
  text_eq, length,
}
use onesilo_node.Base.Chain.{◌>>=◌}

-- crypto/ecdh over P-256, crypto/hkdf, crypto/hmac, crypto/sha256, encoding/base64 and fmt's "%08d".
-- `none` is an error of the library.
pub record Primitives (Private Public : Type 0) : Type 0 where
  pub public_of : Private → Public
  pub bytes_of : Public → Text
  pub parse_public : Text → Option Public
  pub ecdh : Private → Public → Option Text
  pub sha256 : Text → Text
  pub hmac : Text → Text → Text
  pub hkdf : (secret salt info : Text) (size : ℕ) → Option Text
  pub encode : Text → Text
  pub decode : Text → Option Text
  pub eight_digits : ℕ → Text

abbrev pub kdf_info : Text
kdf_info = text "onesilo-pairing-v1"

abbrev pub session_key_len : ℕ
session_key_len = 32

abbrev pub nonce_len : ℕ
nonce_len = 16

abbrev pub confirm_label_app : Text
confirm_label_app = text "onesilo-pairing-confirm-app"

abbrev pub confirm_label_node : Text
confirm_label_node = text "onesilo-pairing-confirm-node"

abbrev pub sas_info : Text
sas_info = text "onesilo-pairing-sas"

pub record Transcript : Type 0 where
  pub app_id_pub : Text
  pub node_id_pub : Text
  pub app_eph_pub : Text
  pub node_eph_pub : Text
  pub app_nonce : Text
  pub node_nonce : Text
  pub assertion_sha : Text

-- binary.BigEndian.PutUint32 of uint32(n).
unfoldable pub put_uint32 : ℕ → Text
put_uint32 n = (n / 2 ^ 24) % 256 ∷ (n / 2 ^ 16) % 256 ∷ (n / 2 ^ 8) % 256 ∷ n % 256 ∷ []

-- What the loop of `Hash` writes for one field, and for all.
unfoldable pub framed : Text → Text
framed f = put_uint32 (length f) ++ f

unfoldable pub framed_all : List Text → Text
framed_all [] = []
framed_all (f ∷ fs) = framed f ++ framed_all fs

abbrev pub fields : Transcript → List Text
fields t =
    t.app_id_pub ∷ t.node_id_pub ∷ t.app_eph_pub ∷ t.node_eph_pub ∷ t.app_nonce ∷ t.node_nonce
    ∷ t.assertion_sha ∷ []

-- binary.BigEndian.Uint64, over however many bytes there are.
unfoldable pub big_endian : ℕ → Text → ℕ
big_endian acc [] = acc
big_endian acc (b ∷ s) = big_endian (acc * 256 + b) s

module _ {Private Public : Type 0} (p : Primitives Private Public) where
  unfoldable pub hash : Transcript → Text
  hash t = p.sha256 (framed_all (fields t))

  unfoldable pub derive_session_key : Text → Text → Text → Option Text
  derive_session_key ee ss th = p.hkdf (ee ++ ss) th kdf_info session_key_len

  unfoldable pub confirm_mac : Text → Text → Text → Text
  confirm_mac key label th = p.hmac key (label ++ th)

  unfoldable pub app_confirm : Text → Text → Text
  app_confirm key th = confirm_mac key confirm_label_app th

  unfoldable pub node_confirm : Text → Text → Text
  node_confirm key th = confirm_mac key confirm_label_node th

  -- hmac.Equal compares in constant time.
  unfoldable pub verify_mac : Text → Text → Bool
  verify_mac want got = text_eq want got

  unfoldable pub sas : Text → Option Text
  sas key = do raw ← p.hkdf key [] sas_info 8; some (p.eight_digits (big_endian 0 raw % 100000000))

-- ===== src/Memory/Cipher.antt =====
-- internal/memory/cipher_aead.go: the content of the memories at rest. AES-GCM is that of the LAN's
-- envelopes, with the silo as additional data.
use onesilo_node.Base.{
  ◌≡◌, refl, true, false, ◌++◌, Option, none, some, arith, Text, length, take, drop, ltb, ◌==◌,
  if◌then◌else◌, ==_iff, length-append, subst,
}
use onesilo_node.Base.Result.{Result, ok, err, of_option}
use onesilo_node.Lan.Envelope.{
  Aead, IsAead, nonce_size, key_size, KeyFile, missing, unreadable, contents, take-nonce,
  drop-nonce,
}

pub data CipherError : Type 0 where
  no_randomness too_short not_authentic : CipherError

module _ (c : Aead) (key : Text) where
  -- The nonce is drawn from crypto/rand.
  unfoldable pub seal_blob : (silo plaintext : Text) → Option Text → Result CipherError Text
  seal_blob silo s none = err no_randomness
  seal_blob silo s (some nonce) = ok (nonce ++ c.gcm_seal key nonce s silo)

  unfoldable pub open_blob : (silo blob : Text) → Result CipherError Text
  open_blob silo blob =
      if ltb (length blob) nonce_size
      then err too_short
      else of_option not_authentic
          (c.gcm_open key (take nonce_size blob) (drop nonce_size blob) silo)

pub data MemoryKeyError : Type 0 where
  malformed key_unreadable key_no_randomness : MemoryKeyError
  not_written : Text → MemoryKeyError

-- The functions of encoding/hex and strings.
pub record Hex : Type 0 where
  pub encode_hex : Text → Text
  pub decode_hex : Text → Option Text
  pub trim_space : Text → Text

-- What was written in hexadecimal is read back; the digits have no space around them.
pub record IsHex (x : Hex) : Type 0 where
  pub decode-encode : (s : Text) → x.decode_hex (x.trim_space (x.encode_hex s)) ≡ some s

module _ (x : Hex) where
  unfoldable pub checked_key : Option Text → Result MemoryKeyError Text
  checked_key none = err malformed
  checked_key (some key) = if length key == key_size then ok key else err malformed

  -- A new key, of the bytes that were drawn, and the outcome of writing it.
  unfoldable pub create_key : Option Text → Option Text → KeyFile × Result MemoryKeyError Text
  create_key none written = (missing, err key_no_randomness)
  create_key (some key) none = (contents (x.encode_hex key), ok key)
  create_key (some key) (some e) = (missing, err (not_written e))

  -- The file after the call beside the key.
  unfoldable pub load_or_create_memory_key :
      KeyFile → Option Text → Option Text → KeyFile × Result MemoryKeyError Text
  load_or_create_memory_key (contents s) drawn written =
      (contents s, checked_key (x.decode_hex (x.trim_space s)))
  load_or_create_memory_key unreadable drawn written = (unreadable, err key_unreadable)
  load_or_create_memory_key missing drawn written = create_key drawn written

open_blob-seal_blob :
    (c : Aead) (key silo s nonce : Text)
    → IsAead c
    → length nonce ≡ nonce_size
    → open_blob c key silo (nonce ++ c.gcm_seal key nonce s silo) ≡ ok s
unfolding open_blob
open_blob-seal_blob c key silo s nonce law h =
    let t = c.gcm_seal key nonce s silo in
    let long : ltb (length (nonce ++ t)) 12 ≡ false = ground (arith, length-append nonce t, h) in
    rw (long, take-nonce nonce t h, drop-nonce nonce t h, law.gcm_open-gcm_seal key nonce s silo)
      refl

ok-injective : {s t : Text} → ◌≡◌ {A = Result CipherError Text} (ok s) (ok t) → s ≡ t
ok-injective e = cc

-- A node without a memory key draws one of 32 bytes and writes it. What it seals under the key is
-- opened, for the same silo, under the key that it has after a restart, whatever is drawn and written
-- then. AES-GCM opens what it sealed, and hexadecimal is read back.
pub restart-open_blob :
    (x : Hex) (c : Aead) (key silo s nonce : Text) (drawn written : Option Text)
    → IsHex x
    → IsAead c
    → length key ≡ key_size
    → length nonce ≡ nonce_size
    → let (file, first) = load_or_create_memory_key x missing (some key) none in
      let (kept, second) = load_or_create_memory_key x file drawn written in
      (first ≡ ok key)
      × (second ≡ ok key)
      × (kept ≡ file)
      × ((blob : Text)
          → seal_blob c key silo s (some nonce) ≡ ok blob
          → open_blob c key silo blob ≡ ok s)
unfolding load_or_create_memory_key create_key checked_key seal_blob
restart-open_blob x c key silo s nonce drawn written hex law hk hn =
    let sized : (length key == key_size) ≡ true = (==_iff (length key) key_size).1 hk in
    (
      refl,
      rw (hex.decode-encode key) (rw sized refl),
      refl,
      λ blob e.
          subst (λ b. open_blob c key silo b ≡ ok s) (ok-injective e)
            (open_blob-seal_blob c key silo s nonce law hn),
    )

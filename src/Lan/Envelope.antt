-- ===== src/Lan/Envelope.antt =====
-- internal/lanserve/envelope.go: sealing and opening with the pairing key, and the key's file. AES-GCM,
-- hex and the file's contents are parameters.
use onesilo_node.Base.{
  ℕ, ◌≡◌, refl, subst, true, false, not, Option, none, some, ◌+◌, ◌++◌, arith, Text, [], length,
  take, drop, ltb, ◌==◌, if◌then◌else◌, length-append, take-append_length, drop-append_length,
  ==_iff,
}
use onesilo_node.Base.Result.{Result, ok, err, of_option}

abbrev pub nonce_size : ℕ
nonce_size = 12

abbrev pub tag_size : ℕ
tag_size = 16

abbrev pub key_size : ℕ
key_size = 32

pub data EnvelopeError : Type 0 where
  no_randomness bad_key_size bad_nonce_size too_short not_authentic : EnvelopeError

-- `gcm_seal key nonce plaintext aad` is the ciphertext with its tag.
pub record Aead : Type 0 where
  pub gcm_seal : Text → Text → Text → Text → Text
  pub gcm_open : Text → Text → Text → Text → Option Text

-- What AES-GCM promises for a key and a nonce of the right sizes: a tag of 16 bytes, and that what
-- was sealed opens under the same key, nonce and additional data.
pub record IsAead (c : Aead) : Type 0 where
  pub length-gcm_seal :
      (key nonce s aad : Text) → length (c.gcm_seal key nonce s aad) ≡ length s + tag_size
  pub gcm_open-gcm_seal :
      (key nonce s aad : Text) → c.gcm_open key nonce (c.gcm_seal key nonce s aad) aad ≡ some s

module _ (c : Aead) where
  unfoldable pub seal_with_nonce : (key nonce plaintext : Text) → Result EnvelopeError Text
  seal_with_nonce key nonce s =
      if not (length key == key_size)
      then err bad_key_size
      else if not (length nonce == nonce_size)
      then err bad_nonce_size
      else ok (nonce ++ c.gcm_seal key nonce s [])

  -- The nonce is drawn from crypto/rand.
  unfoldable pub seal : (key plaintext : Text) → Option Text → Result EnvelopeError Text
  seal key s none = err no_randomness
  seal key s (some nonce) = seal_with_nonce key nonce s

  unfoldable pub open_sealed : (key combined : Text) → Result EnvelopeError Text
  open_sealed key s =
      if not (length key == key_size)
      then err bad_key_size
      else if ltb (length s) (nonce_size + tag_size)
      then err too_short
      else of_option not_authentic (c.gcm_open key (take nonce_size s) (drop nonce_size s) [])

-- What reading pairing.key gave.
pub data KeyFile : Type 0 where
  missing unreadable : KeyFile
  contents : Text → KeyFile

pub data KeyFileError : Type 0 where
  no_key read_failed not_hex : KeyFileError

module _ (trim_space : Text → Text) (decode_hex : Text → Option Text) where
  unfoldable pub checked_key : Option Text → Result KeyFileError Text
  checked_key none = err not_hex
  checked_key (some key) = if length key == key_size then ok key else err not_hex

  unfoldable pub load_pairing_key : KeyFile → Result KeyFileError Text
  load_pairing_key missing = err no_key
  load_pairing_key unreadable = err read_failed
  load_pairing_key (contents s) = checked_key (decode_hex (trim_space s))

  -- The source of keys reads the file anew on every call; `none` is a data directory that is unknown.
  unfoldable pub file_key_source : Option KeyFile → Option Text
  file_key_source none = none
  file_key_source (some f) = elim (load_pairing_key f) [ ok key ↦ some key | err e ↦ none ]

-- The parts of what was sealed.
pub take-nonce : (nonce t : Text) → length nonce ≡ nonce_size → take nonce_size (nonce ++ t) ≡ nonce
take-nonce nonce t h = subst (λ n. take n (nonce ++ t) ≡ nonce) h (take-append_length nonce t)

pub drop-nonce : (nonce t : Text) → length nonce ≡ nonce_size → drop nonce_size (nonce ++ t) ≡ t
drop-nonce nonce t h = subst (λ n. drop n (nonce ++ t) ≡ t) h (drop-append_length nonce t)

-- What is sealed under a key of 32 bytes, with a nonce of 12 bytes, opens under this key to the same
-- bytes, and is longer than them by the nonce and the tag. AES-GCM keeps its promises.
pub open_sealed-seal_with_nonce :
    (c : Aead) (key nonce s : Text)
    → IsAead c
    → length key ≡ key_size
    → length nonce ≡ nonce_size
    → (t : Text) × (seal_with_nonce c key nonce s ≡ ok t)
      × (open_sealed c key t ≡ ok s)
      × (length t ≡ length s + (nonce_size + tag_size))
unfolding seal_with_nonce open_sealed
open_sealed-seal_with_nonce c key nonce s law hk hn =
    let t = c.gcm_seal key nonce s [] in
    let size : length (nonce ++ t) ≡ length s + 28 =
      omega (arith, length-append nonce t, law.length-gcm_seal key nonce s [], hn) in
    let sized_key : (length key == key_size) ≡ true = (==_iff (length key) key_size).1 hk in
    let sized_nonce : (length nonce == nonce_size) ≡ true =
      (==_iff (length nonce) nonce_size).1 hn in
    let long : ltb (length (nonce ++ t)) 28 ≡ false = ground (arith, size) in
    (
      nonce ++ t,
      rw (sized_key, sized_nonce) refl,
      rw
          (
            sized_key,
            long,
            take-nonce nonce t hn,
            drop-nonce nonce t hn,
            law.gcm_open-gcm_seal key nonce s [],
          )
          refl,
      size,
    )

-- ===== src/Pairing/Crypto/Framing.antt =====
-- The framing of the transcript can be read back, so no two transcripts are hashed from the same
-- bytes.
use onesilo_node.Base.{
  ℕ, ◌^◌, ◌<◌, ◌≡◌, refl, sym, ap, ◌∙◌, List, [], ◌∷◌, ◌++◌, arith, Text, length, All,
}
use mathlib.Core.List.{append_assoc}
use onesilo_node.Pairing.Crypto.{Transcript, put_uint32, framed, framed_all, fields}

four-injective :
    {a b c d a' b' c' d' : ℕ}
    → ◌≡◌ {A = Text} (a ∷ b ∷ c ∷ d ∷ []) (a' ∷ b' ∷ c' ∷ d' ∷ [])
    → (a ≡ a') × (b ≡ b') × (c ≡ c') × (d ≡ d')
four-injective e = (cc, cc, cc, cc)

-- Lengths below 2^32 are told apart by their four bytes.
put_uint32-injective : (m n : ℕ) → m < 2 ^ 32 → n < 2 ^ 32 → put_uint32 m ≡ put_uint32 n → m ≡ n
unfolding put_uint32
put_uint32-injective m n h k e = let (p, q, r, s) = four-injective e in omega arith

module _ {ℓ} {A : Type ℓ} where
  append-cancel :
      (xs ys us vs : List A) → length xs ≡ length ys → xs ++ us ≡ ys ++ vs → (xs ≡ ys) × (us ≡ vs)
  append-cancel [] [] us vs l e = (refl, e)
  append-cancel [] (y ∷ ys) us vs l e = absurd (omega arith)
  append-cancel (x ∷ xs) [] us vs l e = absurd (omega arith)
  append-cancel (x ∷ xs) (y ∷ ys) us vs l e =
      let (p, q) = append-cancel xs ys us vs (omega arith) (cc e) in (cc (e, p), q)

-- A field of the transcript is shorter than 2^32 bytes.
abbrev pub IsShort : Text → Type 0
IsShort f = length f < 2 ^ 32

length-put_uint32 : (n : ℕ) → length (put_uint32 n) ≡ 4
unfolding put_uint32
length-put_uint32 n = refl

framed-split :
    (f g us vs : Text)
    → IsShort f
    → IsShort g
    → framed f ++ us ≡ framed g ++ vs
    → (f ≡ g) × (us ≡ vs)
unfolding framed
framed-split f g us vs sf sg e =
    let both : put_uint32 (length f) ++ (f ++ us) ≡ put_uint32 (length g) ++ (g ++ vs) =
      sym (append_assoc (put_uint32 (length f)) f us)
      ∙ e
      ∙ append_assoc (put_uint32 (length g)) g vs in
    let (sizes, rest) =
      append-cancel (put_uint32 (length f)) (put_uint32 (length g)) (f ++ us) (g ++ vs)
        (length-put_uint32 (length f) ∙ sym (length-put_uint32 (length g))) both in
    append-cancel f g us vs (put_uint32-injective (length f) (length g) sf sg sizes) rest

framed_all-injective :
    (fs gs : List Text)
    → length fs ≡ length gs
    → All IsShort fs
    → All IsShort gs
    → framed_all fs ≡ framed_all gs
    → fs ≡ gs
unfolding framed_all
framed_all-injective [] [] l hf hg e = refl
framed_all-injective [] (g ∷ gs) l hf hg e = absurd (omega arith)
framed_all-injective (f ∷ fs) [] l hf hg e = absurd (omega arith)
framed_all-injective (f ∷ fs) (g ∷ gs) l hf hg e =
    let (p, q) = framed-split f g (framed_all fs) (framed_all gs) hf.0 hg.0 e in
    cc (p, framed_all-injective fs gs (omega arith) hf.1 hg.1 q)

-- The transcript with seven given fields.
unfoldable transcript_of : List Text → Transcript
transcript_of (a ∷ b ∷ c ∷ d ∷ e ∷ f ∷ g ∷ _) = record {
  app_id_pub = a;
  node_id_pub = b;
  app_eph_pub = c;
  node_eph_pub = d;
  app_nonce = e;
  node_nonce = f;
  assertion_sha = g;
}
transcript_of _ = record {
  app_id_pub = [];
  node_id_pub = [];
  app_eph_pub = [];
  node_eph_pub = [];
  app_nonce = [];
  node_nonce = [];
  assertion_sha = [];
}

-- The bytes that are hashed determine the transcript: two handshakes that differ in any key, nonce
-- or assertion digest, or in where one field ends, are hashed from different bytes. The fields are
-- shorter than 2^32 bytes.
pub transcript-injective :
    (s t : Transcript)
    → All IsShort (fields s)
    → All IsShort (fields t)
    → framed_all (fields s) ≡ framed_all (fields t)
    → s ≡ t
unfolding transcript_of
transcript-injective s t hs ht e =
    ap transcript_of (framed_all-injective (fields s) (fields t) refl hs ht e)

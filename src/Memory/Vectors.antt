-- ===== src/Memory/Vectors.antt =====
-- internal/memory/store.go: the little-endian encoding of the vectors. A float32 is its 32 bits, a
-- number below 2 ^ 32.
use mathlib.Core.Path.{ap₂}
use onesilo_node.Base.{
  ℕ, zero, suc, ◌≡◌, ◌↔◌, ◌<◌, ◌+◌, ◌*◌, ◌/◌, ◌%◌, ◌^◌, refl, sym, ap, ◌∙◌, arith, not, List, [],
  ◌∷◌, ◌++◌, Text, All, length, ◌==◌, if◌then◌else◌, inl, inr, Bool-cases, ==_iff,
}
use onesilo_node.Base.Result.{Result, ok, err}

unfoldable pub put_uint32 : ℕ → Text
put_uint32 n = n % 256 ∷ n / 256 % 256 ∷ n / 65536 % 256 ∷ n / 16777216 % 256 ∷ []

unfoldable pub encode_vector : List ℕ → Text
encode_vector [] = []
encode_vector (f ∷ v) = put_uint32 f ++ encode_vector v

-- The loop over the `dim` numbers of a blob that is long enough.
unfoldable pub get_all : (dim : ℕ) → Text → List ℕ
get_all zero raw = []
get_all (suc d) (a ∷ b ∷ c ∷ e ∷ raw) =
    (a + 256 * b + 65536 * c + 16777216 * e) % 2 ^ 32 ∷ get_all d raw
get_all (suc d) _ = []

pub data VectorError : Type 0 where
  bad_length : (bytes dim : ℕ) → VectorError

unfoldable pub decode_vector : Text → (dim : ℕ) → Result VectorError (List ℕ)
decode_vector raw dim =
    if not (length raw == 4 * dim) then err (bad_length (length raw) dim) else ok (get_all dim raw)

abbrev pub IsByte : ℕ → Type 0
IsByte b = b < 256

abbrev pub IsFloat32 : ℕ → Type 0
IsFloat32 f = f < 4294967296

length-encode_vector : (v : List ℕ) → length (encode_vector v) ≡ 4 * length v
unfolding encode_vector put_uint32
length-encode_vector [] = omega arith
length-encode_vector (f ∷ v) = omega (arith, length-encode_vector v)

join_bytes :
    (f : ℕ)
    → f < 4294967296
    → (f % 256
          + 256 * (f / 256 % 256)
          + 65536 * (f / 65536 % 256)
          + 16777216 * (f / 16777216 % 256))
        % 4294967296
      ≡ f
join_bytes f h = omega (arith, h)

get_all-encode_vector : (v : List ℕ) → All IsFloat32 v → get_all (length v) (encode_vector v) ≡ v
unfolding get_all encode_vector put_uint32
get_all-encode_vector [] h = refl
get_all-encode_vector (f ∷ v) (h, hs) =
    ap₂ (λ x y. x ∷ y) (join_bytes f h) (get_all-encode_vector v hs)

cut_bytes :
    (a b c e : ℕ)
    → a < 256
    → b < 256
    → c < 256
    → e < 256
    → put_uint32 ((a + 256 * b + 65536 * c + 16777216 * e) % 4294967296) ≡ a ∷ b ∷ c ∷ e ∷ []
unfolding put_uint32
cut_bytes a b c e p q r s =
    let n = (a + 256 * b + 65536 * c + 16777216 * e) % 4294967296 in
    let w : n % 256 ≡ a = omega (arith, p, q, r, s) in
    let x : n / 256 % 256 ≡ b = omega (arith, p, q, r, s) in
    let y : n / 65536 % 256 ≡ c = omega (arith, p, q, r, s) in
    let z : n / 16777216 % 256 ≡ e = omega (arith, p, q, r, s) in cc (w, x, y, z)

encode_vector-get_all :
    (d : ℕ) (raw : Text)
    → All IsByte raw
    → length raw ≡ 4 * d
    → (encode_vector (get_all d raw) ≡ raw) × (length (get_all d raw) ≡ d)
unfolding get_all encode_vector
encode_vector-get_all zero [] h e = (refl, refl)
encode_vector-get_all zero (a ∷ raw) h e = absurd (omega (arith, e))
encode_vector-get_all (suc d) (a ∷ b ∷ c ∷ x ∷ raw) (p, (q, (r, (s, h)))) e =
    let (f, g) = encode_vector-get_all d raw h (omega (arith, e)) in
    (ap₂ (λ l m. l ++ m) (cut_bytes a b c x p q r s) f, ap suc g)
encode_vector-get_all (suc d) [] h e = absurd (omega (arith, e))
encode_vector-get_all (suc d) (a ∷ []) h e = absurd (omega (arith, e))
encode_vector-get_all (suc d) (a ∷ b ∷ []) h e = absurd (omega (arith, e))
encode_vector-get_all (suc d) (a ∷ b ∷ c ∷ []) h e = absurd (omega (arith, e))

ok-injective : {v w : List ℕ} → ◌≡◌ {A = Result VectorError (List ℕ)} (ok v) (ok w) → v ≡ w
ok-injective e = cc

-- A blob of bytes decodes, for a dimension, to a vector of 32-bit floats exactly if it is the
-- encoding of this vector and the dimension is the vector's length. So what was stored is read back,
-- and a blob of another length is refused.
pub decode_vector-encode_vector :
    (raw : Text) (dim : ℕ) (v : List ℕ)
    → All IsByte raw
    → All IsFloat32 v
    → (decode_vector raw dim ≡ ok v) ↔ ((encode_vector v ≡ raw) × (length v ≡ dim))
unfolding decode_vector
decode_vector-encode_vector raw dim v bytes floats = elim (Bool-cases (length raw == 4 * dim)) [
  | inl e ↦
      rw (e, decode_vector)
        (
          (λ h.
              let (f, g) =
                encode_vector-get_all dim raw bytes ((==_iff (length raw) (4 * dim)).0 e) in
              let same = ok-injective h in
              (ap encode_vector (sym same) ∙ f, ap length (sym same) ∙ g)),
          (λ h. ap ok (ap₂ get_all (sym h.1) (sym h.0) ∙ get_all-encode_vector v floats)),
        )
  | inr e ↦
      rw (e, decode_vector)
        (
          (λ h. absurd (cc)),
          (λ h. absurd (ground (arith, e, length-encode_vector v, ap length h.0, h.1))),
        )
]

-- ===== src/Memory/Tests.antt =====
-- A vector of two numbers, a query with a quote, and a sealed memory.
use onesilo_node.Base.{ℕ, ◌≡◌, refl, List, [], ◌∷◌, some, none, Text, text, replicate}
use onesilo_node.Base.Result.{ok}
use onesilo_node.Lan.Envelope.{missing}
use onesilo_node.Lan.Tests.{aead, aead-IsAead}
use onesilo_node.Memory.Query.{fts_match_expr, Reads, fts_match_expr_read}
use onesilo_node.Memory.Cipher.{
  Hex, IsHex, seal_blob, open_blob, load_or_create_memory_key, restart-open_blob,
}

abbrev blob : Text
blob = 1 ∷ 2 ∷ 3 ∷ 4 ∷ 255 ∷ 0 ∷ 0 ∷ 128 ∷ []

abbrev vector : List ℕ
vector = 67305985 ∷ 2147483903 ∷ []

fts_match_expr_read_example :
    Reads (fts_match_expr (text "a\"b" ∷ text "OR" ∷ [])) (text "a\"b" ∷ text "OR" ∷ [])
    × ((gs : List Text)
        → Reads (fts_match_expr (text "a\"b" ∷ text "OR" ∷ [])) gs
        → gs ≡ text "a\"b" ∷ text "OR" ∷ [])
fts_match_expr_read_example = fts_match_expr_read (text "a\"b") (text "OR" ∷ [])

-- Digits that keep the bytes.
abbrev hex : Hex
hex = record { encode_hex = λ s. s; decode_hex = λ s. some s; trim_space = λ s. s }

hex-IsHex : IsHex hex
hex-IsHex = record { decode-encode = λ s. refl }

restart-open_blob_example :
    let (file, first) = load_or_create_memory_key hex missing (some (replicate 32 7)) none in
    let (kept, second) = load_or_create_memory_key hex file none none in
    (first ≡ ok (replicate 32 7))
    × (second ≡ ok (replicate 32 7))
    × (kept ≡ file)
    × ((b : Text)
        → seal_blob aead (replicate 32 7) (text "silo") (text "hi") (some (replicate 12 1)) ≡ ok b
        → open_blob aead (replicate 32 7) (text "silo") b ≡ ok (text "hi"))
restart-open_blob_example =
    restart-open_blob hex aead (replicate 32 7) (text "silo") (text "hi") (replicate 12 1) none none
      hex-IsHex aead-IsAead refl refl

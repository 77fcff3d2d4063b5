-- ===== src/Tunnel/Scan.antt =====
-- internal/tunnel: readyScanWriter of managed.go and urlScanWriter of cloudflared.go, the same scan
-- for the first line that says that the tunnel is up.
pub mod Chunks
use onesilo_node.Base.{
  ℕ, zero, suc, ◌<◌, ltb, ◌==◌, Bool, true, false, not, ◌&&◌, List, [], ◌∷◌, ◌++◌, Option, none,
  some, Text, length, is_empty, if◌then◌else◌,
}

abbrev pub newline : ℕ
newline = 10

abbrev pub buffer_limit : ℕ
buffer_limit = 65536

-- s[:i] and s[i+1:] at the first newline.
unfoldable pub cut_line : Text → Option (Text × Text)
cut_line [] = none
cut_line (c ∷ s) =
    let rest = cut_line s in
    if c == newline then some ([], s) else elim rest [ none ↦ none | some x ↦ some (c ∷ x.0, x.1) ]

-- `found` holds what was sent on the channel.
pub record ScanWriter {ℓ} (A : Type ℓ) : Type ℓ where
  pub buf : Text
  pub found : Option A

-- What a line says ends the scan.
unfoldable pub settle : {A : Type 0} → Option A → ScanWriter A → ScanWriter A
settle (some a) w = record { buf = []; found = some a }
settle none w = w

module _ {A : Type 0} (extract : Text → Option A) where
  -- One turn of the loop: the buffer's first line, and `next` for the rest.
  unfoldable pub turn : (next : Text → ScanWriter A) → Text → Option (Text × Text) → ScanWriter A
  turn next s none = record { buf = s; found = none }
  turn next s (some x) = settle (extract x.0) (next x.1)

  -- The loop over the lines of the buffer, on fuel.
  unfoldable pub scan : ℕ → Text → ScanWriter A
  scan zero s = record { buf = s; found = none }
  scan (suc n) s = turn (scan n) s (cut_line s)

  unfoldable pub bounded : ScanWriter A → ScanWriter A
  bounded w = elim w.found [
    | some a ↦ w
    | none ↦ if ltb buffer_limit (length w.buf) then record w { buf = [] } else w
  ]

  unfoldable pub write : Text → ScanWriter A → ScanWriter A
  write p w = elim w.found [ some a ↦ w | none ↦ let s = w.buf ++ p in bounded (scan (length s) s) ]

abbrev pub new_writer {ℓ} : {A : Type ℓ} → ScanWriter A
new_writer = record { buf = []; found = none }

-- The signal that readyScanWriter sends.
pub data Ready : Type 0 where
  ready : Ready

-- The pattern of the line that a named tunnel logs.
module _ (is_ready : Text → Bool) where
  unfoldable pub ready_line : Text → Option Ready
  ready_line s = if is_ready s then some ready else none

  abbrev pub ready_write : Text → ScanWriter Ready → ScanWriter Ready
  ready_write p w = write ready_line p w

-- The first match of the URL's pattern, or the empty text.
module _ (find_url : Text → Text) where
  unfoldable pub extract_url : Text → Option Text
  extract_url s = if is_empty (find_url s) then none else some (find_url s)

  abbrev pub url_write : Text → ScanWriter Text → ScanWriter Text
  url_write p w = write extract_url p w

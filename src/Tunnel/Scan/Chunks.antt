-- ===== src/Tunnel/Scan/Chunks.antt =====
-- The scan against the lines of the whole output.
use mathlib.Core.List.{append_assoc, append-nil}
use onesilo_node.Base.{
  ℕ, zero, suc, ◌≡◌, ◌≤◌, ◌<◌, ◌⊎◌, refl, sym, ap, subst, ◌∙◌, inl, inr, arith, ltb, ◌==◌, true,
  false, List, [], ◌∷◌, ◌++◌, Option, none, some, Text, length, Bool-cases, if◌then◌else◌,
}
use onesilo_node.Pairing.Responder.Steps.{if_false}
use onesilo_node.Tunnel.Scan.{
  newline, buffer_limit, cut_line, ScanWriter, settle, turn, scan, bounded, write, new_writer,
}

unfoldable pub concat : List Text → Text
concat [] = []
concat (p ∷ ps) = p ++ concat ps

-- The complete lines of an output, and what follows the last newline.
abbrev pub prepend : ℕ → List Text × Text → List Text × Text
prepend c ([], r) = ([], c ∷ r)
prepend c (l ∷ ls, r) = ((c ∷ l) ∷ ls, r)

unfoldable pub split_lines : Text → List Text × Text
split_lines [] = ([], [])
split_lines (c ∷ s) =
    let (ls, r) = split_lines s in if c == newline then ([] ∷ ls, r) else prepend c (ls, r)

abbrev or_else : {A : Type 0} → Option A → Option A → Option A
or_else (some a) o = some a
or_else none o = o

or_else_assoc : {A : Type 0} (a b c : Option A) → or_else a (or_else b c) ≡ or_else (or_else a b) c
or_else_assoc (some x) b c = refl
or_else_assoc none b c = refl

-- What the first line that says something says.
unfoldable pub first_of : {A : Type 0} → (Text → Option A) → List Text → Option A
first_of extract [] = none
first_of extract (l ∷ ls) = or_else (extract l) (first_of extract ls)

-- A text cut at its first newline, as its lines are.
cut_line-split :
    (s : Text)
    → ((cut_line s ≡ none) × (split_lines s ≡ ([], s)))
      ⊎ ((l : Text) × (t : Text) × (cut_line s ≡ some (l, t))
          × (split_lines s ≡ (l ∷ (split_lines t).0, (split_lines t).1))
          × (length t < length s))
unfolding cut_line split_lines
cut_line-split [] = inl (refl, refl)
cut_line-split (c ∷ s) = elim (Bool-cases (c == newline)) [
  | inl e ↦ inr ([], s, rw e refl, rw e refl, omega arith)
  | inr e ↦ elim (cut_line-split s) [
    | inl h ↦ inl (rw (e, h.0) refl, rw (e, h.1) refl)
    | inr h ↦
        let (l, t, a, b, d) = h in inr (c ∷ l, t, rw (e, a) refl, rw (e, b) refl, omega (arith, d))
  ]
]

split_newline :
    (c : ℕ) (s : Text)
    → (c == newline) ≡ true
    → split_lines (c ∷ s) ≡ ([] ∷ (split_lines s).0, (split_lines s).1)
unfolding split_lines
split_newline c s e = rw e refl

split_other :
    (c : ℕ) (s : Text) → (c == newline) ≡ false → split_lines (c ∷ s) ≡ prepend c (split_lines s)
unfolding split_lines
split_other c s e = rw e refl

-- The lines of an output that goes on.
abbrev resumed : List Text × Text → Text → List Text × Text
resumed (ls, r) p = (ls ++ (split_lines (r ++ p)).0, (split_lines (r ++ p)).1)

prepend-resumed :
    (c : ℕ) (x : List Text × Text) (p : Text)
    → (c == newline) ≡ false
    → prepend c (resumed x p) ≡ resumed (prepend c x) p
prepend-resumed c ([], r) p e = sym (split_other c (r ++ p) e)
prepend-resumed c (l ∷ ls, r) p e = refl

pub split_lines-append : (s p : Text) → split_lines (s ++ p) ≡ resumed (split_lines s) p
split_lines-append [] p = unfold split_lines in refl
split_lines-append (c ∷ s) p = elim (Bool-cases (c == newline)) [
  | inl e ↦ rw (split_newline c (s ++ p) e, split_newline c s e, split_lines-append s p) refl
  | inr e ↦
      rw (split_other c (s ++ p) e, split_other c s e, split_lines-append s p)
        (prepend-resumed c (split_lines s) p e)
]

module _ {A : Type 0} (extract : Text → Option A) where
  -- What the scan of a text should leave.
  abbrev scanned : Option A → Text → ScanWriter A
  scanned (some a) r = record { buf = []; found = some a }
  scanned none r = record { buf = r; found = none }

  abbrev result_of : List Text × Text → ScanWriter A
  result_of x = scanned (first_of extract x.0) x.1

  abbrev pub result : Text → ScanWriter A
  result s = result_of (split_lines s)

  scan_empty : scan extract zero [] ≡ result []
  unfolding scan first_of split_lines
  scan_empty = refl

  settle-scanned :
      (o : Option A) (t : Text) {w : ScanWriter A}
      → w ≡ result t
      → settle o w ≡ scanned (or_else o (first_of extract (split_lines t).0)) (split_lines t).1
  unfolding settle
  settle-scanned (some a) t e = refl
  settle-scanned none t e = e

  -- With fuel for every byte, the loop comes to the line that says something, or to a rest without a
  -- newline.
  pub scan-result : (n : ℕ) (s : Text) → length s ≤ n → scan extract n s ≡ result s
  unfolding scan turn settle first_of
  scan-result zero [] h = scan_empty
  scan-result zero (c ∷ s) h = absurd (omega (arith, h))
  scan-result (suc n) s h = elim (cut_line-split s) [
    | inl x ↦ ap (turn extract (scan extract n) s) x.0 ∙ sym (ap result_of x.1)
    | inr x ↦
        let (l, t, a, b, d) = x in
        ap (turn extract (scan extract n) s) a
        ∙ settle-scanned (extract l) t (scan-result n t (omega (arith, d, h)))
        ∙ sym (ap result_of b)
  ]

  -- The writer over an output that comes in chunks.
  unfoldable pub write_each : List Text → ScanWriter A → ScanWriter A
  write_each [] w = w
  write_each (p ∷ ps) w = write_each ps (write extract p w)

  first_of-append :
      (ls ms : List Text)
      → first_of extract (ls ++ ms) ≡ or_else (first_of extract ls) (first_of extract ms)
  unfolding first_of
  first_of-append [] ms = refl
  first_of-append (l ∷ ls) ms =
      ap (or_else (extract l)) (first_of-append ls ms)
      ∙ or_else_assoc (extract l) (first_of extract ls) (first_of extract ms)

  result-append :
      (s p : Text)
      → result (s ++ p)
        ≡ scanned
            (or_else
              (first_of extract (split_lines s).0)
              (first_of extract (split_lines ((split_lines s).1 ++ p)).0))
            (split_lines ((split_lines s).1 ++ p)).1
  result-append s p =
      ap result_of (split_lines-append s p)
      ∙ ap (λ o. scanned o (split_lines ((split_lines s).1 ++ p)).1)
          (first_of-append (split_lines s).0 (split_lines ((split_lines s).1 ++ p)).0)

  bounded-scanned :
      (o : Option A) (r : Text)
      → length r ≤ buffer_limit
      → bounded extract (scanned o r) ≡ scanned o r
  unfolding bounded
  bounded-scanned (some a) r h = refl
  bounded-scanned none r h = if_false (ltb buffer_limit (length r)) _ _ (ground (arith, h))

  write-scanned :
      (o : Option A) (r p : Text)
      → length (split_lines (r ++ p)).1 ≤ buffer_limit
      → write extract p (scanned o r)
        ≡ scanned (or_else o (first_of extract (split_lines (r ++ p)).0)) (split_lines (r ++ p)).1
  unfolding write
  write-scanned (some a) r p h = refl
  write-scanned none r p h =
      ap (bounded extract) (scan-result (length (r ++ p)) (r ++ p) (omega arith))
      ∙ bounded-scanned (first_of extract (split_lines (r ++ p)).0) _ h

  -- When a write ends, the line that is not yet complete is not longer than the buffer's limit.
  abbrev pub Fits : Text → List Text → Type 0
  Fits s [] = Unit
  Fits s (p ∷ ps) = (length (split_lines (s ++ p)).1 ≤ buffer_limit) × Fits (s ++ p) ps

  write_each-result :
      (ps : List Text) (s : Text) → Fits s ps → write_each ps (result s) ≡ result (s ++ concat ps)
  unfolding write_each concat
  write_each-result [] s h = ap result (sym (append-nil s))
  write_each-result (p ∷ ps) s h =
      ap (write_each ps) (
        write-scanned (first_of extract (split_lines s).0) (split_lines s).1 p
          (subst (λ x. length x.1 ≤ buffer_limit) (split_lines-append s p) h.0)
        ∙ sym (result-append s p))
      ∙ write_each-result ps (s ++ p) h.1
      ∙ ap result (append_assoc s p (concat ps))

  -- It does not matter how the output is cut into writes: the writer reports what the first complete
  -- line of the whole output says that says anything, and if there is none it holds the line that is
  -- not yet complete. No such line is longer than 64 KiB when a write ends.
  pub write_each-concat :
      (ps : List Text) → Fits [] ps → write_each ps new_writer ≡ result (concat ps)
  unfolding first_of split_lines
  write_each-concat ps h = write_each-result ps [] h

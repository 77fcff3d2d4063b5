-- ===== src/Memory/Query.antt =====
-- internal/memory/store.go, ftsMatchExpr: the query that is handed to FTS5. The fields are what
-- strings.Fields makes of the text.
use mathlib.Core.Path.{ap₂}
use mathlib.Core.List.{append_assoc}
use onesilo_node.Base.{
  ℕ, ◌≡◌, refl, sym, ap, ◌∙◌, false, List, [], ◌∷◌, ◌++◌, map, Option, none, some, Text, text, ◌==◌,
  if◌then◌else◌, Bool-cases, ==_iff, inl, inr,
}

abbrev pub quote : ℕ
quote = 34

-- strings.ReplaceAll(f, `"`, `""`).
unfoldable pub double_quotes : Text → Text
double_quotes [] = []
double_quotes (c ∷ s) =
    let rest = double_quotes s in if c == quote then quote ∷ quote ∷ rest else c ∷ rest

unfoldable pub quoted : Text → Text
quoted f = quote ∷ (double_quotes f ++ quote ∷ [])

abbrev pub or : Text
or = text " OR "

-- strings.Join(terms, " OR ").
unfoldable pub join_or : List Text → Text
join_or [] = []
join_or (t ∷ []) = t
join_or (t ∷ u ∷ ts) = t ++ (or ++ join_or (u ∷ ts))

unfoldable pub fts_match_expr : (fields : List Text) → Text
fts_match_expr fields = join_or (map quoted fields)

-- How FTS5 reads a string after its opening quote: two quotes stand for one, and one ends it. The
-- result is the content and what follows.
abbrev pub prefixed : ℕ → Option (Text × Text) → Option (Text × Text)
prefixed c none = none
prefixed c (some (f, r)) = some (c ∷ f, r)

unfoldable pub read_string : Text → Option (Text × Text)
read_string [] = none
read_string (c ∷ []) = if c == quote then some ([], []) else none
read_string (c ∷ d ∷ s) =
    let escaped = read_string s in
    let next = read_string (d ∷ s) in
    if c == quote
    then (if d == quote then prefixed quote escaped else some ([], d ∷ s))
    else prefixed c next

-- How it reads an expression as strings that are joined by OR.
pub data Reads : Text → List Text → Type 0 where
  one : {s f : Text} → read_string s ≡ some (f, []) → Reads (quote ∷ s) (f ∷ [])
  more :
      {s t f : Text} {fs : List Text}
      → read_string s ≡ some (f, or ++ t)
      → Reads t fs
      → Reads (quote ∷ s) (f ∷ fs)

read_string_other :
    (c : ℕ) (s : Text) → (c == quote) ≡ false → read_string (c ∷ s) ≡ prefixed c (read_string s)
unfolding read_string
read_string_other c [] e = rw e refl
read_string_other c (d ∷ s) e = rw e refl

read_string_escape : (s : Text) → read_string (quote ∷ quote ∷ s) ≡ prefixed quote (read_string s)
unfolding read_string
read_string_escape s = refl

-- What may follow a string.
abbrev IsEnd : Text → Type 0
IsEnd [] = Unit
IsEnd (c ∷ s) = (c == quote) ≡ false

read_string-double_quotes :
    (f rest : Text) → IsEnd rest → read_string (double_quotes f ++ quote ∷ rest) ≡ some (f, rest)
unfolding double_quotes
read_string-double_quotes [] [] h = unfold read_string in refl
read_string-double_quotes [] (d ∷ rest) h = unfold read_string in rw h refl
read_string-double_quotes (c ∷ f) rest h = elim (Bool-cases (c == quote)) [
  | inl e ↦
      rw (e, double_quotes)
        (read_string_escape _
          ∙ ap (prefixed quote) (read_string-double_quotes f rest h)
          ∙ ap (λ x. some (x ∷ f, rest)) (sym ((==_iff c quote).0 e)))
  | inr e ↦
      rw (e, double_quotes)
        (read_string_other c _ e ∙ ap (prefixed c) (read_string-double_quotes f rest h))
]

read_string-quoted :
    (f rest : Text)
    → IsEnd rest
    → read_string ((double_quotes f ++ quote ∷ []) ++ rest) ≡ some (f, rest)
read_string-quoted f rest h =
    ap read_string (append_assoc (double_quotes f) (quote ∷ []) rest)
    ∙ read_string-double_quotes f rest h

fts_match_expr-Reads : (f : Text) (fs : List Text) → Reads (fts_match_expr (f ∷ fs)) (f ∷ fs)
unfolding fts_match_expr join_or quoted
fts_match_expr-Reads f [] = one (read_string-double_quotes f [] tt)
fts_match_expr-Reads f (g ∷ fs) = more (read_string-quoted f _ refl) (fts_match_expr-Reads g fs)

same_reading :
    (x y : Option (Text × Text)) {f g r q : Text}
    → x ≡ y
    → x ≡ some (f, r)
    → y ≡ some (g, q)
    → (f ≡ g) × (r ≡ q)
same_reading x y h e d = (cc, cc)

tail : {a b : ℕ} {s t : Text} → a ∷ s ≡ b ∷ t → s ≡ t
tail e = cc

or_tail : {s t : Text} → or ++ s ≡ or ++ t → s ≡ t
or_tail e = cc

-- An expression has one reading at most.
Reads-unique : {s t : Text} {fs gs : List Text} → Reads s fs → Reads t gs → s ≡ t → fs ≡ gs
Reads-unique (one e) (one d) h = ap (λ x. x ∷ []) (same_reading _ _ (ap read_string (tail h)) e d).0
Reads-unique (one e) (more d r) h = absurd (cc ((same_reading _ _ (ap read_string (tail h)) e d).1))
Reads-unique (more e r) (one d) h = absurd (cc ((same_reading _ _ (ap read_string (tail h)) e d).1))
Reads-unique (more e r) (more d q) h =
    let (f, g) = same_reading _ _ (ap read_string (tail h)) e d in
    ap₂ (λ x y. x ∷ y) f (Reads-unique r q (or_tail g))

-- Whatever the fields of a query are, also with quotes or operators in them: the expression reads as
-- these fields as strings, joined by OR, and in no other way.
pub fts_match_expr_read :
    (f : Text) (fs : List Text)
    → Reads (fts_match_expr (f ∷ fs)) (f ∷ fs)
      × ((gs : List Text) → Reads (fts_match_expr (f ∷ fs)) gs → gs ≡ f ∷ fs)
fts_match_expr_read f fs = let r = fts_match_expr-Reads f fs in (r, λ gs q. Reads-unique q r refl)

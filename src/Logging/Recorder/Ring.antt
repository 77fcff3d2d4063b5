-- ===== src/Logging/Recorder/Ring.antt =====
-- The ring against the plain list of everything that was written.
use native.Mathlib.Decide.{dec_lt}
use mathlib.Core.List.{append-nil, append_assoc}
use native.Mathlib.Nat.{mod-lt, zero-mod, mod-add-mod, mod-mod, mod-eq-sub-mod, div-add-mod}
use onesilo_node.Base.{
  ℕ, zero, suc, ◌+◌, ◌-◌, ◌/◌, ◌%◌, ◌≤◌, ◌<◌, min, ◌≡◌, ◌≢◌, refl, sym, ap, subst, ◌∙◌, inl, inr,
  true, false, List, [], ◌∷◌, ◌++◌, Option, some, arith, Text, is_empty, length, get_elem?, set,
  drop, replicate, length-append, length-replicate, ◌==◌, ==_iff, Bool-cases, if◌then◌else◌,
}
use onesilo_node.Base.Int.{ℤ, pos, negsuc}
use onesilo_node.Base.Chain.{◌>>=◌}
use onesilo_node.Logging.Recorder.{
  LogRecord, Recorder, no_record, size_or, default_recorder_capacity, new_recorder, trim_newlines,
  write_line, write, backlog_from, backlog, u64,
}

-- Two positions of one round of the ring are apart.
mod-apart : (p n c : ℕ) → p < n → n < p + c → p % c ≢ n % c
mod-apart p n c h k e = go
  where
    low : n / c ≤ p / c → ⊥
    low l = grind (arith, div-add-mod p c, div-add-mod n c)

    high : p / c < n / c → ⊥
    high l = grind (arith, div-add-mod p c, div-add-mod n c)

    go : ⊥
    go = ground (arith, low, high)

module _ {ℓ} {A : Type ℓ} where
  pub length-set : (xs : List A) (i : ℕ) (v : A) → length (set xs i v) ≡ length xs
  length-set [] i v = refl
  length-set (x ∷ xs) zero v = refl
  length-set (x ∷ xs) (suc i) v = ap suc (length-set xs i v)

  get_elem?-set_self :
      (xs : List A) (i : ℕ) (v : A) → i < length xs → get_elem? (set xs i v) i ≡ some v
  get_elem?-set_self [] i v h = elim h [ ]
  get_elem?-set_self (x ∷ xs) zero v h = refl
  get_elem?-set_self (x ∷ xs) (suc i) v h = get_elem?-set_self xs i v (omega arith)

  get_elem?-set_ne :
      (xs : List A) (i j : ℕ) (v : A) → i ≢ j → get_elem? (set xs i v) j ≡ get_elem? xs j
  get_elem?-set_ne [] i j v h = refl
  get_elem?-set_ne (x ∷ xs) zero zero v h = absurd (h refl)
  get_elem?-set_ne (x ∷ xs) zero (suc j) v h = refl
  get_elem?-set_ne (x ∷ xs) (suc i) zero v h = refl
  get_elem?-set_ne (x ∷ xs) (suc i) (suc j) v h = get_elem?-set_ne xs i j v (λ e. h (ap suc e))

  get_elem?-append_left :
      (xs ys : List A) (i : ℕ) → i < length xs → get_elem? (xs ++ ys) i ≡ get_elem? xs i
  get_elem?-append_left [] ys i h = elim h [ ]
  get_elem?-append_left (x ∷ xs) ys zero h = refl
  get_elem?-append_left (x ∷ xs) ys (suc i) h = get_elem?-append_left xs ys i (omega arith)

  get_elem?-append_last : (xs : List A) (x : A) → get_elem? (xs ++ x ∷ []) (length xs) ≡ some x
  get_elem?-append_last [] x = refl
  get_elem?-append_last (y ∷ xs) x = get_elem?-append_last xs x

  drop_step :
      (xs : List A) (i : ℕ)
      → i < length xs
      → (x : A) × (get_elem? xs i ≡ some x) × (drop i xs ≡ x ∷ drop (suc i) xs)
  drop_step [] i h = elim h [ ]
  drop_step (x ∷ xs) zero h = (x, refl, refl)
  drop_step (x ∷ xs) (suc i) h = drop_step xs i (omega arith)

  drop-length : (xs : List A) → drop (length xs) xs ≡ []
  drop-length [] = refl
  drop-length (x ∷ xs) = drop-length xs

-- The ring `r` of `c` cells holds the end of the history `h`.
record Holds (c : ℕ) (h : List LogRecord) (r : Recorder) : Type 0 where
  pub positive : 0 < c
  pub size : length r.ring ≡ c
  pub cursor : r.next ≡ length h % c
  pub count : r.filled ≡ min (length h) c
  pub cell : (p : ℕ) → p < length h → length h ≤ p + c → get_elem? r.ring (p % c) ≡ get_elem? h p

backlog_from-mod :
    (i a b : ℕ) (ring : List LogRecord)
    → a % length ring ≡ b % length ring
    → backlog_from i a ring ≡ backlog_from i b ring
unfolding backlog_from
backlog_from-mod zero a b ring e = refl
backlog_from-mod (suc i) a b ring e =
    let next : (a + 1) % length ring ≡ (b + 1) % length ring =
      sym (mod-add-mod a (length ring) 1)
      ∙ ap (λ x. (x + 1) % length ring) e
      ∙ mod-add-mod b (length ring) 1 in
    rw (e, backlog_from-mod i (a + 1) (b + 1) ring next)

module _ (c : ℕ) (h : List LogRecord) (r : Recorder) (v : Holds c h r) where
  backlog_from-drop :
      (i p : ℕ) → p + i ≡ length h → length h ≤ p + c → backlog_from i p r.ring ≡ some (drop p h)
  unfolding backlog_from
  backlog_from-drop zero p e k = let at : p ≡ length h = omega arith in rw (at, drop-length h)
  backlog_from-drop (suc i) p e k =
      let (x, here, split) = drop_step h p (omega arith) in
      let add : p + 1 ≡ suc p = omega arith in
      rw (
        v.size,
        v.cell p (omega arith) k,
        here,
        backlog_from-drop i (p + 1) (omega arith) (omega arith),
        add,
        split,
      )

  full : c ≤ length h → backlog (some r) ≡ some (drop (length h - c) h)
  unfolding backlog
  full k =
      let count : r.filled ≡ c = omega (arith, v.count) in
      let same : (c == c) ≡ true = (==_iff c c).1 refl in
      let round : (length h % c) % length r.ring ≡ (length h - c) % length r.ring =
        rw v.size (mod-mod (length h) c ∙ mod-eq-sub-mod k) in
      rw (count, v.size, same, v.cursor)
        (backlog_from-mod c (length h % c) (length h - c) r.ring round
          ∙ backlog_from-drop c (length h - c) (omega arith) (omega arith))

  filling : length h < c → backlog (some r) ≡ some (drop (length h - c) h)
  unfolding backlog
  filling k =
      let count : r.filled ≡ length h = omega (arith, v.count) in
      let apart : (length h == c) ≡ false = ground arith in
      let none_gone : length h - c ≡ 0 = omega arith in
      rw (count, v.size, apart, none_gone)
        (backlog_from-drop (length h) 0 (omega arith) (omega arith))

  backlog-Holds : backlog (some r) ≡ some (drop (length h - c) h)
  backlog-Holds = elim (dec_lt (length h) c) [ yes k ↦ filling k | no k ↦ full (omega arith) ]

  write_line-Holds :
      (notice : ℕ → Text) (line : Text)
      → Holds c (h ++ record { seq = u64 (r.seq + 1); line = line } ∷ []) (write_line notice line r)
  unfolding write_line
  write_line-Holds notice line = record {
    positive = v.positive;
    size = length-set r.ring r.next rec ∙ v.size;
    cursor = rw (v.size, v.cursor, len) (mod-add-mod (length h) c 1);
    count = rw (v.size, len) (ground (arith, v.count));
    cell = cell;
  }
    where
      rec : LogRecord
      rec = record { seq = u64 (r.seq + 1); line = line }

      len : length (h ++ rec ∷ []) ≡ length h + 1
      len = length-append h (rec ∷ [])

      cell :
          (p : ℕ)
          → p < length (h ++ rec ∷ [])
          → length (h ++ rec ∷ []) ≤ p + c
          → get_elem? (set r.ring r.next rec) (p % c) ≡ get_elem? (h ++ rec ∷ []) p
      cell p k l = elim (dec_lt p (length h)) [
        | yes m ↦ rw v.cursor (
            get_elem?-set_ne r.ring (length h % c) (p % c) rec
              (λ e. mod-apart p (length h) c m (omega (arith, len)) (sym e))
            ∙ v.cell p m (omega (arith, len))
            ∙ sym (get_elem?-append_left h (rec ∷ []) p m))
        | no m ↦
            let at : p ≡ length h = omega (arith, len) in
            rw (at, v.cursor)
              (get_elem?-set_self r.ring (length h % c) rec
                  (rw v.size (mod-lt (length h) v.positive))
                ∙ sym (get_elem?-append_last h rec))
      ]

-- The records of the lines that are not empty, numbered on from `n`.
abbrev pub number : ℕ → List Text → List LogRecord
number n [] = []
number n (l ∷ ls) = record { seq = u64 (n + 1); line = l } ∷ number (u64 (n + 1)) ls

abbrev pub lines_of : List Text → List Text
lines_of [] = []
lines_of (p ∷ ps) =
    let line = trim_newlines p in
    let rest = lines_of ps in if is_empty line then rest else line ∷ rest

unfoldable pub write_each : (ℕ → Text) → List Text → Recorder → Option Recorder
write_each notice [] r = some r
write_each notice (p ∷ ps) r = (write notice p (some r)).0 >>= write_each notice ps

write_each-Holds :
    (notice : ℕ → Text) (c : ℕ) (h : List LogRecord) (ps : List Text) (r : Recorder)
    → Holds c h r
    → (t : Recorder) × (write_each notice ps r ≡ some t)
      × Holds c (h ++ number r.seq (lines_of ps)) t
unfolding write_each write write_line
write_each-Holds notice c h [] r v = (r, refl, rw append-nil v)
write_each-Holds notice c h (p ∷ ps) r v = elim (Bool-cases (is_empty (trim_newlines p))) [
  | inl e ↦ rw e (write_each-Holds notice c h ps r v)
  | inr e ↦
      let rec : LogRecord = record { seq = u64 (r.seq + 1); line = trim_newlines p } in
      let (t, w, k) =
        write_each-Holds notice c (h ++ rec ∷ []) ps (write_line notice (trim_newlines p) r)
          (write_line-Holds c h r v notice (trim_newlines p)) in
      rw e (t, w, subst (λ l. Holds c l t) (append_assoc h _ _) (unfold write_line in k))
]

empty-Holds :
    (c : ℕ)
    → 0 < c
    → (r : Recorder) → r.ring ≡ replicate c no_record
    → r.next ≡ 0
    → r.filled ≡ 0
    → Holds c [] r
empty-Holds c k r ring next filled = record {
  positive = k;
  size = rw ring (length-replicate c no_record);
  cursor = rw next (sym (zero-mod c));
  count = rw filled (omega arith);
  cell = λ p l. elim l [ ];
}

size_or_pos : (d : ℕ) (z : ℤ) → 0 < d → 0 < size_or d z
size_or_pos d (pos zero) h = h
size_or_pos d (pos (suc n)) h = omega arith
size_or_pos d (negsuc n) h = h

-- The last `n` of a list.
abbrev pub last {ℓ} : {A : Type ℓ} → ℕ → List A → List A
last n xs = drop (length xs - n) xs

-- Whatever was written to a new recorder, the backlog is there, and it is exactly the last records
-- of the history, oldest first, as many as the capacity: the non-empty lines in the order in which
-- they came, numbered from 1 (modulo 2^64).
pub backlog-write_each :
    (notice : ℕ → Text) (capacity : ℤ) (ps : List Text)
    → backlog (write_each notice ps (new_recorder capacity))
      ≡ some (last (size_or default_recorder_capacity capacity) (number 0 (lines_of ps)))
unfolding new_recorder
backlog-write_each notice capacity ps =
    let c = size_or default_recorder_capacity capacity in
    let start =
      empty-Holds c (size_or_pos _ capacity (omega arith)) (new_recorder capacity) refl refl refl in
    let (t, w, k) = write_each-Holds notice c [] ps (new_recorder capacity) start in
    rw w (backlog-Holds c (number 0 (lines_of ps)) t k)

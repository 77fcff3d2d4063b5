-- ===== src/Logging/Recorder.antt =====
-- internal/logging/recorder.go, lines 28 to 189: the ring of recent records and its subscribers. A
-- method runs under the recorder's lock and returns the new recorder. `none` is a nil *Recorder, or
-- an index out of range.
pub mod Ring
pub mod Stream
mod Tests
use onesilo_node.Base.{
  ℕ, zero, suc, ◌+◌, ◌%◌, ◌^◌, Bool, true, false, ◌&&◌, List, [], ◌∷◌, ◌++◌, map, Option, none,
  some, Text, is_empty, length, get_elem?, set, replicate, ltb, ◌==◌, if◌then◌else◌,
}
use onesilo_node.Base.Int.{ℤ, pos, negsuc}
use onesilo_node.Base.Chain.{◌>>=◌}

pub record LogRecord : Type 0 where
  pub seq : ℕ  -- uint64
  pub line : Text

-- `chan` holds what the buffered channel holds, oldest first.
pub record Subscriber : Type 0 where
  pub chan : List LogRecord
  pub buffer : ℕ
  pub dropped : ℕ

pub record Recorder : Type 0 where
  pub ring : List LogRecord
  pub next : ℕ
  pub filled : ℕ
  pub seq : ℕ
  pub subs : List (ℕ × Subscriber)
  pub next_sub : ℕ

abbrev pub default_recorder_capacity : ℕ
default_recorder_capacity = 1000

abbrev pub no_record : LogRecord
no_record = record { seq = 0; line = [] }

-- The default stands in for a size that is not positive.
abbrev pub size_or : ℕ → ℤ → ℕ
size_or d (pos zero) = d
size_or d (pos (suc n)) = suc n
size_or d (negsuc n) = d

pub new_recorder : ℤ → Recorder
new_recorder capacity = record {
  ring = replicate (size_or default_recorder_capacity capacity) no_record;
  next = 0;
  filled = 0;
  seq = 0;
  subs = [];
  next_sub = 0;
}

-- bytes.TrimRight(p, "\n").
pub trim_newlines : Text → Text
trim_newlines [] = []
trim_newlines (b ∷ s) =
    let rest = trim_newlines s in if is_empty rest && b == 10 then [] else b ∷ rest

-- A channel send that does not block: `none` if the buffer is full.
pub try_send : LogRecord → Subscriber → Option Subscriber
try_send rec s =
    if ltb (length s.chan) s.buffer then some (record s { chan = s.chan ++ rec ∷ [] }) else none

pub deliver : LogRecord → Subscriber → Subscriber
deliver rec s = elim (try_send rec s) [ some t ↦ t | none ↦ record s { dropped = s.dropped + 1 } ]

-- `notice` is the JSON line that reports a number of dropped records.
pub send : (ℕ → Text) → LogRecord → Subscriber → Subscriber
unfolding deliver
send notice rec s =
    if ltb 0 s.dropped
    then elim (try_send (record { seq = rec.seq; line = notice s.dropped }) s) [
      | some t ↦ deliver rec (record t { dropped = 0 })
      | none ↦ record s { dropped = s.dropped + 1 }
    ]
    else deliver rec s

abbrev pub u64 : ℕ → ℕ
u64 n = n % 2 ^ 64

pub send_all : (ℕ → Text) → LogRecord → List (ℕ × Subscriber) → List (ℕ × Subscriber)
send_all notice rec = map λ e. (e.0, send notice rec e.1)

-- `Write` on a line that is not empty.
pub write_line : (ℕ → Text) → Text → Recorder → Recorder
unfolding send_all
write_line notice line r =
    let rec : LogRecord = record { seq = u64 (r.seq + 1); line = line } in
    record r {
      seq = u64 (r.seq + 1);
      ring = set r.ring r.next rec;
      next = (r.next + 1) % length r.ring;
      filled = if ltb r.filled (length r.ring) then r.filled + 1 else r.filled;
      subs = send_all notice rec r.subs;
    }

-- The count that `Write` returns is always the length of `p`.
pub write : (ℕ → Text) → Text → Option Recorder → Option Recorder × ℕ
unfolding write_line
write notice p none = (none, length p)
write notice p (some r) =
    let line = trim_newlines p in
    (some (if is_empty line then r else write_line notice line r), length p)

-- The loop of `Backlog`, with `i` rounds left and the index `start + i` in hand.
pub backlog_from : ℕ → ℕ → List LogRecord → Option (List LogRecord)
backlog_from zero at ring = some []
backlog_from (suc i) at ring = do
  rec ← get_elem? ring (at % length ring)
  rest ← backlog_from i (at + 1) ring
  some (rec ∷ rest)

pub backlog : Option Recorder → Option (List LogRecord)
unfolding backlog_from
backlog none = some []
backlog (some r) =
    let start = if r.filled == length r.ring then r.next else 0 in
    backlog_from r.filled start r.ring

abbrev pub default_buffer : ℕ
default_buffer = 256

-- The id stands for the channel and its cancel function. A nil recorder has neither record nor
-- subscriber.
pub subscribe : ℤ → Option Recorder → Option Recorder × Option ℕ
subscribe buffer none = (none, none)
subscribe buffer (some r) =
    let sub : Subscriber = record {
      chan = [];
      buffer = size_or default_buffer buffer;
      dropped = 0;
    } in
    (
      some (record r { subs = (r.next_sub, sub) ∷ r.subs; next_sub = r.next_sub + 1 }),
      some r.next_sub,
    )

pub drop_sub : ℕ → List (ℕ × Subscriber) → List (ℕ × Subscriber)
drop_sub id [] = []
drop_sub id ((i, s) ∷ l) = let rest = drop_sub id l in if i == id then rest else (i, s) ∷ rest

pub cancel : ℕ → Option Recorder → Option Recorder
unfolding drop_sub
cancel id none = none
cancel id (some r) = some (record r { subs = drop_sub id r.subs })

pub subscribers : Option Recorder → ℕ
subscribers none = 0
subscribers (some r) = length r.subs

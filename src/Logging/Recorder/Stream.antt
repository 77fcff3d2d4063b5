-- ===== src/Logging/Recorder/Stream.antt =====
-- What a console reads from its channel, against what the recorder sent to it.
use mathlib.Core.List.{append-nil, append_assoc, map-append}
use onesilo_node.Base.{
  ℕ, ◌+◌, ◌≤◌, ◌<◌, ◌≡◌, refl, sym, ap, subst, ◌∙◌, inl, inr, List, [], ◌∷◌, ◌++◌, map, arith, Text,
  length, length-append, ltb, ltb→lt, Bool-cases,
}
use onesilo_node.Logging.Recorder.{LogRecord, Subscriber, try_send, deliver, send}

-- A subscription and what its reader has taken from the channel so far.
pub record Console : Type 0 where
  pub sub : Subscriber
  pub seen : List LogRecord

pub data StreamEvent : Type 0 where
  sends : LogRecord → StreamEvent
  receives : StreamEvent

-- The reader takes the oldest record; on an empty channel it waits.
take_oldest : List LogRecord → Console → Console
take_oldest [] c = c
take_oldest (x ∷ xs) c = record c { sub = record (c.sub) { chan = xs }; seen = c.seen ++ x ∷ [] }

unfoldable pub step : (ℕ → Text) → StreamEvent → Console → Console
unfolding take_oldest
step notice (sends rec) c = record c { sub = send notice rec c.sub }
step notice receives c = take_oldest c.sub.chan c

unfoldable pub run : (ℕ → Text) → List StreamEvent → Console → Console
run notice [] c = c
run notice (e ∷ es) c = run notice es (step notice e c)

abbrev pub sent : List StreamEvent → List LogRecord
sent [] = []
sent (sends rec ∷ es) = rec ∷ sent es
sent (receives ∷ es) = sent es

-- What a record on the channel stands for: itself, or the records that were dropped just before
-- the record whose number the notice borrows.
pub data Item : Type 0 where
  one : LogRecord → Item
  gap : LogRecord → List LogRecord → Item

abbrev pub render : (ℕ → Text) → Item → LogRecord
render notice (one rec) = rec
render notice (gap rec missed) = record { seq = rec.seq; line = notice (length missed) }

abbrev pub stands_for : Item → List LogRecord
stands_for (one rec) = rec ∷ []
stands_for (gap rec missed) = missed

abbrev pub expand : List Item → List LogRecord
expand [] = []
expand (i ∷ is) = stands_for i ++ expand is

expand-append : (xs ys : List Item) → expand (xs ++ ys) ≡ expand xs ++ expand ys
expand-append [] ys = refl
expand-append (x ∷ xs) ys =
    rw (expand-append xs ys) (sym (append_assoc (stands_for x) (expand xs) (expand ys)))

-- The records sent are exactly those that the reader has seen, that wait in the channel and that
-- are counted as dropped, in this order, where a notice stands for the records that it reports.
pub record Accounts (notice : ℕ → Text) (total : List LogRecord) (c : Console) : Type 0 where
  pub read : List Item
  pub queued : List Item
  pub missed : List LogRecord
  pub seen_eq : c.seen ≡ map (render notice) read
  pub chan_eq : c.sub.chan ≡ map (render notice) queued
  pub dropped_eq : c.sub.dropped ≡ length missed
  pub within : length c.sub.chan ≤ c.sub.buffer
  pub total_eq : total ≡ expand read ++ (expand queued ++ missed)

module _ (notice : ℕ → Text) (total : List LogRecord) where
  -- One more item on the channel.
  queue_item :
      (c : Console) (a : Accounts notice total c) (i : Item) (x : LogRecord) (d : ℕ)
      (after new rest : List LogRecord)
      → length c.sub.chan < c.sub.buffer
      → x ≡ render notice i
      → d ≡ length rest
      → after ≡ total ++ new
      → a.missed ++ new ≡ stands_for i ++ rest
      → Accounts notice after
          (record c { sub = record (c.sub) { chan = c.sub.chan ++ x ∷ []; dropped = d } })
  queue_item c a i x d after new rest room r k t e = record {
    read = a.read;
    queued = a.queued ++ i ∷ [];
    missed = rest;
    seen_eq = a.seen_eq;
    chan_eq = rw (a.chan_eq, r) (sym (map-append (render notice) a.queued (i ∷ [])));
    dropped_eq = k;
    within = rw length-append (omega arith);
    total_eq = rw (t, a.total_eq) (simp (append_assoc, expand-append, e, append-nil));
  }

  -- One more record that did not fit.
  miss_one :
      (c : Console) (a : Accounts notice total c) (rec : LogRecord)
      → Accounts notice
          (total ++ rec ∷ [])
          (record c { sub = record (c.sub) { dropped = c.sub.dropped + 1 } })
  miss_one c a rec = record {
    read = a.read;
    queued = a.queued;
    missed = a.missed ++ rec ∷ [];
    seen_eq = a.seen_eq;
    chan_eq = a.chan_eq;
    dropped_eq = rw length-append (omega (arith, a.dropped_eq));
    within = a.within;
    total_eq = rw a.total_eq (simp append_assoc);
  }

  deliver-Accounts :
      (c : Console) (a : Accounts notice total c) (rec : LogRecord)
      → a.missed ≡ []
      → Accounts notice (total ++ rec ∷ []) (record c { sub = deliver rec c.sub })
  unfolding deliver try_send
  deliver-Accounts c a rec e = elim (Bool-cases (ltb (length c.sub.chan) c.sub.buffer)) [
    | inl room ↦
        rw (room, deliver)
          (queue_item c a (one rec) rec c.sub.dropped _ (rec ∷ []) [] (ltb→lt _ _ room) refl
            (a.dropped_eq ∙ ap length e) refl (rw e))
    | inr none_left ↦ rw (none_left, deliver) (miss_one c a rec)
  ]

module _ (notice : ℕ → Text) (total : List LogRecord) where
  send-Accounts :
      (c : Console) (rec : LogRecord)
      → Accounts notice total c
      → Accounts notice (total ++ rec ∷ []) (record c { sub = send notice rec c.sub })
  unfolding send try_send queue_item
  send-Accounts c rec a = elim (Bool-cases (ltb 0 c.sub.dropped)) [
    | inr clean ↦
        rw (clean, send)
          (deliver-Accounts notice total c a rec (empty a.missed (ground (arith, a.dropped_eq))))
    | inl behind ↦ elim (Bool-cases (ltb (length c.sub.chan) c.sub.buffer)) [
      | inr none_left ↦ rw (behind, none_left, send) (miss_one notice total c a rec)
      | inl room ↦
          let confessed =
            queue_item notice total c a (gap rec a.missed) (told c.sub.dropped) 0 total [] []
              (ltb→lt _ _ room) (ap told a.dropped_eq) refl (sym (append-nil total)) refl in
          rw (behind, room, send) (deliver-Accounts notice total _ confessed rec refl)
    ]
  ]
    where
      told : ℕ → LogRecord
      told n = record { seq = rec.seq; line = notice n }

      empty : (l : List LogRecord) → length l ≡ 0 → l ≡ []
      empty [] h = refl
      empty (x ∷ l) h = absurd (omega arith)

  -- The reader moves the front of the channel to what it has seen.
  receive-Accounts :
      (c : Console) → Accounts notice total c → Accounts notice total (step notice receives c)
  unfolding step
  receive-Accounts c a = front a.queued refl c.sub.chan refl
    where
      front :
          (q : List Item)
          → a.queued ≡ q
          → (xs : List LogRecord) → c.sub.chan ≡ xs
          → Accounts notice total (take_oldest xs c)
      front q e [] f = a
      front [] e (x ∷ xs) f = absurd (cc (a.chan_eq, ap (map (render notice)) e))
      front (i ∷ q) e (x ∷ xs) f =
          let both : x ∷ xs ≡ render notice i ∷ map (render notice) q =
            sym f ∙ a.chan_eq ∙ ap (map (render notice)) e in
          record {
            read = a.read ++ i ∷ [];
            queued = q;
            missed = a.missed;
            seen_eq =
                rw (a.seen_eq, map-append (render notice) a.read (i ∷ []))
                  (ap (λ y. map (render notice) a.read ++ y ∷ []) (cc both));
            chan_eq = cc both;
            dropped_eq = a.dropped_eq;
            within = omega (arith, a.within, ap length f);
            total_eq = rw (a.total_eq, e) (simp (expand-append, append_assoc, append-nil));
          }

run-Accounts :
    (notice : ℕ → Text) (es : List StreamEvent) (total : List LogRecord) (c : Console)
    → Accounts notice total c
    → Accounts notice (total ++ sent es) (run notice es c)
unfolding run
run-Accounts notice [] total c a = rw append-nil a
run-Accounts notice (sends rec ∷ es) total c a =
    subst (λ l. Accounts notice l (run notice es (step notice (sends rec) c)))
      (append_assoc total (rec ∷ []) (sent es))
      (run-Accounts notice es (total ++ rec ∷ []) (step notice (sends rec) c)
        (unfold step in send-Accounts notice total c rec a))
run-Accounts notice (receives ∷ es) total c a =
    run-Accounts notice es total (step notice receives c) (receive-Accounts notice total c a)

abbrev pub fresh : ℕ → Console
fresh buffer = record { sub = record { chan = []; buffer = buffer; dropped = 0 }; seen = [] }

-- For every interleaving of sends and reads on a new subscription: what the reader has seen and what
-- waits for it stand, in order, for exactly the records that were sent, up to the last ones that
-- are still only counted as dropped; each notice reports the number of the records that it stands
-- for, and the channel is never fuller than its buffer.
pub run_fresh-Accounts :
    (notice : ℕ → Text) (es : List StreamEvent) (buffer : ℕ)
    → Accounts notice (sent es) (run notice es (fresh buffer))
run_fresh-Accounts notice es buffer = run-Accounts notice es [] (fresh buffer) (record {
  read = [];
  queued = [];
  missed = [];
  seen_eq = refl;
  chan_eq = refl;
  dropped_eq = refl;
  within = omega arith;
  total_eq = refl;
})

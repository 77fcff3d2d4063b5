-- ===== src/Memory/Store/Forgotten.antt =====
-- What Forget leaves of a memory.
use onesilo_node.Base.{
  ℕ, ◌≡◌, refl, ap, subst, Bool, true, false, not, ◌&&◌, ◌||◌, List, [], ◌∷◌, ◌++◌, Option, none,
  some, arith, Text, text_eq, text_eq_iff, text_eq_refl, text_eq_comm, All, ◌==◌, length,
  if◌then◌else◌, Bool-cases, inl, inr,
}
use onesilo_node.Base.Result.{ok}
use onesilo_node.Memory.Store.{
  Row, EmbeddingRow, Store, keep, find, is_at, has_id, get, rows_without, fts_without,
  embeddings_without, deleted, delete_found, delete_memory, put_embedding,
}
use onesilo_node.Memory.Vectors.{encode_vector}
use onesilo_node.Memory.Store.Indexed.{IsIndexed}
use onesilo_node.Memory.Store.Rows.{Distinct, has_id-keep}
use onesilo_node.Memory.Calls.{Cipher, vectors, remember_embeds, forget, of_delete}

-- A row that is found stands in the table.
pub data IsRow (r : Row) : List Row → Type 0 where
  here : (rs : List Row) → IsRow r (r ∷ rs)
  there : (q : Row) (rs : List Row) → IsRow r rs → IsRow r (q ∷ rs)

pub find-IsRow :
    (silo id : Text) (rs : List Row) (r : Row)
    → find (is_at silo id) rs ≡ some r
    → IsRow r rs × ((r.id ≡ id) × (r.silo_id ≡ silo))
unfolding find
find-IsRow silo id [] r h = absurd (cc)
find-IsRow silo id (q ∷ rs) r h = elim (Bool-cases (is_at silo id q)) [
  | inl e ↦
      let p : q ≡ r = ground arith in
      let a : text_eq q.id id ≡ true = ground arith in
      let b : text_eq q.silo_id silo ≡ true = ground arith in
      subst (λ r. IsRow r (q ∷ rs) × ((r.id ≡ id) × (r.silo_id ≡ silo))) p
        (here rs, ((text_eq_iff q.id id).0 a, (text_eq_iff q.silo_id silo).0 b))
  | inr e ↦ let (w, x) = find-IsRow silo id rs r (ground arith) in (there q rs w, x)
]

other_id :
    (x : Text) (r : Row) {rs : List Row} → IsRow r rs → has_id x rs ≡ false → text_eq r.id x ≡ false
unfolding has_id
other_id x r (here rs) h = ground arith
other_id x r (there q rs w) h = other_id x r w (ground arith)

other_rowid :
    (i : ℕ) (r : Row) {rs : List Row}
    → IsRow r rs
    → All (λ q. (q.rowid == i) ≡ false) rs
    → (r.rowid == i) ≡ false
other_rowid i r (here rs) h = h.0
other_rowid i r (there q rs w) h = other_rowid i r w h.1

-- Without the rowid of a row, the table has no row of its id.
has_id-rows_without :
    (r : Row) {rs : List Row}
    → IsRow r rs
    → Distinct rs
    → has_id r.id (rows_without r.rowid rs) ≡ false
unfolding has_id rows_without keep
has_id-rows_without r (here rs) d =
    let e : (r.rowid == r.rowid) ≡ true = ground arith in
    rw e (has_id-keep (λ q. not (q.rowid == r.rowid)) r.id rs d.0)
has_id-rows_without r (there q rs w) d =
    let e : (q.rowid == r.rowid) ≡ false = ground (arith, other_rowid q.rowid r w d.1.0) in
    rw (e, text_eq_comm q.id r.id, other_id q.id r w d.0) (has_id-rows_without r w d.1.1)

rows_without_none :
    (i : ℕ) (rs : List Row) → All (λ q. (q.rowid == i) ≡ false) rs → rows_without i rs ≡ rs
unfolding rows_without keep
rows_without_none i [] h = refl
rows_without_none i (q ∷ rs) h = rw h.0 (ap (◌∷◌ q) (rows_without_none i rs h.1))

-- Rows of other ids stay.
find-rows_without :
    (silo id : Text) (r : Row) {rs : List Row}
    → IsRow r rs
    → Distinct rs
    → text_eq r.id id ≡ false
    → find (is_at silo id) (rows_without r.rowid rs) ≡ find (is_at silo id) rs
unfolding find rows_without keep
find-rows_without silo id r (here rs) d n =
    let e : (r.rowid == r.rowid) ≡ true = ground arith in
    rw (e, n)
      (ap (find (is_at silo id)) (unfold rows_without keep in rows_without_none r.rowid rs d.1.0))
find-rows_without silo id r (there q rs w) d n =
    let e : (q.rowid == r.rowid) ≡ false = ground (arith, other_rowid q.rowid r w d.1.0) in
    rw e (ap (λ x. if is_at silo id q then some q else x) (find-rows_without silo id r w d.1.1 n))

unfoldable pub has_embedding : (id : Text) → List EmbeddingRow → Bool
has_embedding id [] = false
has_embedding id (e ∷ es) = text_eq e.memory_id id || has_embedding id es

has_embedding-without :
    (id : Text) (es : List EmbeddingRow) → has_embedding id (embeddings_without id es) ≡ false
unfolding has_embedding embeddings_without keep
has_embedding-without id [] = refl
has_embedding-without id (e ∷ es) = elim (Bool-cases (text_eq e.memory_id id)) [
  | inl h ↦ rw h (has_embedding-without id es)
  | inr h ↦ rw h (rw h (has_embedding-without id es))
]

has_embedding-append :
    (id : Text) (es : List EmbeddingRow) (e : EmbeddingRow)
    → e.memory_id ≡ id
    → has_embedding id (es ++ e ∷ []) ≡ true
unfolding has_embedding
has_embedding-append id [] e h = rw (h, text_eq_refl id) refl
has_embedding-append id (x ∷ es) e h = rw (has_embedding-append id es e h) (ground arith)

find-none : (silo id : Text) (rs : List Row) → has_id id rs ≡ false → find (is_at silo id) rs ≡ none
unfolding find has_id
find-none silo id [] h = refl
find-none silo id (q ∷ rs) h =
    let e : text_eq q.id id ≡ false = ground arith in rw e (find-none silo id rs (ground arith))

delete_again :
    (silo id : Text) (o : Option Row) (s : Store)
    → o ≡ none
    → of_delete (delete_found none id o s) ≡ (s, ok false)
unfolding delete_found
delete_again silo id none s h = refl
delete_again silo id (some r) s h = absurd (cc)

module _ (c : Cipher) where
  -- A memory that is found is forgotten without a failure: the call says so; no row of its id, in any
  -- silo, no entry of the index under its rowid and no embedding of it is left; and what is found under
  -- any other id is as before.
  pub forget_lem :
      (silo id : Text) (s : Store) (r : Row)
      → IsIndexed c s
      → get silo id s ≡ some r
      → let (t, answer) = forget true none none silo id s in
        (answer ≡ ok true)
        × (has_id id t.memories ≡ false)
        × (t.memories_fts ≡ fts_without r.rowid s.memories_fts)
        × (has_embedding id t.memory_embeddings ≡ false)
        × ((silo' id' : Text) → text_eq id id' ≡ false → get silo' id' t ≡ get silo' id' s)
  unfolding forget delete_memory delete_found deleted get
  forget_lem silo id s r x h =
      let (w, (e, _)) = find-IsRow silo id s.memories r h in
      rw (h, delete_found)
        (
          refl,
          subst (λ i. has_id i (rows_without r.rowid s.memories) ≡ false) e
              (has_id-rows_without r w x.distinct),
          refl,
          has_embedding-without id s.memory_embeddings,
          λ silo' id' n. find-rows_without silo' id' r w x.distinct (rw e n),
        )

  -- A memory that is forgotten while its Remember still waits for the embedder keeps its embedding: the
  -- vector is written after the memory is gone, and no later Forget finds the memory or removes it.
  pub forget_orphan :
      (silo id model : Text) (v : List ℕ) (s : Store) (r : Row)
      → IsIndexed c s
      → get silo id s ≡ some r
      → let u =
          remember_embeds id (vectors model (v ∷ [])) none (forget true none none silo id s).0 in
        (has_embedding id u.memory_embeddings ≡ true)
        × (has_id id u.memories ≡ false)
        × ((silo' : Text) → forget true none none silo' id u ≡ (u, ok false))
  unfolding remember_embeds put_embedding
  forget_orphan silo id model v s r x h =
      let (_, gone, _, _, _) = forget_lem silo id s r x h in
      let t = (forget true none none silo id s).0 in
      let u = remember_embeds id (vectors model (v ∷ [])) none t in
      (
        has_embedding-append id
            (keep (λ e. not (text_eq e.memory_id id && text_eq e.model model)) t.memory_embeddings)
            (record { memory_id = id; model = model; dim = length v; vector = encode_vector v })
            refl,
        gone,
        λ silo'.
            unfold forget delete_memory get in
            delete_again silo' id (find (is_at silo' id) t.memories) u
              (find-none silo' id t.memories gone),
      )

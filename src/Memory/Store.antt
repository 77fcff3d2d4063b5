-- ===== src/Memory/Store.antt =====
-- internal/memory/store.go: the three tables of the memory database and the statements on them. SQLite
-- is modelled by what its documentation says of these statements: a new row gets the rowid after the
-- largest one, and a transaction in which a statement fails changes nothing. `fault` is the text of
-- such a failure.
pub mod Rows
pub mod Indexed
pub mod Forgotten
mod Tests
use onesilo_node.Base.{
  ℕ, suc, ◌+◌, max, Bool, true, false, not, ◌&&◌, ◌||◌, List, [], ◌∷◌, ◌++◌, Option, none, some,
  Text, text_eq, length, ltb, ◌==◌, if◌then◌else◌,
}
use onesilo_node.Base.Assoc.{lookup, insert}
use onesilo_node.Base.Result.{Result, ok, err, ◌>>=◌}
use onesilo_node.Memory.Vectors.{VectorError, encode_vector, decode_vector}

pub record Row : Type 0 where
  pub rowid : ℕ
  pub id : Text
  pub silo_id : Text
  pub content : Text
  pub metadata_json : Text
  pub created_at : Text
  pub updated_at : Text

pub record EmbeddingRow : Type 0 where
  pub memory_id : Text
  pub model : Text
  pub dim : ℕ
  pub vector : Text

pub record Store : Type 0 where
  pub memories : List Row
  pub memories_fts : List (ℕ × Text)
  pub memory_embeddings : List EmbeddingRow

pub data StoreError : Type 0 where
  duplicate_id : StoreError
  database : Text → StoreError
  bad_vector : Text → VectorError → StoreError

-- The order of SQLite and Go on texts: by bytes.
unfoldable pub text_lt : Text → Text → Bool
text_lt s [] = false
text_lt [] (b ∷ t) = true
text_lt (a ∷ s) (b ∷ t) = ltb a b || ((a == b) && text_lt s t)

module _ {A : Type 0} (less : A → A → Bool) where
  unfoldable pub insert_by : A → List A → List A
  insert_by x [] = x ∷ []
  insert_by x (y ∷ ys) = let rest = insert_by x ys in if less x y then x ∷ y ∷ ys else y ∷ rest

  unfoldable pub sort_onto : List A → List A → List A
  sort_onto out [] = out
  sort_onto out (x ∷ xs) = sort_onto (insert_by x out) xs

  -- sort.SliceStable, and ORDER BY.
  unfoldable pub sort_by : List A → List A
  sort_by l = sort_onto [] l

module _ {A : Type 0} (test : A → Bool) where
  unfoldable pub keep : List A → List A
  keep [] = []
  keep (x ∷ xs) = let rest = keep xs in if test x then x ∷ rest else rest

  unfoldable pub find : List A → Option A
  find [] = none
  find (x ∷ xs) = if test x then some x else find xs

unfoldable pub next_rowid : List Row → ℕ
next_rowid [] = 1
next_rowid (r ∷ rs) = max (suc r.rowid) (next_rowid rs)

unfoldable pub has_id : Text → List Row → Bool
has_id id [] = false
has_id id (r ∷ rs) = text_eq r.id id || has_id id rs

-- What the statement INSERT is given.
pub record Draft : Type 0 where
  pub id : Text
  pub silo_id : Text
  pub content : Text
  pub index_text : Text
  pub metadata_json : Text

abbrev pub row_of : ℕ → (now : Text) → Draft → Row
row_of rowid now d = record {
  rowid = rowid;
  id = d.id;
  silo_id = d.silo_id;
  content = d.content;
  metadata_json = d.metadata_json;
  created_at = now;
  updated_at = now;
}

unfoldable pub inserted : Text → Draft → Store → Store
inserted now d s =
    let rowid = next_rowid s.memories in
    record s {
      memories = s.memories ++ row_of rowid now d ∷ [];
      memories_fts = s.memories_fts ++ (rowid, d.index_text) ∷ [];
    }

unfoldable pub commit_insert : Option Text → Text → Draft → Store → Store × Option StoreError
commit_insert (some e) now d s = (s, some (database e))
commit_insert none now d s = (inserted now d s, none)

unfoldable pub insert_memory :
    (fault : Option Text) → (now : Text) → Draft → Store → Store × Option StoreError
insert_memory fault now d s =
    if has_id d.id s.memories then (s, some duplicate_id) else commit_insert fault now d s

abbrev pub is_at : (silo id : Text) → Row → Bool
is_at silo id r = text_eq r.id id && text_eq r.silo_id silo

unfoldable pub get : (silo id : Text) → Store → Option Row
get silo id s = find (is_at silo id) s.memories

unfoldable pub older : Row → Row → Bool
older a b =
    text_lt a.created_at b.created_at || (text_eq a.created_at b.created_at && text_lt a.id b.id)

unfoldable pub list_silo : (silo : Text) → Store → List Row
list_silo silo s = sort_by older (keep (λ r. text_eq r.silo_id silo) s.memories)

abbrev pub count_of : Option ℕ → ℕ
count_of none = 0
count_of (some n) = n

unfoldable pub count_silos : List Row → List (Text × ℕ) → List (Text × ℕ)
count_silos [] m = m
count_silos (r ∷ rs) m = count_silos rs (insert r.silo_id (suc (count_of (lookup r.silo_id m))) m)

unfoldable pub silos : Store → List (Text × ℕ)
silos s = sort_by (λ a b. text_lt a.0 b.0) (count_silos s.memories [])

unfoldable pub rows_without : (rowid : ℕ) → List Row → List Row
rows_without i rows = keep (λ r. not (r.rowid == i)) rows

unfoldable pub fts_without : (rowid : ℕ) → List (ℕ × Text) → List (ℕ × Text)
fts_without i entries = keep (λ e. not (e.0 == i)) entries

unfoldable pub embeddings_without : (id : Text) → List EmbeddingRow → List EmbeddingRow
embeddings_without id es = keep (λ e. not (text_eq e.memory_id id)) es

unfoldable pub deleted : Row → (id : Text) → Store → Store
deleted r id s = record {
  memories = rows_without r.rowid s.memories;
  memories_fts = fts_without r.rowid s.memories_fts;
  memory_embeddings = embeddings_without id s.memory_embeddings;
}

-- `Delete` from the row that was looked up on.
unfoldable pub delete_found :
    (fault : Option Text) → (id : Text) → Option Row → Store → Store × Result StoreError Bool
delete_found fault id none s = (s, ok false)
delete_found (some e) id (some r) s = (s, err (database e))
delete_found none id (some r) s = (deleted r id s, ok true)

-- Failures before and after the row is looked up.
unfoldable pub delete_memory :
    (reads writes : Option Text) → (silo id : Text) → Store → Store × Result StoreError Bool
delete_memory (some e) writes silo id s = (s, err (database e))
delete_memory none writes silo id s = delete_found writes id (get silo id s) s

-- INSERT OR REPLACE by (memory_id, model).
unfoldable pub put_embedding :
    (fault : Option Text) → (id model : Text) → List ℕ → Store → Store × Option StoreError
put_embedding (some e) id model v s = (s, some (database e))
put_embedding none id model v s = (
  record s {
    memory_embeddings =
        keep (λ e. not (text_eq e.memory_id id && text_eq e.model model)) s.memory_embeddings
        ++ record { memory_id = id; model = model; dim = length v; vector = encode_vector v } ∷ [];
  },
  none,
)

abbrev pub of_vector : (id : Text) → Result VectorError (List ℕ) → Result StoreError (List ℕ)
of_vector id (ok v) = ok v
of_vector id (err e) = err (bad_vector id e)

unfoldable pub read_embeddings : List EmbeddingRow → Result StoreError (List (Text × List ℕ))
read_embeddings [] = ok []
read_embeddings (e ∷ es) = do
  v ← of_vector e.memory_id (decode_vector e.vector e.dim)
  rest ← read_embeddings es
  ok ((e.memory_id, v) ∷ rest)

-- The join with the memories of the silo.
unfoldable pub embeddings_by_silo :
    (silo model : Text) → Store → Result StoreError (List (Text × List ℕ))
embeddings_by_silo silo model s = read_embeddings (
    keep
      (λ e.
        text_eq e.model model && has_id e.memory_id (keep (λ r. text_eq r.silo_id silo) s.memories))
      s.memory_embeddings)

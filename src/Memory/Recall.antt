-- ===== src/Memory/Recall.antt =====
-- internal/memory/recall.go: hybrid retrieval. FTS5's match and bm25, the cipher and
-- encoding/json are parameters.
pub mod Scoped
use onesilo_node.Base.{
  ℕ, zero, suc, ◌+◌, ◌*◌, Bool, true, false, not, ◌&&◌, ◌||◌, List, [], ◌∷◌, ◌++◌, map, Option,
  none, some, Text, text_eq, is_empty, length, take, ltb, ◌==◌, if◌then◌else◌,
}
use onesilo_node.Base.Int.{ℤ, pos, negsuc}
use onesilo_node.Base.Assoc.{lookup, insert}
use onesilo_node.Base.Result.{Result, ok, err, ◌>>=◌}
use onesilo_node.Memory.Query.{fts_match_expr}
use onesilo_node.Memory.Store.{
  Row, Store, StoreError, database, sort_by, keep, find, get, text_lt, embeddings_by_silo,
}
use onesilo_node.Memory.Calls.{Cipher}
use onesilo_node.Memory.Scores.{
  Float64, Scored, QueryVectors, dots, similarity, cosine, best, negate, score_all, rank_vectors,
  stored_vectors, vector_search, max_score, score_or_nought, add_score, add_uniform, add_normalized,
  add_list, ranks_before, scored, fuse_scores, no_embedder, failed, embedded,
}

-- strings.Fields, FTS5, and json.Unmarshal into a map.
pub record Engine (S Meta : Type 0) : Type 0 where
  pub fields : Text → List Text
  pub matches : (expression indexed : Text) → Bool
  pub bm25 : (expression indexed : Text) → S
  pub unmarshal : Text → Option Meta

pub record RecallResult (S Meta : Type 0) : Type 0 where
  pub id : Text
  pub content : Text
  pub score : S
  pub metadata : Option Meta

pub data RecallError : Type 0 where
  search_failed : Text → RecallError
  not_read : StoreError → RecallError
  not_opened : Text → RecallError

abbrev pub candidate_factor : ℕ
candidate_factor = 4

unfoldable pub limit_or_default : ℤ → ℕ
limit_or_default (pos zero) = 10
limit_or_default (pos (suc n)) = suc n
limit_or_default (negsuc n) = 10

module _ {S : Type 0} (f : Float64 S) where
  module _ {Meta : Type 0} (g : Engine S Meta) where
    unfoldable pub match_rows :
        (expression silo : Text) → List Row → List (ℕ × Text) → List (Scored S)
    match_rows x silo rows [] = []
    match_rows x silo rows ((i, t) ∷ es) =
        let rest = match_rows x silo rows es in
        elim (find (λ r. (r.rowid == i) && (g.matches x t && text_eq r.silo_id silo)) rows) [
          | none ↦ rest
          | some r ↦ record { id = r.id; score = g.bm25 x t } ∷ rest
        ]

    unfoldable pub keyword_hits :
        (fault : Option Text)
        → (expression silo : Text) → (limit : ℕ) → Store
        → Result RecallError (List (Scored S))
    keyword_hits (some e) x silo limit s = err (search_failed e)
    keyword_hits none x silo limit s = ok (
        map (negate f) (
          take limit
            (sort_by (λ a b. f.lt a.score b.score) (match_rows x silo s.memories s.memories_fts))))

    unfoldable pub keyword_search :
        (fault : Option Text)
        → (silo query : Text) → (limit : ℕ) → Store
        → Result RecallError (List (Scored S))
    keyword_search fault silo query limit s =
        let x = fts_match_expr (g.fields query) in
        if is_empty x then ok [] else keyword_hits fault x silo limit s

    abbrev pub of_open : Result Text Text → Result RecallError Text
    of_open (ok t) = ok t
    of_open (err e) = err (not_opened e)

    abbrev pub metadata_of : Text → Option Meta
    metadata_of t = if is_empty t then none else g.unmarshal t

    -- The result of one hit, if its memory is still there.
    unfoldable pub result_of :
        Cipher
        → (silo : Text) → Scored S
        → Option Row
        → Result RecallError (List (RecallResult S Meta))
    result_of c silo h none = ok []
    result_of c silo h (some r) = do
      t ← of_open (c.open_content silo r.content)
      ok (
          record { id = r.id; content = t; score = h.score; metadata = metadata_of r.metadata_json }
          ∷ [])

    -- Each Get finds the store as it then is, or fails.
    unfoldable pub read_hit :
        Cipher
        → (silo : Text) → Scored S
        → Result StoreError Store
        → Result RecallError (List (RecallResult S Meta))
    read_hit c silo h (err e) = err (not_read e)
    read_hit c silo h (ok s) = result_of c silo h (get silo h.id s)

    unfoldable pub read_hits :
        Cipher
        → (silo : Text) → (stores : Text → Result StoreError Store) → List (Scored S)
        → Result RecallError (List (RecallResult S Meta))
    read_hits c silo stores [] = ok []
    read_hits c silo stores (h ∷ hs) = do
      r ← read_hit c silo h (stores h.id)
      rest ← read_hits c silo stores hs
      ok (r ++ rest)

    -- `s` is the store that the searches find, `stores` what each Get finds later.
    unfoldable pub recall :
        Cipher
        → (keyword_fault vector_fault : Option Text) → QueryVectors S
        → (silo query : Text) → ℤ
        → Store
        → (stores : Text → Result StoreError Store)
        → Result RecallError (List (RecallResult S Meta))
    recall c keyword_fault vector_fault answer silo query limit s stores = do
      let n = limit_or_default limit
      let fetch = n * candidate_factor
      keyword ← keyword_search keyword_fault silo query fetch s
      let vector = vector_search f vector_fault silo fetch answer s
      read_hits c silo stores (take n (fuse_scores f keyword vector))

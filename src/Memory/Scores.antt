-- ===== src/Memory/Scores.antt =====
-- internal/memory/recall.go: the scores of a recall. They are float64, whose type and operations are
-- parameters.
use onesilo_node.Base.{
  ℕ, Bool, not, ◌||◌, List, [], ◌∷◌, map, Option, none, some, Text, length, take, ◌==◌,
  if◌then◌else◌,
}
use onesilo_node.Base.Assoc.{lookup, insert}
use onesilo_node.Base.Result.{Result, ok, err}
use onesilo_node.Memory.Store.{Store, StoreError, database, sort_by, text_lt, embeddings_by_silo}

pub record Float64 (S : Type 0) : Type 0 where
  pub nought : S
  pub one : S
  pub plus : S → S → S
  pub times : S → S → S
  pub divided : S → S → S
  pub negated : S → S
  pub sqrt : S → S
  pub lt : S → S → Bool
  pub equal : S → S → Bool
  pub of_nat : ℕ → S
  pub of_float32 : ℕ → S
  pub to_float32 : S → ℕ

pub record Scored (S : Type 0) : Type 0 where
  pub id : Text
  pub score : S

-- What the embedder gave for the query: none is at hand, it failed, or its vectors.
pub data QueryVectors (S : Type 0) : Type 0 where
  no_embedder failed : QueryVectors S
  embedded : (model : Text) → List (List S) → QueryVectors S

module _ {S : Type 0} (f : Float64 S) where
  -- The sums of the products of two vectors of one length, of the first's squares, and of the second's.
  unfoldable pub dots : List ℕ → List ℕ → (dot na nb : S) → S × S × S
  dots (a ∷ v) (b ∷ w) dot na nb =
      let x = f.of_float32 a in
      let y = f.of_float32 b in
      dots v w (f.plus dot (f.times x y)) (f.plus na (f.times x x)) (f.plus nb (f.times y y))
  dots _ _ dot na nb = (dot, na, nb)

  unfoldable pub similarity : S × S × S → Option S
  similarity (dot, na, nb) =
      let sim = f.divided dot (f.times (f.sqrt na) (f.sqrt nb)) in
      if f.equal na f.nought || f.equal nb f.nought
      then none
      else some (if f.lt sim f.nought then f.nought else sim)

  unfoldable pub cosine : List ℕ → List ℕ → Option S
  cosine v w =
      if not (length v == length w) || (length v == 0)
      then none
      else similarity (dots v w f.nought f.nought f.nought)

  unfoldable pub best : Scored S → Scored S → Bool
  best a b = f.lt b.score a.score

  abbrev pub negate : Scored S → Scored S
  negate h = record h { score = f.negated h.score }

  unfoldable pub score_all : List ℕ → List (Text × List ℕ) → List (Scored S)
  score_all q [] = []
  score_all q ((id, v) ∷ es) =
      let rest = score_all q es in
      elim (cosine q v) [ none ↦ rest | some sim ↦ record { id = id; score = sim } ∷ rest ]

  unfoldable pub rank_vectors :
      (limit : ℕ) → Result StoreError (List (Text × List ℕ)) → List ℕ → List (Scored S)
  rank_vectors limit (err e) q = []
  rank_vectors limit (ok es) q = take limit (sort_by best (score_all q es))

  -- The fault is that of the query for the embeddings.
  unfoldable pub stored_vectors :
      (fault : Option Text) → (silo model : Text) → Store → Result StoreError (List (Text × List ℕ))
  stored_vectors (some e) silo model s = err (database e)
  stored_vectors none silo model s = embeddings_by_silo silo model s

  unfoldable pub vector_search :
      (fault : Option Text) → (silo : Text) → (limit : ℕ) → QueryVectors S → Store → List (Scored S)
  vector_search fault silo limit no_embedder s = []
  vector_search fault silo limit failed s = []
  vector_search fault silo limit (embedded model []) s = []
  vector_search fault silo limit (embedded model (v ∷ vs)) s =
      rank_vectors limit (stored_vectors fault silo model s) (map f.to_float32 v)

  unfoldable pub max_score : S → List (Scored S) → S
  max_score m [] = m
  max_score m (h ∷ hs) = max_score (if f.lt m h.score then h.score else m) hs

  abbrev pub score_or_nought : Option S → S
  score_or_nought none = f.nought
  score_or_nought (some x) = x

  unfoldable pub add_score : Text → S → List (Text × S) → List (Text × S)
  add_score id x m = insert id (f.plus (score_or_nought (lookup id m)) x) m

  unfoldable pub add_uniform : S → List (Scored S) → List (Text × S) → List (Text × S)
  add_uniform x [] m = m
  add_uniform x (h ∷ hs) m = add_uniform x hs (add_score h.id x m)

  unfoldable pub add_normalized : S → List (Scored S) → List (Text × S) → List (Text × S)
  add_normalized top [] m = m
  add_normalized top (h ∷ hs) m =
      add_normalized top hs
        (if f.lt f.nought h.score then add_score h.id (f.divided h.score top) m else m)

  unfoldable pub add_list : List (Scored S) → List (Text × S) → List (Text × S)
  add_list hs m =
      let top = max_score f.nought hs in
      if not (f.lt f.nought top)
      then add_uniform (f.divided f.one (f.of_nat (length hs))) hs m
      else add_normalized top hs m

  unfoldable pub ranks_before : Scored S → Scored S → Bool
  ranks_before a b =
      if not (f.equal a.score b.score) then f.lt b.score a.score else text_lt a.id b.id

  abbrev pub scored : Text × S → Scored S
  scored (id, x) = record { id = id; score = x }

  -- fuseScores of the two lists; the map is ranged over in some order.
  unfoldable pub fuse_scores : (keyword vector : List (Scored S)) → List (Scored S)
  fuse_scores keyword vector =
      sort_by ranks_before (map scored (add_list vector (add_list keyword [])))

-- ===== src/Memory/Store/Tests.antt =====
-- Two silos, a memory that is forgotten, and a recall by both searches.
use onesilo_node.Base.{
  ◌≡◌, refl, sym, ℕ, true, false, List, [], ◌∷◌, none, some, Text, text, text_eq, ltb, leb, ◌+◌,
  ◌*◌, ◌/◌, ◌-◌, ◌==◌, ◌≤◌, All, length,
}
use onesilo_node.Base.Int.{pos}
use onesilo_node.Base.Assoc.{lookup, insert}
use onesilo_node.Base.Result.{ok}
use onesilo_node.Memory.Query.{fts_match_expr, join_or, quoted}
use onesilo_node.Memory.Store.{
  Row, Store, find, has_id, get, fts_without, insert_by, sort_onto, sort_by,
}
use onesilo_node.Memory.Store.Indexed.{IsIndexed, empty_store, run-IsIndexed}
use onesilo_node.Memory.Store.Forgotten.{has_embedding, forget_lem, forget_orphan}
use onesilo_node.Memory.Calls.{
  IsCipher, plaintext_cipher, Memo, Step, stores, vectors, remember_embeds, forget, run,
}
use onesilo_node.Memory.Scores.{
  Float64, no_embedder, vector_search, fuse_scores, add_list, add_uniform, add_normalized,
  add_score, max_score, best, ranks_before,
}
use onesilo_node.Memory.Recall.{
  Engine, RecallResult, limit_or_default, recall, keyword_search, keyword_hits, match_rows,
  read_hits, read_hit, result_of,
}
use onesilo_node.Memory.Recall.Scoped.{IsFrom, recall-IsScoped}

plaintext-IsCipher : IsCipher plaintext_cipher
plaintext-IsCipher = record { open-seal = λ silo s blob e. sym e }

abbrev tea : Memo
tea = record {
  id = text "1";
  silo_id = text "home";
  content = text "green tea";
  metadata = ok [];
  now = text "t1";
  fault = none;
}

abbrev plan : Memo
plan = record {
  id = text "2";
  silo_id = text "work";
  content = text "a plan";
  metadata = ok [];
  now = text "t2";
  fault = none;
}

abbrev steps : List Step
steps = stores true tea ∷ stores true plan ∷ []

run-IsIndexed_example : IsIndexed plaintext_cipher (run plaintext_cipher steps empty_store)
run-IsIndexed_example = run-IsIndexed plaintext_cipher plaintext-IsCipher steps

abbrev tea_row : Row
tea_row = record {
  rowid = 1;
  id = text "1";
  silo_id = text "home";
  content = text "green tea";
  metadata_json = [];
  created_at = text "t1";
  updated_at = text "t1";
}

abbrev home : Store
home = record {
  memories = tea_row ∷ [];
  memories_fts = (1, text "green tea") ∷ [];
  memory_embeddings = [];
}

home-IsIndexed : IsIndexed plaintext_cipher home
unfolding has_id
home-IsIndexed = record { aligned = (refl, (refl, tt)); distinct = (refl, (tt, tt)) }

forget_lem_example :
    let (t, answer) = forget true none none (text "home") (text "1") home in
    (answer ≡ ok true)
    × (has_id (text "1") t.memories ≡ false)
    × (t.memories_fts ≡ fts_without 1 home.memories_fts)
    × (has_embedding (text "1") t.memory_embeddings ≡ false)
    × ((silo' id' : Text) → text_eq (text "1") id' ≡ false → get silo' id' t ≡ get silo' id' home)
forget_lem_example =
    forget_lem plaintext_cipher (text "home") (text "1") home tea_row home-IsIndexed
      (unfold get find text_eq in refl)

forget_orphan_example :
    let u =
      remember_embeds
        (text "1")
        (vectors (text "m") ((7 ∷ []) ∷ []))
        none
        (forget true none none (text "home") (text "1") home).0 in
    (has_embedding (text "1") u.memory_embeddings ≡ true)
    × (has_id (text "1") u.memories ≡ false)
    × ((silo' : Text) → forget true none none silo' (text "1") u ≡ (u, ok false))
forget_orphan_example =
    forget_orphan plaintext_cipher (text "home") (text "1") (text "m") (7 ∷ []) home tea_row
      home-IsIndexed (unfold get find text_eq in refl)

-- Whole scores stand for the floats.
abbrev whole : Float64 ℕ
whole = record {
  nought = 0;
  one = 1;
  plus = λ x y. x + y;
  times = λ x y. x * y;
  divided = λ x y. x / y;
  negated = λ x. 100 - x;
  sqrt = λ x. x;
  lt = ltb;
  equal = λ x y. x == y;
  of_nat = λ n. n;
  of_float32 = λ n. n;
  to_float32 = λ n. n;
}

abbrev engine : Engine ℕ Text
engine = record {
  fields = λ q. q ∷ [];
  matches = λ x t. leb 3 (length t);
  bm25 = λ x t. length t;
  unmarshal = λ t. some t;
}

abbrev found : List (RecallResult ℕ Text)
found = record { id = text "1"; content = text "green tea"; score = 1; metadata = none } ∷ []

finds_tea :
    recall whole engine plaintext_cipher none none no_embedder
      (text "home")
      (text "tea")
      (pos 5)
      home
      (λ i. ok home)
    ≡ ok found
unfolding recall limit_or_default keyword_search keyword_hits match_rows fts_match_expr
    vector_search fuse_scores add_list add_uniform add_normalized add_score max_score best
    ranks_before read_hits read_hit result_of sort_by sort_onto insert_by find get text_eq lookup
    insert join_or quoted
finds_tea = refl

recall-IsScoped_example :
    (length found ≤ limit_or_default (pos 5))
    × All (IsFrom whole engine plaintext_cipher (text "home") (λ i. ok home)) found
recall-IsScoped_example =
    recall-IsScoped whole engine plaintext_cipher (text "home") (λ i. ok home) none none no_embedder
      (text "tea") (pos 5) home found finds_tea

-- ===== src/Memory/Recall/Scoped.antt =====
-- What a recall can return.
use onesilo_node.Base.{
  ℕ, suc, ◌≡◌, ◌≤◌, ◌*◌, refl, sym, subst, List, [], ◌∷◌, ◌++◌, Option, none, some, arith, Text,
  All, length, take, length-take,
}
use onesilo_node.Base.Int.{ℤ}
use onesilo_node.Base.Result.{Result, ok, err, ◌>>=◌}
use onesilo_node.Pairing.Assertion.Stages.{bind_ok}
use onesilo_node.Memory.Store.{Row, Store, StoreError, get}
use onesilo_node.Memory.Store.Forgotten.{find-IsRow}
use onesilo_node.Memory.Calls.{Cipher}
use onesilo_node.Memory.Scores.{Float64, Scored, QueryVectors, fuse_scores, vector_search}
use onesilo_node.Memory.Recall.{
  Engine, RecallResult, RecallError, limit_or_default, candidate_factor, keyword_search, of_open,
  metadata_of, result_of, read_hit, read_hits, recall,
}

module _ {S Meta : Type 0} (f : Float64 S) (g : Engine S Meta) (c : Cipher) (silo : Text)
    (stores : Text → Result StoreError Store) where
  -- A result is the content of a memory of the silo, under the silo's key.
  pub record IsFrom (r : RecallResult S Meta) : Type 0 where
    store : Store
    row : Row
    at : stores r.id ≡ ok store
    found : get silo r.id store ≡ some row
    of_silo : row.silo_id ≡ silo
    opened : c.open_content silo row.content ≡ ok r.content

  results-injective :
      {a b : List (RecallResult S Meta)}
      → ◌≡◌ {A = Result RecallError (List (RecallResult S Meta))} (ok a) (ok b)
      → a ≡ b
  results-injective e = cc

  of_open-ok : (r : Result Text Text) (t : Text) → of_open f g r ≡ ok t → r ≡ ok t
  of_open-ok (ok a) t h = cc
  of_open-ok (err e) t h = absurd (cc)

  abbrev Read : ℕ → List (RecallResult S Meta) → Type 0
  Read n rs = (length rs ≤ n) × All IsFrom rs

  Read-result_of :
      (h : Scored S) (s : Store) (o : Option Row) (rs : List (RecallResult S Meta))
      → stores h.id ≡ ok s
      → get silo h.id s ≡ o
      → result_of f g c silo h o ≡ ok rs
      → Read 1 rs
  unfolding result_of
  Read-result_of h s none rs a e q = subst (Read 1) (results-injective q) (omega arith, tt)
  Read-result_of h s (some r) rs a e q =
      let (t, o, k) =
        bind_ok (of_open f g (c.open_content silo r.content))
          (λ t. ok (
            record {
              id = r.id;
              content = t;
              score = h.score;
              metadata = metadata_of f g r.metadata_json;
            }
            ∷ []))
          q in
      let (w, (i, z)) = find-IsRow silo h.id s.memories r (unfold get in e) in
      subst (Read 1) (results-injective k) (
        omega arith,
        (
          record {
            store = s;
            row = r;
            at = subst (λ j. stores j ≡ ok s) (sym i) a;
            found = subst (λ j. get silo j s ≡ some r) (sym i) e;
            of_silo = z;
            opened = of_open-ok (c.open_content silo r.content) t o;
          },
          tt,
        ),
      )

  Read-append :
      (n : ℕ) (rs qs : List (RecallResult S Meta)) → Read 1 rs → Read n qs → Read (suc n) (rs ++ qs)
  Read-append n [] qs x y = (omega (arith, y.0), y.1)
  Read-append n (r ∷ []) qs x y = (omega (arith, y.0), (x.1.0, y.1))
  Read-append n (r ∷ q ∷ rs) qs x y = absurd (omega (arith, x.0))

  Read-read_hit :
      (h : Scored S) (o : Result StoreError Store) (rs : List (RecallResult S Meta))
      → stores h.id ≡ o
      → read_hit f g c silo h o ≡ ok rs
      → Read 1 rs
  unfolding read_hit
  Read-read_hit h (err e) rs a q = absurd (cc)
  Read-read_hit h (ok s) rs a q = Read-result_of h s (get silo h.id s) rs a refl q

  Read-read_hits :
      (hs : List (Scored S)) (rs : List (RecallResult S Meta))
      → read_hits f g c silo stores hs ≡ ok rs
      → Read (length hs) rs
  unfolding read_hits
  Read-read_hits [] rs q = subst (Read 0) (results-injective q) (omega arith, tt)
  Read-read_hits (h ∷ hs) rs q =
      let (a, e, k) =
        bind_ok (read_hit f g c silo h (stores h.id))
          (λ r. read_hits f g c silo stores hs >>= (λ rest. ok (r ++ rest))) q in
      let (b, e', k') = bind_ok (read_hits f g c silo stores hs) (λ rest. ok (a ++ rest)) k in
      subst (Read (suc (length hs))) (results-injective k') (
        Read-append (length hs) a b (Read-read_hit h (stores h.id) a refl e)
          (Read-read_hits hs b e'))

  -- Whatever the two searches find: a recall that succeeds returns no more memories than the limit, ten
  -- where none is given, and each of them is found in the silo that was asked for when it is read, with
  -- the content that opens under that silo.
  pub recall-IsScoped :
      (keyword_fault vector_fault : Option Text) (answer : QueryVectors S) (query : Text)
      (limit : ℤ) (s : Store) (results : List (RecallResult S Meta))
      → recall f g c keyword_fault vector_fault answer silo query limit s stores ≡ ok results
      → (length results ≤ limit_or_default limit) × All IsFrom results
  unfolding recall
  recall-IsScoped keyword_fault vector_fault answer query limit s results h =
      let n = limit_or_default limit in
      let fetch = n * candidate_factor in
      let vector = vector_search f vector_fault silo fetch answer s in
      let (k, _, e) =
        bind_ok (keyword_search f g keyword_fault silo query fetch s)
          (λ k. read_hits f g c silo stores (take n (fuse_scores f k vector))) h in
      let (bound, from) = Read-read_hits (take n (fuse_scores f k vector)) results e in
      (omega (arith, length-take n (fuse_scores f k vector), bound), from)

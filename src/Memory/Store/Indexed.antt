-- ===== src/Memory/Store/Indexed.antt =====
-- The full-text index and the table of the memories.
use onesilo_node.Base.{
  ℕ, ◌≡◌, refl, ap, ◌∙◌, Bool, true, false, not, List, [], ◌∷◌, ◌++◌, Option, none, some, arith,
  Text, ◌==◌, Bool-cases, inl, inr,
}
use onesilo_node.Base.Result.{Result, ok, err, ◌>>=◌}
use onesilo_node.Pairing.Assertion.Stages.{bind_ok}
use onesilo_node.Memory.Store.{
  Row, Store, StoreError, Draft, row_of, keep, next_rowid, has_id, get, inserted, commit_insert,
  insert_memory, rows_without, fts_without, deleted, delete_found, delete_memory, put_embedding,
}
use onesilo_node.Memory.Calls.{
  Cipher, IsCipher, CallError, Memo, Embedded, no_embedder, embed_failed, vectors, Step, stores,
  embeds, forgets, of_seal, of_metadata, sealed, stored, after_insert, remember_stores,
  remember_embeds, of_delete, forget, step, run,
}
use onesilo_node.Memory.Store.Rows.{Distinct, Distinct-keep, Distinct-append}

-- The database that the schema creates.
abbrev pub empty_store : Store
empty_store = record { memories = []; memories_fts = []; memory_embeddings = [] }

module _ (c : Cipher) where
  -- The index has one entry for each row, with its rowid and the text that its content opens to.
  abbrev pub Aligned : List Row → List (ℕ × Text) → Type 0
  Aligned [] [] = Unit
  Aligned [] (e ∷ es) = ⊥
  Aligned (r ∷ rs) [] = ⊥
  Aligned (r ∷ rs) ((i, t) ∷ es) =
      (i ≡ r.rowid) × ((c.open_content r.silo_id r.content ≡ ok t) × Aligned rs es)

  pub record IsIndexed (s : Store) : Type 0 where
    pub aligned : Aligned s.memories s.memories_fts
    pub distinct : Distinct s.memories

  Aligned-append :
      (rs : List Row) (es : List (ℕ × Text)) (r : Row) (t : Text)
      → Aligned rs es
      → c.open_content r.silo_id r.content ≡ ok t
      → Aligned (rs ++ r ∷ []) (es ++ (r.rowid, t) ∷ [])
  Aligned-append [] [] r t a o = (refl, (o, tt))
  Aligned-append [] (e ∷ es) r t a o = absurd a
  Aligned-append (q ∷ rs) [] r t a o = absurd a
  Aligned-append (q ∷ rs) ((i, u) ∷ es) r t a o = (a.0, (a.1.0, Aligned-append rs es r t a.1.1 o))

  Aligned-without :
      (i : ℕ) (rs : List Row) (es : List (ℕ × Text))
      → Aligned rs es
      → Aligned (rows_without i rs) (fts_without i es)
  unfolding rows_without fts_without keep
  Aligned-without i [] [] a = tt
  Aligned-without i [] (e ∷ es) a = absurd a
  Aligned-without i (q ∷ rs) [] a = absurd a
  Aligned-without i (q ∷ rs) ((j, u) ∷ es) a = elim (Bool-cases (q.rowid == i)) [
    | inl h ↦ rw (a.0, h) (Aligned-without i rs es a.1.1)
    | inr h ↦ rw (a.0, h) (refl, (a.1.0, Aligned-without i rs es a.1.1))
  ]

ok-injective : {x y : Text × Text} → ◌≡◌ {A = Result CallError (Text × Text)} (ok x) (ok y) → x ≡ y
ok-injective e = cc

module _ (c : Cipher) (law : IsCipher c) where
  inserted-IsIndexed :
      (now : Text) (d : Draft) (s : Store)
      → IsIndexed c s
      → has_id d.id s.memories ≡ false
      → c.open_content d.silo_id d.content ≡ ok d.index_text
      → IsIndexed c (inserted now d s)
  unfolding inserted
  inserted-IsIndexed now d s x h o =
      let r = row_of (next_rowid s.memories) now d in
      record {
        aligned = Aligned-append c s.memories s.memories_fts r d.index_text x.aligned o;
        distinct = Distinct-append s.memories r x.distinct h (omega arith);
      }

  insert_memory-IsIndexed :
      (fault : Option Text) (now : Text) (d : Draft) (s : Store)
      → IsIndexed c s
      → c.open_content d.silo_id d.content ≡ ok d.index_text
      → IsIndexed c (insert_memory fault now d s).0
  unfolding insert_memory commit_insert
  insert_memory-IsIndexed fault now d s x o = elim (Bool-cases (has_id d.id s.memories)) [
    | inl h ↦ rw h x
    | inr h ↦ rw h (elim fault as (λ f. IsIndexed c (commit_insert f now d s).0) [
      | none ↦ inserted-IsIndexed now d s x h o
      | some e ↦ x
    ])
  ]

  delete_found-IsIndexed :
      (fault : Option Text) (id : Text) (o : Option Row) (s : Store)
      → IsIndexed c s
      → IsIndexed c (delete_found fault id o s).0
  unfolding delete_found deleted rows_without
  delete_found-IsIndexed fault id none s x = x
  delete_found-IsIndexed (some e) id (some r) s x = x
  delete_found-IsIndexed none id (some r) s x = record {
    aligned = Aligned-without c r.rowid s.memories s.memories_fts x.aligned;
    distinct = Distinct-keep (λ q. not (q.rowid == r.rowid)) s.memories x.distinct;
  }

  delete_memory-IsIndexed :
      (reads writes : Option Text) (silo id : Text) (s : Store)
      → IsIndexed c s
      → IsIndexed c (delete_memory reads writes silo id s).0
  unfolding delete_memory
  delete_memory-IsIndexed (some e) writes silo id s x = x
  delete_memory-IsIndexed none writes silo id s x =
      delete_found-IsIndexed writes id (get silo id s) s x

  put_embedding-IsIndexed :
      (fault : Option Text) (id model : Text) (v : List ℕ) (s : Store)
      → IsIndexed c s
      → IsIndexed c (put_embedding fault id model v s).0
  unfolding put_embedding
  put_embedding-IsIndexed (some e) id model v s x = x
  put_embedding-IsIndexed none id model v s x = record {
    aligned = x.aligned;
    distinct = x.distinct;
  }

  of_delete_state : (x : Store × Result StoreError Bool) → (of_delete x).0 ≡ x.0
  of_delete_state (s, ok b) = refl
  of_delete_state (s, err e) = refl

  after_insert_state : (id : Text) (x : Store × Option StoreError) → (after_insert id x).0 ≡ x.0
  unfolding after_insert
  after_insert_state id (s, none) = refl
  after_insert_state id (s, some e) = refl

  of_seal-ok : (r : Result Text Text) (b : Text) → of_seal r ≡ ok b → r ≡ ok b
  of_seal-ok (ok a) b h = cc
  of_seal-ok (err e) b h = absurd (cc)

  sealed_blob :
      (m : Memo) (blob json : Text)
      → sealed c m ≡ ok (blob, json)
      → c.seal_content m.silo_id m.content ≡ ok blob
  unfolding sealed
  sealed_blob m blob json h =
      let (b, e, k) =
        bind_ok (of_seal (c.seal_content m.silo_id m.content))
          (λ b. of_metadata m.metadata >>= (λ j. ok (b, j))) h in
      let (j, _, q) = bind_ok (of_metadata m.metadata) (λ j. ok (b, j)) k in
      of_seal-ok (c.seal_content m.silo_id m.content) blob
        (e ∙ ap ok (ap (λ x. x.0) (ok-injective q)))

  stored-IsIndexed :
      (m : Memo) (r : Result CallError (Text × Text)) (s : Store)
      → sealed c m ≡ r
      → IsIndexed c s
      → IsIndexed c (stored m r s).0
  unfolding stored
  stored-IsIndexed m (err e) s h x = x
  stored-IsIndexed m (ok (blob, json)) s h x =
      let d : Draft = record {
        id = m.id;
        silo_id = m.silo_id;
        content = blob;
        index_text = m.content;
        metadata_json = json;
      } in
      rw (after_insert_state m.id (insert_memory m.fault m.now d s)) (
        insert_memory-IsIndexed m.fault m.now d s x
          (law.open-seal m.silo_id m.content blob (sealed_blob m blob json h)))

  remember_embeds-IsIndexed :
      (id : Text) (e : Embedded) (fault : Option Text) (s : Store)
      → IsIndexed c s
      → IsIndexed c (remember_embeds id e fault s)
  unfolding remember_embeds
  remember_embeds-IsIndexed id no_embedder fault s x = x
  remember_embeds-IsIndexed id embed_failed fault s x = x
  remember_embeds-IsIndexed id (vectors model []) fault s x = x
  remember_embeds-IsIndexed id (vectors model (v ∷ [])) fault s x =
      put_embedding-IsIndexed fault id model v s x
  remember_embeds-IsIndexed id (vectors model (v ∷ w ∷ l)) fault s x = x

  step-IsIndexed : (e : Step) (s : Store) → IsIndexed c s → IsIndexed c (step c e s)
  unfolding step remember_stores forget
  step-IsIndexed (stores false m) s x = x
  step-IsIndexed (stores true m) s x = stored-IsIndexed m (sealed c m) s refl x
  step-IsIndexed (embeds id e f) s x = remember_embeds-IsIndexed id e f s x
  step-IsIndexed (forgets false reads writes silo id) s x = x
  step-IsIndexed (forgets true reads writes silo id) s x =
      rw (of_delete_state (delete_memory reads writes silo id s))
        (delete_memory-IsIndexed reads writes silo id s x)

  run_indexes : (es : List Step) (s : Store) → IsIndexed c s → IsIndexed c (run c es s)
  unfolding run
  run_indexes [] s x = x
  run_indexes (e ∷ es) s x = run_indexes es (step c e s) (step-IsIndexed e s x)

  -- Whatever the calls of Remember and Forget are, also interleaved and with failures: the full-text
  -- index of the database, empty at first, has exactly one entry for each memory, under its rowid, with
  -- the text that its content opens to for its silo; and no two memories share an id or a rowid. The
  -- cipher opens what it sealed.
  pub run-IsIndexed : (es : List Step) → IsIndexed c (run c es empty_store)
  run-IsIndexed es = run_indexes es empty_store (record { aligned = tt; distinct = tt })

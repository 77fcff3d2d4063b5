-- ===== src/Memory/Calls.antt =====
-- internal/memory/capability.go: what Remember and Forget do to the store. Remember waits for the
-- embedder between its two writes, so other calls can come between them. The cipher, encoding/json and
-- the embedder are parameters.
use onesilo_node.Base.{◌≡◌, Bool, true, false, ℕ, List, [], ◌∷◌, Option, none, some, Text}
use onesilo_node.Base.Result.{Result, ok, err, ◌>>=◌}
use onesilo_node.Memory.Store.{Store, StoreError, insert_memory, delete_memory, put_embedding}

-- Seal and Open of the interface Cipher, with the text of an error.
pub record Cipher : Type 0 where
  pub seal_content : (silo plaintext : Text) → Result Text Text
  pub open_content : (silo blob : Text) → Result Text Text

-- What was sealed for a silo is opened for it.
pub record IsCipher (c : Cipher) : Type 0 where
  pub open-seal :
      (silo s blob : Text) → c.seal_content silo s ≡ ok blob → c.open_content silo blob ≡ ok s

-- The cipher of tests without encryption.
abbrev pub plaintext_cipher : Cipher
plaintext_cipher = record { seal_content = λ silo t. ok t; open_content = λ silo b. ok b }

pub data CallError : Type 0 where
  not_running : CallError
  not_sealed bad_metadata : Text → CallError
  not_stored : StoreError → CallError

abbrev pub of_seal : Result Text Text → Result CallError Text
of_seal (ok b) = ok b
of_seal (err e) = err (not_sealed e)

abbrev pub of_metadata : Result Text Text → Result CallError Text
of_metadata (ok m) = ok m
of_metadata (err e) = err (bad_metadata e)

-- A call of Remember up to the embedder: the drawn id, the content, the encoded metadata or its error,
-- the time, and how the transaction ends.
pub record Memo : Type 0 where
  pub id : Text
  pub silo_id : Text
  pub content : Text
  pub metadata : Result Text Text
  pub now : Text
  pub fault : Option Text

unfoldable pub after_insert :
    (id : Text) → Store × Option StoreError → Store × Result CallError Text
after_insert id (s, none) = (s, ok id)
after_insert id (s, some e) = (s, err (not_stored e))

unfoldable pub stored :
    Memo → Result CallError (Text × Text) → Store → Store × Result CallError Text
stored m (err e) s = (s, err e)
stored m (ok (blob, json)) s = after_insert m.id (
    insert_memory m.fault m.now
      (record {
        id = m.id;
        silo_id = m.silo_id;
        content = blob;
        index_text = m.content;
        metadata_json = json;
      })
      s)

-- What the embedder gave: none is at hand, it failed, or it gave vectors under a model.
pub data Embedded : Type 0 where
  no_embedder embed_failed : Embedded
  vectors : (model : Text) → List (List ℕ) → Embedded

-- The end of Remember. Every failure is only logged.
unfoldable pub remember_embeds : (id : Text) → Embedded → (fault : Option Text) → Store → Store
remember_embeds id no_embedder fault s = s
remember_embeds id embed_failed fault s = s
remember_embeds id (vectors model (v ∷ [])) fault s = (put_embedding fault id model v s).0
remember_embeds id (vectors model _) fault s = s

abbrev pub of_delete : Store × Result StoreError Bool → Store × Result CallError Bool
of_delete (s, ok b) = (s, ok b)
of_delete (s, err e) = (s, err (not_stored e))

unfoldable pub forget :
    (running : Bool)
    → (reads writes : Option Text) → (silo id : Text) → Store
    → Store × Result CallError Bool
forget false reads writes silo id s = (s, err not_running)
forget true reads writes silo id s = of_delete (delete_memory reads writes silo id s)

-- The steps of the calls, in the order in which they reach the database.
pub data Step : Type 0 where
  stores : (running : Bool) → Memo → Step
  embeds : (id : Text) → Embedded → (fault : Option Text) → Step
  forgets : (running : Bool) → (reads writes : Option Text) → (silo id : Text) → Step

module _ (c : Cipher) where
  unfoldable pub sealed : Memo → Result CallError (Text × Text)
  sealed m = do
    blob ← of_seal (c.seal_content m.silo_id m.content)
    json ← of_metadata m.metadata
    ok (blob, json)

  unfoldable pub remember_stores : (running : Bool) → Memo → Store → Store × Result CallError Text
  remember_stores false m s = (s, err not_running)
  remember_stores true m s = stored m (sealed m) s

  unfoldable pub step : Step → Store → Store
  step (stores on m) s = (remember_stores on m s).0
  step (embeds id e f) s = remember_embeds id e f s
  step (forgets on reads writes silo id) s = (forget on reads writes silo id s).0

  unfoldable pub run : List Step → Store → Store
  run [] s = s
  run (e ∷ es) s = run es (step e s)

-- ===== src/Openai/Keys.antt =====
-- internal/openaiapi/keys.go and the provider of internal/node/inference_key.go: the API keys that
-- the node has minted. A method runs under the store's lock. `written` is the outcome of
-- fsutil.WriteFileAtomic: `none`, or its error, which leaves the old file in place.
pub mod Disk
pub mod Access
pub mod Rotation
pub mod Retire
pub mod Tests
use onesilo_node.Base.{
  ℕ, ◌-◌, Bool, true, false, ◌&&◌, ◌||◌, not, List, [], ◌∷◌, ◌++◌, map, Option, none, some, Text,
  text, text_eq, starts_with, length, take, drop, if◌then◌else◌, ◌⊎◌, inl, inr,
}

pub record Key : Type 0 where
  pub id : Text
  pub name : Text
  pub sha256 : Text
  pub last4 : Text
  pub created_at : ℕ
  pub scope : Text

-- `file` is the list that openai_keys.json holds, if the file exists.
pub record KeyStore : Type 0 where
  pub keys : List Key
  pub file : Option (List Key)

pub data KeyError : Type 0 where
  key_not_found generating_key generating_id : KeyError
  write_failed : Text → KeyError

abbrev pub key_prefix : Text
key_prefix = text "silo_sk_"

abbrev pub control_plane_key_scope : Text
control_plane_key_scope = text "control-plane"

abbrev pub control_plane_key_name : Text
control_plane_key_name = text "control-plane"

-- What reading openai_keys.json gave; the contents are decoded by encoding/json.
pub data KeysFile : Type 0 where
  missing unreadable corrupt : KeysFile
  decoded : List Key → KeysFile

pub data LoadError : Type 0 where
  read_failed parse_failed : LoadError

unfoldable pub load_key_store : KeysFile → KeyStore ⊎ LoadError
load_key_store missing = inl (record { keys = []; file = none })
load_key_store unreadable = inr read_failed
load_key_store corrupt = inr parse_failed
load_key_store (decoded ks) = inl (record { keys = ks; file = some ks })

unfoldable pub persist_locked : Option Text → KeyStore → KeyStore × Option KeyError
persist_locked none s = (record s { file = some s.keys }, none)
persist_locked (some e) s = (s, some (write_failed e))

-- The standard library's functions that the store calls.
pub record Std : Type 0 where
  pub sum256 : Text → Text
  pub hex : Text → Text
  pub trim_space : Text → Text

-- The random bytes of one mint; `none` where rand.Read fails.
pub record Draw : Type 0 where
  pub secret : Option Text
  pub id_bytes : Option Text
  pub now : ℕ

pub data Minted : Type 0 where
  minted : Text → Key → Minted
  mint_failed : KeyError → Minted

abbrev pub mint_result : Text → Key → Option KeyError → Minted
mint_result plaintext key none = minted plaintext key
mint_result plaintext key (some e) = mint_failed e

-- Append and persist; the key goes again if the write fails.
unfoldable pub add_key : Key → Option Text → KeyStore → KeyStore × Option KeyError
unfolding persist_locked
add_key key written s =
    let (t, e) = persist_locked written (record s { keys = s.keys ++ key ∷ [] }) in
    elim e [
      | none ↦ (t, none)
      | some x ↦ (record t { keys = take (length t.keys - 1) t.keys }, some x)
    ]

-- `subtle.ConstantTimeCompare` gives 0 or 1 and the loop joins them by `|=`.
unfoldable pub matches : Text → List Key → Bool
matches h [] = false
matches h (k ∷ ks) = text_eq h k.sha256 || matches h ks

module _ (std : Std) where
  abbrev pub plaintext_of : Text → Text
  plaintext_of secret = key_prefix ++ std.hex secret

  pub new_key : Text → Text → Text → Text → ℕ → Key
  new_key name scope secret id_bytes now =
      let plaintext = plaintext_of secret in
      record {
        id = text "key_" ++ std.hex id_bytes;
        name = std.trim_space name;
        sha256 = std.hex (std.sum256 plaintext);
        last4 = drop (length plaintext - 4) plaintext;
        created_at = now;
        scope = scope;
      }

  unfoldable pub mint : Text → Text → Draw → Option Text → KeyStore → KeyStore × Minted
  unfolding add_key new_key
  mint name scope draw written s = elim draw.secret [
    | none ↦ (s, mint_failed generating_key)
    | some secret ↦ elim draw.id_bytes [
      | none ↦ (s, mint_failed generating_id)
      | some id_bytes ↦
          let key = new_key name scope secret id_bytes draw.now in
          let (t, e) = add_key key written s in (t, mint_result (plaintext_of secret) key e)
    ]
  ]

  unfoldable pub verify : Text → KeyStore → Bool
  verify presented s =
      if starts_with presented key_prefix
      then matches (std.hex (std.sum256 presented)) s.keys
      else false

unfoldable pub has_id : Text → List Key → Bool
has_id id [] = false
has_id id (k ∷ ks) = text_eq k.id id || has_id id ks

-- The keys before the first one with the id, and those after it.
unfoldable pub without : Text → List Key → List Key
without id [] = []
without id (k ∷ ks) = let rest = without id ks in if text_eq k.id id then ks else k ∷ rest

unfoldable pub revoke : Text → Option Text → KeyStore → KeyStore × Option KeyError
revoke id written s =
    if has_id id s.keys
    then (let (t, e) = persist_locked written (record s { keys = without id s.keys }) in
        elim e [ none ↦ (t, none) | some x ↦ (record t { keys = s.keys }, some x) ])
    else (s, some key_not_found)

-- The first error that is not "no such key"; `firstErr` is nil so far, or holds it.
abbrev pub first_error : Option KeyError → Option KeyError → Option KeyError
first_error (some e) r = some e
first_error none none = none
first_error none (some key_not_found) = none
first_error none (some generating_key) = some generating_key
first_error none (some generating_id) = some generating_id
first_error none (some (write_failed e)) = some (write_failed e)

-- `written` gives the outcome of the write that revoking an id makes.
unfoldable pub revoke_from :
    Option KeyError → List Text → (Text → Option Text) → KeyStore → KeyStore × Option KeyError
revoke_from e [] written s = (s, e)
revoke_from e (id ∷ ids) written s =
    let (t, r) = revoke id (written id) s in revoke_from (first_error e r) ids written t

unfoldable pub revoke_all : List Text → (Text → Option Text) → KeyStore → KeyStore × Option KeyError
revoke_all = revoke_from none

abbrev pub is_control_plane : Key → Bool
is_control_plane k = text_eq k.scope control_plane_key_scope

unfoldable pub superseded_ids : List Key → List Text
superseded_ids [] = []
superseded_ids (k ∷ ks) =
    let rest = superseded_ids ks in if is_control_plane k then k.id ∷ rest else rest

pub data Granted : Type 0 where
  granted : Text → List Text → Granted
  grant_failed : KeyError → Granted

abbrev pub grant_result : List Text → Minted → Granted
grant_result ids (minted plaintext key) = granted plaintext ids
grant_result ids (mint_failed e) = grant_failed e

-- internal/node/inference_key.go: the live switches, and what `Mint` of the provider returns. The
-- commit function is the list of ids that it revokes; `nothing` is the empty key.
pub record Switches : Type 0 where
  pub publish : Bool
  pub enabled : Bool
  pub compute : Bool

pub data Provided : Type 0 where
  nothing : Provided
  provided : Text → List Text → Provided
  provide_failed : KeyError → Provided

abbrev pub provide_result : Granted → Provided
provide_result (granted plaintext ids) = provided plaintext ids
provide_result (grant_failed e) = provide_failed e

module _ (std : Std) where
  unfoldable pub mint_for_control_plane : Draw → Option Text → KeyStore → KeyStore × Granted
  mint_for_control_plane draw written s =
      let ids = superseded_ids s.keys in
      let (t, r) = mint std control_plane_key_name control_plane_key_scope draw written s in
      (t, grant_result ids r)

  unfoldable pub provider_mint : Switches → Draw → Option Text → KeyStore → KeyStore × Provided
  provider_mint cfg draw written s =
      if not cfg.publish || (not cfg.enabled || not cfg.compute)
      then (s, nothing)
      else let (t, r) = mint_for_control_plane draw written s in (t, provide_result r)

-- The commit function that the provider returns with a key.
unfoldable pub commit : List Text → (Text → Option Text) → KeyStore → KeyStore
commit [] written s = s
commit (id ∷ ids) written s = (revoke_all (id ∷ ids) written s).0

-- The calls of a store's life, in the order in which the lock lets them in.
pub data KeyCall : Type 0 where
  mints : Text → Draw → Option Text → KeyCall
  provides : Switches → Draw → Option Text → KeyCall
  revokes : Text → Option Text → KeyCall
  commits : List Text → (Text → Option Text) → KeyCall

module _ (std : Std) where
  unfoldable pub step : KeyCall → KeyStore → KeyStore
  step (mints name draw written) s = (mint std name [] draw written s).0
  step (provides cfg draw written) s = (provider_mint std cfg draw written s).0
  step (revokes id written) s = (revoke id written s).0
  step (commits ids written) s = commit ids written s

  unfoldable pub run : List KeyCall → KeyStore → KeyStore
  run [] s = s
  run (c ∷ cs) s = run cs (step c s)

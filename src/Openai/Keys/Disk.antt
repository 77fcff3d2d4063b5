-- ===== src/Openai/Keys/Disk.antt =====
-- The keys in memory and on disk.
use onesilo_node.Base.{
  ◌-◌, ◌≡◌, refl, sym, ◌⊎◌, inl, inr, subst, Bool, true, false, not, ◌||◌, List, [], ◌∷◌, ◌++◌,
  Option, none, some, arith, Text, length, length-append, take-append_length,
}
use onesilo_node.Openai.Keys.{
  Key, KeyStore, KeyError, Std, Draw, KeysFile, LoadError, missing, decoded, load_key_store,
  persist_locked, add_key, mint, revoke, first_error, revoke_from, revoke_all,
  mint_for_control_plane, provider_mint, commit, KeyCall, mints, provides, revokes, commits, step,
  run,
}

-- The file holds the keys that the store has in memory; a missing file stands for none.
unfoldable pub IsSaved : KeyStore → Type 0
IsSaved s = (s.file ≡ some s.keys) ⊎ ((s.file ≡ none) × (s.keys ≡ []))

-- A key whose write fails is taken out again.
pub add_key-undone : (key : Key) (e : Text) (s : KeyStore) → (add_key key (some e) s).0 ≡ s
unfolding add_key
add_key-undone key e s =
    let n : length (s.keys ++ key ∷ []) - 1 ≡ length s.keys =
      omega (arith, length-append s.keys (key ∷ [])) in
    rw (n, take-append_length s.keys (key ∷ []))

pub revoke-undone : (id e : Text) (s : KeyStore) → (revoke id (some e) s).0 ≡ s
unfolding revoke persist_locked
revoke-undone id e s = ground arith

add_key-IsSaved :
    (key : Key) (written : Option Text) (s : KeyStore)
    → IsSaved s
    → IsSaved (add_key key written s).0
unfolding add_key IsSaved
add_key-IsSaved key none s h = inl refl
add_key-IsSaved key (some e) s h = subst IsSaved (sym (add_key-undone key e s)) h

revoke-IsSaved :
    (id : Text) (written : Option Text) (s : KeyStore) → IsSaved s → IsSaved (revoke id written s).0
unfolding revoke persist_locked IsSaved
revoke-IsSaved id none s h = ground arith
revoke-IsSaved id (some e) s h = subst IsSaved (sym (revoke-undone id e s)) h

revoke_from-IsSaved :
    (r : Option KeyError) (ids : List Text) (written : Text → Option Text) (s : KeyStore)
    → IsSaved s
    → IsSaved (revoke_from r ids written s).0
unfolding revoke_from
revoke_from-IsSaved r [] written s h = h
revoke_from-IsSaved r (id ∷ ids) written s h =
    revoke_from-IsSaved (first_error r (revoke id (written id) s).1) ids written
      (revoke id (written id) s).0 (revoke-IsSaved id (written id) s h)

module _ (std : Std) where
  mint-IsSaved :
      (name scope : Text) (draw : Draw) (written : Option Text) (s : KeyStore)
      → IsSaved s
      → IsSaved (mint std name scope draw written s).0
  unfolding mint
  mint-IsSaved name scope draw written s h = go draw.secret draw.id_bytes refl refl
    where
      go :
          (x y : Option Text)
          → draw.secret ≡ x
          → draw.id_bytes ≡ y
          → IsSaved (mint std name scope draw written s).0
      go none y e f = rw (e, mint) h
      go (some x) none e f = rw (e, f, mint) h
      go (some x) (some y) e f = rw (e, f, mint) (add_key-IsSaved _ written s h)

  step-IsSaved : (c : KeyCall) (s : KeyStore) → IsSaved s → IsSaved (step std c s)
  unfolding step provider_mint mint_for_control_plane commit revoke_all
  step-IsSaved (mints name draw written) s h = mint-IsSaved name [] draw written s h
  step-IsSaved (provides cfg draw written) s h =
      go (not cfg.publish || (not cfg.enabled || not cfg.compute)) refl
    where
      go :
          (b : Bool)
          → (not cfg.publish || (not cfg.enabled || not cfg.compute)) ≡ b
          → IsSaved (provider_mint std cfg draw written s).0
      go true e = rw (e, provider_mint) h
      go false e = rw (e, provider_mint) (mint-IsSaved _ _ draw written s h)
  step-IsSaved (revokes id written) s h = revoke-IsSaved id written s h
  step-IsSaved (commits [] written) s h = h
  step-IsSaved (commits (id ∷ ids) written) s h = revoke_from-IsSaved none (id ∷ ids) written s h

  run-IsSaved : (cs : List KeyCall) (s : KeyStore) → IsSaved s → IsSaved (run std cs s)
  unfolding run
  run-IsSaved [] s h = h
  run-IsSaved (c ∷ cs) s h = run-IsSaved cs (step std c s) (step-IsSaved c s h)

-- A start of the node on the file that the store has left.
abbrev file_of : KeyStore → KeysFile
file_of s = elim s.file [ none ↦ missing | some ks ↦ decoded ks ]

abbrev keys_of : KeyStore ⊎ LoadError → List Key
keys_of (inl s) = s.keys
keys_of (inr e) = []

unfoldable pub restart : KeyStore → List Key
restart s = keys_of (load_key_store (file_of s))

-- Whatever keys are minted, revoked or rotated, and whichever of the writes fail, a restart finds
-- exactly the keys that the node had in memory: memory and disk never disagree.
pub restart-run :
    (std : Std) (cs : List KeyCall) (s : KeyStore)
    → IsSaved s
    → restart (run std cs s) ≡ (run std cs s).keys
unfolding restart load_key_store IsSaved
restart-run std cs s h = elim (run-IsSaved std cs s h) [ inl e ↦ rw e | inr (e, f) ↦ rw (e, f) ]

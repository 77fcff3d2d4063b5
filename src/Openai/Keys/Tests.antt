-- ===== src/Openai/Keys/Tests.antt =====
-- A store with a person's key and a key of the control plane, of the same display name.
use onesilo_node.Base.{◌≡◌, refl, inl, true, [], ◌∷◌, none, some, text, text_eq, text_ne}
use onesilo_node.Openai.Keys.Disk.{IsSaved, restart, restart-run}
use onesilo_node.Openai.Keys.Access.{HasDistinctHashes}
use onesilo_node.Openai.Keys.Rotation.{persons, HasDistinctIds, rotate, rotate-persons}
use onesilo_node.Openai.Keys.{Key, KeyStore, Std, Draw, Switches, provides, run}

-- The standard library's functions, by ones that keep their argument.
abbrev pub plain : Std
plain = record { sum256 = λ s. s; hex = λ s. s; trim_space = λ s. s }

abbrev pub laptop : Key
laptop = record {
  id = text "key_1";
  name = text "control-plane";
  sha256 = text "silo_sk_a";
  last4 = text "sk_a";
  created_at = 1;
  scope = [];
}

abbrev pub granted_key : Key
granted_key = record {
  id = text "key_2";
  name = text "control-plane";
  sha256 = text "silo_sk_b";
  last4 = text "sk_b";
  created_at = 2;
  scope = text "control-plane";
}

abbrev pub store : KeyStore
store = record { keys = granted_key ∷ laptop ∷ []; file = some (granted_key ∷ laptop ∷ []) }

abbrev draw : Draw
draw = record { secret = some (text "c"); id_bytes = some (text "3"); now = 3 }

abbrev switches : Switches
switches = record { publish = true; enabled = true; compute = true }

store-IsSaved : IsSaved store
unfolding IsSaved
store-IsSaved = inl refl

store-HasDistinctIds : HasDistinctIds store.keys
unfolding text_eq
store-HasDistinctIds = ((text_ne laptop.id granted_key.id refl, tt), (tt, tt))

restart-run_example :
    restart (run plain (provides switches draw (some (text "disk full")) ∷ []) store)
    ≡ (run plain (provides switches draw (some (text "disk full")) ∷ []) store).keys
restart-run_example =
    restart-run plain (provides switches draw (some (text "disk full")) ∷ []) store store-IsSaved

pub hashes-distinct : HasDistinctHashes store.keys
unfolding text_eq
hashes-distinct = ((text_ne laptop.sha256 granted_key.sha256 refl, tt), (tt, tt))

rotate-persons_example :
    persons (rotate plain switches draw none (λ i. some (text "disk full")) store).keys
    ≡ persons store.keys
rotate-persons_example =
    rotate-persons plain switches draw (λ i. some (text "disk full")) store none
      store-HasDistinctIds

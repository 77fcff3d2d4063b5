-- ===== src/Controlplane/Report/Statuses.antt =====
-- The statuses that go out with a registration or a heartbeat.
use onesilo_node.Base.{
  ◌≡◌, refl, ap, ◌∙◌, inl, inr, Bool, true, false, ◌&&◌, ◌||◌, List, [], ◌∷◌, ◌++◌, Option, none,
  some, arith, Text, text_eq, Bool-cases, if◌then◌else◌,
}
use onesilo_node.Base.Assoc.{lookup, insert, lookup-insert}
use onesilo_node.Controlplane.Report.{
  Probe, status_live, status_dead, capability_status_keys, enabled_capability_ids, set_keys,
  statuses_from, capabilities_status,
}

abbrev pub has : Text → List Text → Bool
has k [] = false
has k (j ∷ js) = text_eq j k || has k js

abbrev pub or_else : Option Text → Option Text → Option Text
or_else (some v) o = some v
or_else none o = o

-- The health of the last enabled capability that reports under the key.
abbrev pub reported : Text → List Probe → Option Text
reported k [] = none
reported k (p ∷ ps) = or_else (reported k ps) (
    if p.enabled && has k (capability_status_keys p.name)
    then some (if p.healthy then status_live else status_dead)
    else none)

abbrev pub entries : Option (List (Text × Text)) → List (Text × Text)
entries none = []
entries (some l) = l

lookup-set_keys :
    (k v : Text) (ks : List Text) (st : List (Text × Text))
    → lookup k (set_keys v ks st) ≡ (if has k ks then some v else lookup k st)
unfolding set_keys
lookup-set_keys k v [] st = refl
lookup-set_keys k v (j ∷ ks) st =
    ground (arith, lookup-set_keys k v ks (insert j v st), lookup-insert j k v st)

lookup-statuses_from :
    (k : Text) (ps : List Probe) (st : List (Text × Text))
    → lookup k (statuses_from ps st) ≡ or_else (reported k ps) (lookup k st)
unfolding statuses_from
lookup-statuses_from k [] st = refl
lookup-statuses_from k (p ∷ ps) st =
    let v = if p.healthy then status_live else status_dead in
    let ks = capability_status_keys p.name in
    elim (Bool-cases p.enabled) [
      | inl on ↦
          simp (on, lookup-statuses_from k ps (set_keys v ks st), lookup-set_keys k v ks st)
            (join (reported k ps) (has k ks) v (lookup k st))
      | inr off ↦
          simp (off, lookup-statuses_from k ps st) (join (reported k ps) false v (lookup k st))
    ]
  where
    join :
        (o : Option Text) (b : Bool) (v : Text) (r : Option Text)
        → or_else o (if b then some v else r) ≡ or_else (or_else o (if b then some v else none)) r
    join (some x) b v r = refl
    join none true v r = refl
    join none false v r = refl

entries-capabilities_status :
    (ps : List Probe) → entries (capabilities_status ps) ≡ statuses_from ps []
unfolding capabilities_status
entries-capabilities_status ps = go (statuses_from ps []) refl
  where
    go : (l : List (Text × Text)) → statuses_from ps [] ≡ l → entries (capabilities_status ps) ≡ l
    go [] e = rw (e, capabilities_status)
    go (x ∷ l) e = rw (e, capabilities_status)

has-append : (k : Text) (xs ys : List Text) → has k (xs ++ ys) ≡ (has k xs || has k ys)
has-append k [] ys = refl
has-append k (x ∷ xs) ys = ground (arith, has-append k xs ys)

abbrev pub is_some : Option Text → Bool
is_some none = false
is_some (some v) = true

reported-enabled :
    (k : Text) (ps : List Probe) → is_some (reported k ps) ≡ has k (enabled_capability_ids ps)
unfolding enabled_capability_ids
reported-enabled k [] = refl
reported-enabled k (p ∷ ps) = ground (
  arith,
  reported-enabled k ps,
  has-append k (capability_status_keys p.name) (enabled_capability_ids ps),
)

-- The statuses that are sent tell, under each key, "live" or "dead" after the probe of the last
-- enabled capability that reports under it, and they have exactly the keys of the capabilities that
-- are registered: a disabled capability is left out.
pub lookup-capabilities_status :
    (k : Text) (ps : List Probe)
    → (lookup k (entries (capabilities_status ps)) ≡ reported k ps)
      × (is_some (lookup k (entries (capabilities_status ps))) ≡ has k (enabled_capability_ids ps))
unfolding lookup
lookup-capabilities_status k ps =
    let e : lookup k (entries (capabilities_status ps)) ≡ reported k ps =
      rw entries-capabilities_status (lookup-statuses_from k ps [] ∙ drop_none (reported k ps)) in
    (e, ap is_some e ∙ reported-enabled k ps)
  where
    drop_none : (o : Option Text) → or_else o none ≡ o
    drop_none none = refl
    drop_none (some v) = refl

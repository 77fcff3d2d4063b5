-- ===== src/Pairing/Jwks.antt =====
-- internal/pairing/jwks.go: the cache of the control plane's keys, as goroutines share it. A call of
-- Keys or KeysForKid takes the lock to look, lets go of it, and takes it again in refresh; the events
-- are these critical sections, for any number of calls, in any order. Times are in seconds; `none` is
-- the zero time. The request is a parameter: its outcome stands in the event that ends the fetch.
pub mod Shared
pub mod Fetched
mod Tests
use onesilo_node.Base.{
  ℕ, suc, ◌-◌, Bool, true, false, not, ◌&&◌, List, [], ◌∷◌, Option, none, some, Text, ltb, ◌==◌,
  if◌then◌else◌,
}
use onesilo_node.Base.Assoc.{lookup}
use onesilo_node.Pairing.Assertion.{EcPublicKeys}

abbrev pub jwks_cache_ttl : ℕ
jwks_cache_ttl = 600

abbrev pub jwks_min_refresh : ℕ
jwks_min_refresh = 30

-- Where a call stands. It has looked and will refresh, with the stale keys that Keys falls back to; it
-- fetches; it waits for the fetch of another; or it has its answer, where `none` is an error.
pub data Phase : Type 0 where
  idle : Phase
  looked leads waits : (stale : Option EcPublicKeys) → Phase
  answered : Option EcPublicKeys → Phase

-- `fetches` counts the requests that were sent, and `brought` lists what the successful ones returned.
pub record Source : Type 0 where
  pub keys : Option EcPublicKeys
  pub fetched_at : ℕ
  pub last_attempt : Option ℕ
  pub inflight : Bool
  pub calls : ℕ → Phase
  pub fetches : ℕ
  pub brought : List EcPublicKeys

unfoldable pub new_source : Source
new_source = record {
  keys = none;
  fetched_at = 0;
  last_attempt = none;
  inflight = false;
  calls = λ i. idle;
  fetches = 0;
  brought = [];
}

abbrev pub put : ℕ → Phase → (ℕ → Phase) → ℕ → Phase
put i p calls j = if j == i then p else calls j

abbrev pub go_to : ℕ → Phase → Source → Source
go_to i p s = record s { calls = put i p s.calls }

abbrev pub is_fresh : (now fetched_at : ℕ) → Option EcPublicKeys → Bool
is_fresh now at none = false
is_fresh now at (some ks) = ltb (now - at) jwks_cache_ttl

-- Keys up to the refresh.
unfoldable pub look : (i now : ℕ) → Source → Source
look i now s =
    if is_fresh now s.fetched_at s.keys
    then go_to i (answered s.keys) s
    else go_to i (looked s.keys) s

abbrev pub has_kid : Text → Option EcPublicKeys → Bool
has_kid kid none = false
has_kid kid (some ks) = elim (lookup kid ks) [ none ↦ false | some k ↦ true ]

abbrev pub is_limited : (now : ℕ) → Option ℕ → Bool
is_limited now none = false
is_limited now (some t) = ltb (now - t) jwks_min_refresh

-- KeysForKid up to the refresh, which it has nothing to fall back to.
unfoldable pub look_for_kid : (i : ℕ) → Text → (now : ℕ) → Source → Source
look_for_kid i kid now s =
    if has_kid kid s.keys
    then go_to i (answered s.keys) s
    else if is_limited now s.last_attempt
    then go_to i (answered s.keys) s
    else go_to i (looked none) s

-- The first critical section of refresh: the first call leads, the others wait for it.
unfoldable pub enter : (i now : ℕ) → (stale : Option EcPublicKeys) → Source → Source
enter i now stale s = if s.inflight then go_to i (waits stale) s else record s {
  inflight = true;
  last_attempt = some now;
  calls = put i (leads stale) s.calls;
  fetches = suc s.fetches;
}

abbrev pub or_stale : Option EcPublicKeys → Option EcPublicKeys → Option EcPublicKeys
or_stale (some ks) stale = some ks
or_stale none stale = stale

-- A call that waits is given the result; with an error, Keys serves what it found stale.
abbrev pub wake : Option EcPublicKeys → Phase → Phase
wake result idle = idle
wake result (looked stale) = looked stale
wake result (leads stale) = leads stale
wake result (waits stale) = answered (or_stale result stale)
wake result (answered a) = answered a

abbrev pub store : (now : ℕ) → Option EcPublicKeys → Source → Source
store now none s = s
store now (some ks) s = record s { keys = some ks; fetched_at = now; brought = ks ∷ s.brought }

-- The end of the leader's fetch.
unfoldable pub finish : (i now : ℕ) → (result stale : Option EcPublicKeys) → Source → Source
finish i now result stale s =
    let t = store now result s in
    record t {
      inflight = false;
      calls = put i (answered (or_stale result stale)) (λ j. wake result (s.calls j));
    }

pub data Event : Type 0 where
  asks : (i now : ℕ) → Event
  asks_for : (i : ℕ) → (kid : Text) → (now : ℕ) → Event
  enters : (i now : ℕ) → Event
  fetched : (i now : ℕ) → Option EcPublicKeys → Event
  cancelled : (i : ℕ) → Event

-- What a call does next depends on where it stands.
unfoldable pub advance : Event → Phase → Source → Source
advance (asks i now) idle s = look i now s
advance (asks_for i kid now) idle s = look_for_kid i kid now s
advance (enters i now) (looked stale) s = enter i now stale s
advance (fetched i now result) (leads stale) s = finish i now result stale s
advance (cancelled i) (waits stale) s = go_to i (answered stale) s
advance e p s = s

abbrev pub call_of : Event → ℕ
call_of (asks i now) = i
call_of (asks_for i kid now) = i
call_of (enters i now) = i
call_of (fetched i now result) = i
call_of (cancelled i) = i

unfoldable pub step : Event → Source → Source
step e s = advance e (s.calls (call_of e)) s

unfoldable pub run : List Event → Source → Source
run [] s = s
run (e ∷ es) s = run es (step e s)

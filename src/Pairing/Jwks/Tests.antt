-- ===== src/Pairing/Jwks/Tests.antt =====
-- Two calls with the same unknown kid.
use onesilo_node.Base.{◌≡◌, refl, List, [], ◌∷◌, some, Text, text}
use onesilo_node.Base.Assoc.{lookup}
use onesilo_node.Pairing.Jwks.{
  new_source, look_for_kid, enter, finish, Event, asks_for, enters, fetched, advance, step, run,
  answered,
}
use onesilo_node.Pairing.Jwks.Shared.{IsShared}
use onesilo_node.Pairing.Jwks.Fetched.{run_new-IsShared}

abbrev kid : Text
kid = text "k9"

abbrev together : List Event
together =
    asks_for 1 kid 100
    ∷ asks_for 2 kid 100
    ∷ enters 1 100
    ∷ enters 2 100
    ∷ fetched 1 101 (some [])
    ∷ []

-- They share one fetch if the second comes before the first is done.
one_fetch : (run together new_source).fetches ≡ 1
unfolding run step advance look_for_kid enter finish new_source lookup
one_fetch = refl

both_served : (run together new_source).calls 2 ≡ answered (some [])
unfolding run step advance look_for_kid enter finish new_source lookup
both_served = refl

abbrev in_turn : List Event
in_turn =
    asks_for 1 kid 100
    ∷ asks_for 2 kid 100
    ∷ enters 1 100
    ∷ fetched 1 101 (some [])
    ∷ enters 2 101
    ∷ []

-- A second that has passed the limit before the first fetch still sends its own after it.
two_fetches : (run in_turn new_source).fetches ≡ 2
unfolding run step advance look_for_kid enter finish new_source lookup
two_fetches = refl

run_new-IsShared_example : IsShared (run in_turn new_source)
run_new-IsShared_example = run_new-IsShared in_turn

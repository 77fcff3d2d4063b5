-- ===== src/Controlplane/Client.antt =====
-- internal/controlplane/client.go: the retry of a registration and of a heartbeat without the fields
-- that an old server does not know. What the server answers to one request is an argument.
pub mod Fallback
mod Tests
use onesilo_node.Base.{
  Bool, true, false, ◌&&◌, ◌||◌, not, List, [], ◌∷◌, Option, none, some, Text, is_empty,
  if◌then◌else◌,
}
use onesilo_node.Controlplane.Report.{
  RegisterRequest, RegisterResponse, Answer, accepted, refused, is_status,
}

abbrev is_sent : Option (List (Text × Text)) → Bool
is_sent none = false
is_sent (some st) = true

unfoldable pub retry_register :
    (RegisterRequest → Answer RegisterResponse)
    → RegisterRequest
    → Answer RegisterResponse
    → Answer RegisterResponse
retry_register send req (accepted resp) = accepted resp
retry_register send req (refused e) =
    if is_status 422 e && (is_sent req.capabilities_status || not (is_empty req.inference_key))
    then send (record req { capabilities_status = none; inference_key = [] })
    else refused e

unfoldable pub client_register :
    (RegisterRequest → Answer RegisterResponse) → RegisterRequest → Answer RegisterResponse
client_register send req = retry_register send req (send req)

-- `send` is the POST for one device, with or without the body.
unfoldable pub client_heartbeat :
    (Option (List (Text × Text)) → Answer (Unit {0}))
    → Option (List (Text × Text))
    → Answer (Unit {0})
client_heartbeat send none = send none
client_heartbeat send (some []) = send none
client_heartbeat send (some (e ∷ st)) = elim (send (some (e ∷ st))) [
  | accepted u ↦ accepted u
  | refused x ↦ if is_status 422 x then send none else refused x
]

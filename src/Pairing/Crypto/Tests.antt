-- ===== src/Pairing/Crypto/Tests.antt =====
-- One transcript, with a field that is built in two ways.
use onesilo_node.Base.{◌≡◌, refl, [], ◌∷◌, ◌++◌, arith, text}
use onesilo_node.Pairing.Crypto.Framing.{transcript-injective}
use onesilo_node.Pairing.Crypto.{Transcript, framed_all}

abbrev sent : Transcript
sent = record {
  app_id_pub = text "app";
  node_id_pub = text "node";
  app_eph_pub = text "app2";
  node_eph_pub = text "node2";
  app_nonce = 1 ∷ 2 ∷ [];
  node_nonce = 3 ∷ [];
  assertion_sha = 200 ∷ 201 ∷ [];
}

abbrev received : Transcript
received = record sent { app_eph_pub = text "app" ++ text "2" }

transcript-injective_example : sent ≡ received
unfolding framed_all
transcript-injective_example = transcript-injective sent received (omega arith) (omega arith) refl

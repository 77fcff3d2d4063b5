-- ===== src/Pairing/Responder/Tests.antt =====
-- An app and a node whose keys are texts and whose exchange keeps the lengths.
use onesilo_node.Base.{
  ℕ, ◌≡◌, ◌⊎◌, refl, ap, ◌+◌, List, [], ◌∷◌, ◌++◌, some, arith, Text, text, text_eq, length,
  replicate,
}
use onesilo_node.Base.Strings.{split, trim_right}
use onesilo_node.Base.Assoc.{lookup}
use onesilo_node.Pairing.Crypto.{Primitives, hash, derive_session_key, sas, verify_mac}
use onesilo_node.Pairing.Assertion.Tests.{platform, verifier, token}
use onesilo_node.Pairing.Assertion.{
  b64url_decode, read_header, check_header, read_parts, check_bytes, check_signature, check_claims,
  read_claims, judge, refreshed_key, trusted_key, verify_parts, verify,
}
use onesilo_node.Pairing.Responder.Order.{Call, hellos, confirms, run, IsProved, run_new-IsProved}
use onesilo_node.Base.Result.{ok}
use onesilo_node.Pairing.Responder.Protocol.{App, IsSound, app_hello, app_confirmation}
use onesilo_node.Pairing.Responder.Agreement.{IsAgreement, hello-IsAgreement}
use onesilo_node.Pairing.Responder.Answer.{IsComplete, hello_lem}
use onesilo_node.Pairing.Assertion.Tests.{assertion}
use onesilo_node.Pairing.Responder.{
  Responder, Draw, Ack, Agreed, Outcome, new_responder, transcript, derive, decode_b64, decode_pub,
  check_offer, read_hello, ack_of, establish, draw_keys, judge_hello, offered, hello,
}

abbrev pub primitives : Primitives Text Text
primitives = record {
  public_of = λ k. k;
  bytes_of = λ k. k;
  parse_public = λ b. some b;
  ecdh = λ a b. some ((length a + length b) ∷ []);
  sha256 = λ s. s;
  hmac = λ key m. key ++ m;
  hkdf = λ secret salt info size. some (size ∷ secret);
  encode = λ s. s;
  decode = λ s. some s;
  eight_digits = λ n. n ∷ [];
}

primitives-IsSound : IsSound primitives
primitives-IsSound = record {
  decode-encode = λ s. refl;
  parse-bytes = λ k. refl;
  ecdh-comm = λ a b.
      let e : length a + length b ≡ length b + length a = omega arith in ap (λ n. some (n ∷ [])) e;
}

abbrev pub app : App Text
app = record { identity = text "app"; eph = text "e"; nonce = replicate 16 1; assertion = token }

abbrev pub node : Responder Text
node = new_responder (text "node")

abbrev pub draw : Draw Text ℕ
draw = record { eph = some (text "nn"); nonce = some (replicate 16 2); now = 95 }

abbrev pub agreed : Agreed
agreed = record {
  transcript_hash = hash primitives (
      transcript primitives (text "node") (text "nn") (replicate 16 2) token
        (record { app_id_pub = text "app"; app_eph_pub = text "e"; app_nonce = replicate 16 1 }));
  session_key = 32 ∷ 3 ∷ 7 ∷ [];
  sas = 36315655 ∷ [];
}

abbrev ack : Ack
ack = ack_of primitives (text "node") (text "nn") (replicate 16 2) agreed

hello-IsAgreement_example :
    IsAgreement primitives app
      (hello primitives platform verifier draw (app_hello primitives app) node []).0
      ack
unfolding new_responder hello offered read_hello decode_pub decode_b64 check_offer judge_hello
    draw_keys establish derive transcript ack_of derive_session_key sas verify_mac verify
    verify_parts trusted_key refreshed_key judge read_claims check_claims check_signature
    check_bytes read_parts read_header check_header b64url_decode trim_right split lookup text_eq
hello-IsAgreement_example =
    hello-IsAgreement primitives primitives-IsSound platform verifier draw app node [] ack refl refl

abbrev calls : List (Call Text ℕ)
calls =
    hellos draw (app_hello primitives app)
    ∷ confirms (app_confirmation primitives agreed)
    ∷ confirms (app_confirmation primitives agreed)
    ∷ []

run_new-IsProved_example :
    (run primitives platform verifier calls node [] ≡ [])
    ⊎ ((o : Outcome) × (run primitives platform verifier calls node [] ≡ o ∷ [])
        × IsProved primitives platform verifier calls (text "node") o)
run_new-IsProved_example = run_new-IsProved primitives platform verifier calls (text "node") []

primitives-IsComplete : IsComplete primitives
primitives-IsComplete = record {
  shared = λ a b. ((length a + length b) ∷ [], refl);
  expanded = λ secret salt info size h. (size ∷ secret, refl);
}

hello_lem_example :
    (a : Ack) × ((hello primitives platform verifier draw (app_hello primitives app) node []).2
      ≡ ok a)
    × IsAgreement primitives app
        (hello primitives platform verifier draw (app_hello primitives app) node []).0
        a
unfolding new_responder verify verify_parts trusted_key refreshed_key judge read_claims check_claims
    check_signature check_bytes read_parts read_header check_header b64url_decode trim_right split
    lookup text_eq
hello_lem_example =
    hello_lem primitives primitives-IsSound primitives-IsComplete platform verifier draw app node []
      assertion (text "nn") (replicate 16 2) refl refl refl (λ e. absurd (cc)) refl refl refl refl

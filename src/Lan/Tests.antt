-- ===== src/Lan/Tests.antt =====
-- A connection that shakes hands, is confirmed by the operator and asks the model.
use onesilo_node.Base.{
  ℕ, ◌≡◌, refl, ◌++◌, arith, true, false, List, [], ◌∷◌, none, some, Text, text, text_eq, replicate,
  drop, length-append,
}
use onesilo_node.Base.Result.{ok}
use onesilo_node.Base.Assoc.{lookup, insert, delete}
use onesilo_node.Base.Strings.{split, trim_right}
use onesilo_node.Pairing.Crypto.{
  Primitives, hash, derive_session_key, sas, verify_mac, app_confirm, confirm_mac, framed_all,
  framed, put_uint32,
}
use onesilo_node.Pairing.Assertion.Tests.{platform, verifier, token}
use onesilo_node.Pairing.Assertion.{
  b64url_decode, read_header, check_header, read_parts, check_bytes, check_signature, check_claims,
  read_claims, judge, refreshed_key, trusted_key, verify_parts,
}
use onesilo_node.Pairing.Responder.Tests.{primitives, app, draw}
use onesilo_node.Pairing.Responder.Protocol.{app_hello}
use onesilo_node.Pairing.PinStore.Tests.{
  account, key, other_key, empty_store, pending_store, pending_store-IsValid, key-IsNulFree,
  other_key-IsNulFree, keys-ne,
}
use onesilo_node.Pairing.PinStore
use onesilo_node.Pairing.Assertion
use onesilo_node.Pairing.PinStore.{
  pin_key, observe, observe_new, is_verified, other_verified, evict, first_pin, save_locked,
}
use onesilo_node.Pairing.Responder.{
  Confirm, new_responder, transcript, derive, decode_b64, decode_pub, check_offer, read_hello,
  ack_of, establish, draw_keys, judge_hello, offered, hello, outcome_of, conclude, confirm, Outcome,
}
use onesilo_node.Lan.{PendingPairing, Pairer, new_session}
use onesilo_node.Lan.Envelope.{Aead, IsAead, open_sealed}
use onesilo_node.Lan.Gate.{
  greeted, responder_of, handle_hello, confirmed, pinned, activated, handle_confirm,
  inference_allowed, rechecked, record_pending, pending_key, clear_pending, cleared, verify_pairing,
}
use onesilo_node.Lan.Router.{
  Frame, Inner, Surroundings, envelope, pair_hello, pair_confirm, user_message, select_key,
  set_generation, answer_message, route_inner, decrypt, decrypted, handle_envelope, handle,
}
use onesilo_node.Lan.Life.{Event, receives, operator_verifies, step, run}
use onesilo_node.Lan.Life.Downgrade.{without_file_key, no_downgrade}
use onesilo_node.Lan.Life.Inference.{IsAdmitted, new_node, inference-IsAdmitted}
use onesilo_node.Lan.Gate.Pending.{IsStuck, replaced-IsStuck}
use onesilo_node.Lan.Generation.{Generated, Measures, yields, broken, generate}
use onesilo_node.Lan.Generation.Frames.{expected, generate-answer}

abbrev pub tag : Text
tag = replicate 16 0

-- The tag is sixteen zeros.
abbrev pub aead : Aead
aead = record {
  gcm_seal = λ key nonce s aad. tag ++ s;
  gcm_open = λ key nonce s aad. some (drop 16 s);
}

abbrev p : Primitives Text Text
p = record primitives { hkdf = λ secret salt info size. some (replicate size 5) }

abbrev parse : Text → Inner ℕ
parse s = user_message (ok (record { content = s; temperature = none }))

abbrev pairer : Pairer Text
pairer = record {
  fresh_responder = new_responder (text "node");
  pins = empty_store;
  require_verify = true;
  pending = [];
}

abbrev now : Surroundings Text ℕ
now = record { draw = draw; now = 7; written = none; file_key = some (text "file") }

abbrev confirmation : Confirm
confirmation = record {
  frame = text "pair_confirm";
  app_confirm = app_confirm p (replicate 32 5) (
      hash p (
        transcript p (text "node") (text "nn") (replicate 16 2) token (record {
          app_id_pub = text "app";
          app_eph_pub = text "e";
          app_nonce = replicate 16 1;
        })));
}

abbrev events : List (Event Text ℕ)
events =
    receives now (pair_hello (some (app_hello p app)))
    ∷ receives now (pair_confirm (some confirmation))
    ∷ operator_verifies (text "acct") (text "app") 8 none
    ∷ []

abbrev question : Frame
question = envelope (replicate 44 0) (text "u")

inference-IsAdmitted_example :
    IsAdmitted now.file_key
      (replicate 32 5)
      (handle p aead parse platform verifier now question
        (run p aead parse platform verifier events (new_node pairer [])).0).0
unfolding delete insert lookup text_eq split trim_right open_sealed activated clear_pending cleared
    inference_allowed pending_key pinned rechecked record_pending verify_pairing handle
    handle_envelope select_key run step handle_confirm handle_hello greeted confirmed confirm hello
    responder_of new_session new_responder offered read_hello decode_pub decrypt decrypted
    answer_message route_inner set_generation b64url_decode check_bytes check_claims check_header
    check_signature judge read_claims read_header read_parts refreshed_key trusted_key
    Assertion.verify verify_parts app_confirm derive_session_key sas verify_mac ack_of check_offer
    conclude decode_b64 derive draw_keys establish judge_hello outcome_of transcript PinStore.verify
    is_verified observe observe_new other_verified evict first_pin pin_key save_locked confirm_mac
    hash framed_all framed put_uint32
inference-IsAdmitted_example =
    inference-IsAdmitted p aead parse platform verifier events pairer [] now question 0
      (replicate 32 5) (text "u") (record { content = replicate 16 0; temperature = none }) refl
      refl

no_downgrade_example :
    let m =
      (handle p aead parse platform verifier now
        (pair_hello (some (app_hello p app)))
        (new_node pairer [])).0 in
    run p aead parse platform verifier (receives now question ∷ []) m
    ≡ run p aead parse platform verifier (receives (record now { file_key = none }) question ∷ []) m
unfolding without_file_key
no_downgrade_example =
    no_downgrade p aead parse platform verifier now (app_hello p app) pairer
      (receives now question ∷ []) (new_node pairer []) refl

pub aead-IsAead : IsAead aead
aead-IsAead = record {
  length-gcm_seal = λ key nonce s aad. omega (arith, length-append tag s);
  gcm_open-gcm_seal = λ key nonce s aad. refl;
}

abbrev outcome : Outcome
outcome = record {
  session_key = replicate 32 5;
  sas = text "11111111";
  app_id_pub = other_key;
  account_id = account;
  node_device_id = text "d1";
}

abbrev waiting : PendingPairing
waiting = record { account_id = account; app_id_pub = key; sas = text "22222222" }

-- The first app waits for the operator.
abbrev waiting_pairer : Pairer Text
waiting_pairer = record {
  fresh_responder = new_responder (text "node");
  pins = pending_store;
  require_verify = true;
  pending = (pending_key account key, waiting) ∷ [];
}

replaced-IsStuck_example :
    (r : Pairer Text) × ((pinned outcome waiting_pairer
        (observe account other_key 9 none pending_store)
        (new_node waiting_pairer (text ""))).0.pairer
      ≡ some r)
    × IsStuck account key waiting r
unfolding lookup pin_key pending_key text_eq
replaced-IsStuck_example =
    replaced-IsStuck outcome key waiting waiting_pairer 9 (new_node waiting_pairer (text "")) refl
      other_key-IsNulFree key-IsNulFree keys-ne pending_store-IsValid refl ((λ e. refl), tt) refl

abbrev measures : Measures ℕ
measures = record {
  default_temperature = 7;
  no_time = 0;
  thinking_time = 1;
  tokens_per_second = λ n. n;
}

abbrev stream : List Generated
stream =
    yields (record { response = text "a"; prompt_eval_count = 3; is_done = false })
    ∷ yields (record { response = []; prompt_eval_count = 0; is_done = true })
    ∷ broken
    ∷ []

generate-answer_example :
    generate
      (λ n. true)
      measures
      (some (λ prompt temperature. some stream))
      (record { content = text "q"; temperature = none })
    ≡ expected measures
        (some (λ prompt temperature. some stream))
        (record { content = text "q"; temperature = none })
generate-answer_example =
    generate-answer measures (some (λ prompt temperature. some stream))
      (record { content = text "q"; temperature = none })

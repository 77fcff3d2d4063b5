-- ===== src/Pairing/Responder/Answer.antt =====
-- The handshake with an app that follows the protocol comes to its end.
use onesilo_node.Base.{
  ℕ, ◌%◌, ◌≤◌, arith, ◌++◌, Option, ◌≡◌, ◌≢◌, [], text_eq_iff, ap, ◌∙◌, false, not, some, Text,
  text_eq, length,
}
use onesilo_node.Base.Result.{Result, ok}
use onesilo_node.Pairing.Crypto.{
  Primitives, Transcript, verify_mac, hash, derive_session_key, sas, kdf_info, sas_info, big_endian,
}
use onesilo_node.Pairing.Assertion.{Platform, AssertionVerifier, Assertion, verify}
use onesilo_node.Pairing.Responder.Steps.{if_false}
use onesilo_node.Pairing.Responder.Agreement.{IsAgreement, hello-IsAgreement}
use onesilo_node.Pairing.Responder.{
  Ack, HandshakeError, Responder, Draw, Agreed, transcript, derive, ack_of, judge_hello, draw_keys,
  establish, offered, hello,
}
use onesilo_node.Pairing.Responder.Protocol.{IsSound, app_hello, app_offer, read-app_hello, App}

module _ {Private Public : Type 0} (p : Primitives Private Public) where
  judge_hello-answers :
      {Time : Type 0} (d : Draw Private Time) (x : App Private) (a : Assertion)
      (r : Responder Private)
      → a.app_id_pub ≡ p.encode (p.bytes_of (p.public_of x.identity))
      → (judge_hello p d (app_hello p x) (app_offer p x) (ok a) r).1
        ≡ (draw_keys p d.eph d.nonce x.assertion a (app_offer p x) r).1
  unfolding judge_hello verify_mac
  judge_hello-answers d x a r same =
      ap (λ (z : Responder Private × Result HandshakeError Ack). z.1)
        (if_false (not (text_eq a.app_id_pub (p.encode (p.bytes_of (p.public_of x.identity))))) _ _
          (ap not ((text_eq_iff a.app_id_pub _).1 same)))

  draw_keys-answers :
      (x : App Private) (a : Assertion) (r : Responder Private) (eph : Private) (nonce : Text)
      (g : Agreed)
      → derive p
          (p.ecdh eph (p.public_of x.eph))
          (p.ecdh r.identity (p.public_of x.identity))
          (transcript p r.identity eph nonce x.assertion (app_offer p x))
        ≡ ok g
      → (draw_keys p (some eph) (some nonce) x.assertion a (app_offer p x) r).1
        ≡ ok (ack_of p r.identity eph nonce g)
  unfolding draw_keys establish
  draw_keys-answers x a r eph nonce g k = ap (λ z. (establish p eph nonce a r z).1) k

  module _ (sound : IsSound p) where
    module _ {Time S : Type 0} (platform : Platform Time) (v : AssertionVerifier S) where
      hello-app_hello :
          (d : Draw Private Time) (x : App Private) (r : Responder Private) (s : S) (a : Assertion)
          (eph : Private) (nonce : Text) (g : Agreed)
          → r.hello_done ≡ false
          → length x.nonce ≡ 16
          → x.assertion ≢ []
          → (verify platform v d.now x.assertion s).1 ≡ ok a
          → a.app_id_pub ≡ p.encode (p.bytes_of (p.public_of x.identity))
          → d.eph ≡ some eph
          → d.nonce ≡ some nonce
          → derive p
              (p.ecdh eph (p.public_of x.eph))
              (p.ecdh r.identity (p.public_of x.identity))
              (transcript p r.identity eph nonce x.assertion (app_offer p x))
            ≡ ok g
          → (hello p platform v d (app_hello p x) r s).2 ≡ ok (ack_of p r.identity eph nonce g)
      unfolding hello offered
      hello-app_hello d x r s a eph nonce g f n t ha same e1 e2 k =
          ap (λ (z : Responder Private × S × Result HandshakeError Ack). z.2)
            (if_false r.hello_done _ _ f)
          ∙ ap (λ z. (offered p platform v d (app_hello p x) z r s).2)
              (read-app_hello p sound x n t)
          ∙ ap (λ z. (judge_hello p d (app_hello p x) (app_offer p x) z r).1) ha
          ∙ judge_hello-answers d x a r same
          ∙ ap (λ z. (draw_keys p z d.nonce x.assertion a (app_offer p x) r).1) e1
          ∙ ap (λ z. (draw_keys p (some eph) z x.assertion a (app_offer p x) r).1) e2
          ∙ draw_keys-answers x a r eph nonce g k

  -- What the primitives give for keys of the curve and for outputs of at most 255 blocks of SHA-256.
  pub record IsComplete : Type 0 where
    pub shared : (a b : Private) → (z : Text) × (p.ecdh a (p.public_of b) ≡ some z)
    pub expanded :
        (secret salt info : Text) (size : ℕ)
        → size ≤ 8160
        → (k : Text) × (p.hkdf secret salt info size ≡ some k)

  derive-some :
      (ee ss : Option Text) (u v : Text) (t : Transcript)
      → IsComplete
      → ee ≡ some u
      → ss ≡ some v
      → (g : Agreed) × (derive p ee ss t ≡ ok g)
  unfolding derive derive_session_key sas
  derive-some ee ss u v t full e1 e2 =
      let (k, h1) = full.expanded (u ++ v) (hash p t) kdf_info 32 (omega arith) in
      let (raw, h2) = full.expanded k [] sas_info 8 (omega arith) in
      (
        record {
          transcript_hash = hash p t;
          session_key = k;
          sas = p.eight_digits (big_endian 0 raw % 100000000);
        },
        simp (e1, e2, h1, h2),
      )

  module _ (sound : IsSound p) (full : IsComplete) where
    module _ {Time S : Type 0} (platform : Platform Time) (v : AssertionVerifier S) where
      -- A handshake with an app that follows the protocol succeeds: if the assertion is accepted for the
      -- app's key, the nonce has 16 bytes and the node can draw its own values, then a connection that has
      -- neither taken a hello nor delivered answers the app's hello with an acknowledgement; from it the
      -- app derives the node's session key and SAS and finds the tag that it expects; and the node accepts
      -- the app's confirmation and delivers this key. Encodings can be read back, the key exchange is
      -- symmetric, and the exchange and the key derivation do not fail.
      pub hello_lem :
          (d : Draw Private Time) (x : App Private) (r : Responder Private) (s : S) (a : Assertion)
          (eph : Private) (nonce : Text)
          → r.hello_done ≡ false
          → r.done ≡ false
          → length x.nonce ≡ 16
          → x.assertion ≢ []
          → (verify platform v d.now x.assertion s).1 ≡ ok a
          → a.app_id_pub ≡ p.encode (p.bytes_of (p.public_of x.identity))
          → d.eph ≡ some eph
          → d.nonce ≡ some nonce
          → (ack : Ack) × ((hello p platform v d (app_hello p x) r s).2 ≡ ok ack)
            × IsAgreement p x (hello p platform v d (app_hello p x) r s).0 ack
      hello_lem d x r s a eph nonce f m n t ha same e1 e2 =
          let (u, h1) = full.shared eph x.eph in
          let (w, h2) = full.shared r.identity x.identity in
          let (g, k) =
            derive-some _ _ u w (transcript p r.identity eph nonce x.assertion (app_offer p x)) full
              h1 h2 in
          let answers =
            hello-app_hello sound platform v d x r s a eph nonce g f n t ha same e1 e2 k in
          (
            ack_of p r.identity eph nonce g,
            answers,
            hello-IsAgreement p sound platform v d x r s (ack_of p r.identity eph nonce g) m
                answers,
          )

-- ===== src/Pairing/Responder/Protocol.antt =====
-- An app that follows the protocol.
use onesilo_node.Base.{
  ◌≡◌, ◌≢◌, [], sym, ap, ◌∙◌, true, false, not, ◌==◌, is_empty, some, Text, text, text_eq,
  text_eq_refl, length,
}
use onesilo_node.Base.Result.{Result, ok, ◌>>=◌}
use onesilo_node.Pairing.Crypto.{Primitives, nonce_len, verify_mac, app_confirm, node_confirm}
use onesilo_node.Pairing.Assertion.Stages.{is_empty_iff, bind_ok, if_ok}
use onesilo_node.Pairing.Responder.Steps.{if_true, if_false}
use onesilo_node.Pairing.Responder.{
  bad_nonce_size, missing_assertion, Hello, Ack, Confirm, HandshakeError, Responder, Offer, Agreed,
  decode_b64, decode_pub, read_hello, check_offer, transcript, derive, ack_of, outcome_of, confirm,
  conclude,
}

-- The app of one connection.
pub record App (Private : Type 0) : Type 0 where
  pub identity : Private
  pub eph : Private
  pub nonce : Text
  pub assertion : Text

pub ok_injective : {A : Type 0} {a b : A} → ◌≡◌ {A = Result HandshakeError A} (ok a) (ok b) → a ≡ b
ok_injective e = cc e

module _ {Private Public : Type 0} (p : Primitives Private Public) where
  abbrev pub app_hello : App Private → Hello
  app_hello x = record {
    frame = text "pair_hello";
    app_id_pub = p.encode (p.bytes_of (p.public_of x.identity));
    app_eph_pub = p.encode (p.bytes_of (p.public_of x.eph));
    app_nonce = p.encode x.nonce;
    assertion = x.assertion;
  }

  -- The app's side of the derivation, from its own keys and the acknowledgement.
  unfoldable pub app_agree : App Private → Ack → Result HandshakeError Agreed
  app_agree x ack = do
    node_id ← decode_pub p (text "node_id_pub") ack.node_id_pub
    node_eph ← decode_pub p (text "node_eph_pub") ack.node_eph_pub
    nonce ← decode_b64 p (text "node_nonce") ack.node_nonce
    derive p (p.ecdh x.eph node_eph) (p.ecdh x.identity node_id) (record {
      app_id_pub = p.bytes_of (p.public_of x.identity);
      node_id_pub = p.bytes_of node_id;
      app_eph_pub = p.bytes_of (p.public_of x.eph);
      node_eph_pub = p.bytes_of node_eph;
      app_nonce = x.nonce;
      node_nonce = nonce;
      assertion_sha = p.sha256 x.assertion;
    })

  abbrev pub app_confirmation : Agreed → Confirm
  app_confirmation g = record {
    frame = text "pair_confirm";
    app_confirm = p.encode (app_confirm p g.session_key g.transcript_hash);
  }

  -- The encodings can be read back, and both ends of a Diffie-Hellman exchange get one secret.
  pub record IsSound : Type 0 where
    pub decode-encode : (s : Text) → p.decode (p.encode s) ≡ some s
    pub parse-bytes : (k : Public) → p.parse_public (p.bytes_of k) ≡ some k
    pub ecdh-comm : (a b : Private) → p.ecdh a (p.public_of b) ≡ p.ecdh b (p.public_of a)

  check_offer_same : (t : Text) (o q : Offer Public) → check_offer p t o ≡ ok q → q ≡ o
  unfolding check_offer
  check_offer_same t o q e =
      let (n, e1) = if_ok (not (length o.app_nonce == nonce_len)) bad_nonce_size _ e in
      let (t, e2) = if_ok (is_empty t) missing_assertion (ok o) e1 in sym (ok_injective e2)

  -- The hello, decoded.
  abbrev pub app_offer : App Private → Offer Public
  app_offer x = record {
    app_id_pub = p.public_of x.identity;
    app_eph_pub = p.public_of x.eph;
    app_nonce = x.nonce;
  }

  module _ (sound : IsSound) where
    decode_pub-encode :
        (field : Text) (k : Public) → decode_pub p field (p.encode (p.bytes_of k)) ≡ ok k
    unfolding decode_pub decode_b64
    decode_pub-encode field k = simp (sound.decode-encode, sound.parse-bytes)

    decode_b64-encode : (field s : Text) → decode_b64 p field (p.encode s) ≡ ok s
    unfolding decode_b64
    decode_b64-encode field s = simp (sound.decode-encode)

    -- A hello of the app that is read is read as it was meant.
    pub read_hello-app_hello :
        (x : App Private) (o : Offer Public) → read_hello p (app_hello x) ≡ ok o → o ≡ app_offer x
    unfolding read_hello
    read_hello-app_hello x o e =
        let (a, ha, e1) =
          bind_ok
            (decode_pub p (text "app_id_pub") (p.encode (p.bytes_of (p.public_of x.identity)))) _
            e in
        let (b, hb, e2) =
          bind_ok (decode_pub p (text "app_eph_pub") (p.encode (p.bytes_of (p.public_of x.eph)))) _
            e1 in
        let (n, hn, e3) = bind_ok (decode_b64 p (text "app_nonce") (p.encode x.nonce)) _ e2 in
        let sa = ok_injective (sym ha ∙ decode_pub-encode _ _) in
        let sb = ok_injective (sym hb ∙ decode_pub-encode _ _) in
        let sn = ok_injective (sym hn ∙ decode_b64-encode _ _) in
        check_offer_same x.assertion _ o e3 ∙ λ i. record {
          app_id_pub = sa i;
          app_eph_pub = sb i;
          app_nonce = sn i;
        }

    pub app_agree-ack_of :
        (x : App Private) (identity eph : Private) (nonce : Text) (g : Agreed)
        → app_agree x (ack_of p identity eph nonce g)
          ≡ derive p
              (p.ecdh x.eph (p.public_of eph))
              (p.ecdh x.identity (p.public_of identity))
              (transcript p identity eph nonce x.assertion (app_offer x))
    unfolding app_agree ack_of transcript
    app_agree-ack_of x identity eph nonce g = simp (decode_pub-encode, decode_b64-encode)

    pub node_tag-ack_of :
        (identity eph : Private) (nonce : Text) (g : Agreed) {ack : Ack}
        → ack ≡ ack_of p identity eph nonce g
        → p.decode ack.node_confirm ≡ some (node_confirm p g.session_key g.transcript_hash)
    unfolding ack_of
    node_tag-ack_of identity eph nonce g e =
        ap (λ a. p.decode a.node_confirm) e ∙ sound.decode-encode _

    -- The tag of the key and transcript in the state finishes the handshake.
    pub confirm-tagged :
        (q : Responder Private)
        → q.hello_done ≡ true
        → q.done ≡ false
        → confirm p
            (record {
              frame = text "pair_confirm";
              app_confirm = p.encode (app_confirm p q.session_key q.transcript_hash);
            })
            q
          ≡ (record q { done = true }, ok (outcome_of p q))
    unfolding confirm conclude verify_mac
    confirm-tagged q h n =
        if_true q.hello_done _ _ h
        ∙ if_false q.done _ _ n
        ∙ ap (λ z. conclude p z q) (decode_b64-encode _ _)
        ∙ if_true (text_eq (app_confirm p q.session_key q.transcript_hash) _) _ _ (text_eq_refl _)

    pub read-app_hello :
        (x : App Private)
        → length x.nonce ≡ 16
        → x.assertion ≢ []
        → read_hello p (app_hello x) ≡ ok (app_offer x)
    unfolding read_hello check_offer
    read-app_hello x n t =
        simp (decode_pub-encode, decode_b64-encode, n, (is_empty_iff x.assertion).1 t)

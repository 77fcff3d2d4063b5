-- ===== src/Pairing/Responder/Agreement.antt =====
-- The handshake with an app that follows the protocol.
use onesilo_node.Base.{◌≡◌, inl, inr, refl, sym, ap, subst, ◌∙◌, false, some}
use onesilo_node.Base.Result.{ok}
use onesilo_node.Pairing.Crypto.{Primitives, node_confirm}
use onesilo_node.Pairing.Assertion.{Platform, AssertionVerifier}
use onesilo_node.Pairing.Responder.Steps.{hello-steps}
use onesilo_node.Pairing.Responder.{
  Ack, Outcome, Responder, Draw, Agreed, transcript, derive, ack_of, hello, outcome_of, confirm,
  established,
}
use onesilo_node.Pairing.Responder.Protocol.{
  IsSound, ok_injective, app_hello, app_agree, app_confirmation, app_offer, read_hello-app_hello,
  app_agree-ack_of, node_tag-ack_of, confirm-tagged, App,
}

module _ {Private Public : Type 0} (p : Primitives Private Public) where
  -- What the app and the node have of one another after a hello that was answered.
  pub record IsAgreement (x : App Private) (q : Responder Private) (ack : Ack) : Type 0 where
    agreed : Agreed
    same : app_agree p x ack ≡ ok agreed
    node_tag :
        p.decode ack.node_confirm ≡ some (node_confirm p agreed.session_key agreed.transcript_hash)
    outcome : Outcome
    confirmed : (confirm p (app_confirmation p agreed) q).1 ≡ ok outcome
    session_key : outcome.session_key ≡ agreed.session_key
    sas : outcome.sas ≡ agreed.sas

  module _ (sound : IsSound p) where
    module _ {Time S : Type 0} (platform : Platform Time) (v : AssertionVerifier S) where
      -- If the node answers the hello of an app that follows the protocol with an acknowledgement,
      -- then the app derives the node's session key and SAS from it, the node's tag is the one that
      -- the app expects, and the node accepts the app's confirmation and delivers this key. Encodings
      -- can be read back, the key exchange is symmetric, and the connection has not yet delivered.
      pub hello-IsAgreement :
          (d : Draw Private Time) (x : App Private) (r : Responder Private) (s : S) (ack : Ack)
          → r.done ≡ false
          → (hello p platform v d (app_hello p x) r s).2 ≡ ok ack
          → IsAgreement x (hello p platform v d (app_hello p x) r s).0 ack
      unfolding outcome_of
      hello-IsAgreement d x r s ack n e = elim (hello-steps p platform v d (app_hello p x) r s) [
        | inl y ↦ absurd (cc (y.result, e))
        | inr y ↦
            let k = y.is_derived in
            let same_ack : ack ≡ ack_of p r.identity k.eph k.nonce k.agreed =
              ok_injective (sym e ∙ k.result) in
            let derived : derive p (p.ecdh k.eph (p.public_of x.eph))
                  (p.ecdh r.identity (p.public_of x.identity))
                  (transcript p r.identity k.eph k.nonce x.assertion (app_offer p x))
                ≡ ok k.agreed =
              subst
                (λ o.
                  derive p (p.ecdh k.eph o.app_eph_pub) (p.ecdh r.identity o.app_id_pub)
                    (transcript p r.identity k.eph k.nonce x.assertion o)
                  ≡ ok k.agreed)
                (read_hello-app_hello p sound x y.offer y.read) k.derived in
            record {
              agreed = k.agreed;
              same =
                  ap (app_agree p x) same_ack
                  ∙ app_agree-ack_of p sound x r.identity k.eph k.nonce k.agreed
                  ∙ (λ i.
                      derive p (sound.ecdh-comm x.eph k.eph i)
                        (sound.ecdh-comm x.identity r.identity i)
                        (transcript p r.identity k.eph k.nonce x.assertion (app_offer p x)))
                  ∙ derived;
              node_tag = node_tag-ack_of p sound r.identity k.eph k.nonce k.agreed same_ack;
              outcome =
                  outcome_of p (established p k.agreed y.assertion (record r { eph = some k.eph }));
              confirmed =
                  ap (λ q. (confirm p (app_confirmation p k.agreed) q).1) k.state
                  ∙ ap (λ z. z.1)
                      (confirm-tagged p sound
                        (established p k.agreed y.assertion (record r { eph = some k.eph })) refl
                        n);
              session_key = refl;
              sas = refl;
            }
      ]

-- ===== src/Pairing/Responder/Order.antt =====
-- One connection: which calls can deliver a session key.
use onesilo_node.Base.{
  suc, ◌≡◌, ◌⊎◌, inl, inr, refl, sym, ap, subst, ◌∙◌, true, false, List, [], ◌∷◌, ◌++◌, some, Text,
  text, text_eq, text_eq_iff, Has,
}
use onesilo_node.Base.Result.{Result, ok, err}
use onesilo_node.Pairing.Crypto.{Primitives, verify_mac, app_confirm}
use onesilo_node.Pairing.Assertion.{Platform, AssertionVerifier, Assertion, verify}
use onesilo_node.Pairing.Assertion.Stages.{of_option_ok}
use onesilo_node.Pairing.Responder.Steps.{if_true, if_cases, hello-steps}
use onesilo_node.Pairing.Responder.{
  Ack, conclude, hello_again, Hello, Confirm, Outcome, HandshakeError, Responder, Draw, Offer,
  new_responder, confirm_before_hello, confirm_again, confirm_invalid, decode_b64, read_hello,
  transcript, derive, hello, outcome_of, confirm,
}

-- A call on the connection.
pub data Call (Private Time : Type 0) : Type 0 where
  hellos : Draw Private Time → Hello → Call Private Time
  confirms : Confirm → Call Private Time

abbrev delivered : Result HandshakeError Outcome → List Outcome
delivered (ok o) = o ∷ []
delivered (err e) = []

module _ {Private Public Time S : Type 0} (p : Primitives Private Public) (platform : Platform Time)
    (v : AssertionVerifier S) where
  unfoldable pub step :
      Call Private Time → Responder Private → S → Responder Private × S × List Outcome
  step (hellos d h) r s = let (q, t, ack) = hello p platform v d h r s in (q, t, [])
  step (confirms c) r s = let (q, res) = confirm p c r in (q, s, delivered res)

  -- What a connection delivers.
  unfoldable pub run : List (Call Private Time) → Responder Private → S → List Outcome
  run [] r s = []
  run (c ∷ cs) r s = let (q, t, out) = step c r s in out ++ run cs q t

  -- What stands behind an established key: a hello of this connection, whose assertion was accepted
  -- for the app key that the hello presents, and the derivation from its public values.
  pub record IsKeyed (calls : List (Call Private Time)) (identity : Private) (o : Outcome)
      (hash : Text) : Type 0 where
    draw : Draw Private Time
    hello : Hello
    called : Has (hellos draw hello) calls
    state : S
    assertion : Assertion
    accepted : (verify platform v draw.now hello.assertion state).1 ≡ ok assertion
    same_key : assertion.app_id_pub ≡ hello.app_id_pub
    offer : Offer Public
    read : read_hello p hello ≡ ok offer
    eph : Private
    nonce : Text
    eph_drawn : draw.eph ≡ some eph
    nonce_drawn : draw.nonce ≡ some nonce
    derived :
        derive p
          (p.ecdh eph offer.app_eph_pub)
          (p.ecdh identity offer.app_id_pub)
          (transcript p identity eph nonce hello.assertion offer)
        ≡ ok (record { transcript_hash = hash; session_key = o.session_key; sas = o.sas })
    app_id_pub : o.app_id_pub ≡ assertion.app_id_pub
    account_id : o.account_id ≡ assertion.account_id
    node_device_id : o.node_device_id ≡ assertion.node_device_id

  -- What stands behind a delivered key: it was established, and the peer has proved that it derived
  -- the same one.
  pub record IsProved (calls : List (Call Private Time)) (identity : Private) (o : Outcome)
      : Type 0 where
    hash : Text
    keyed : IsKeyed calls identity o hash
    confirmation : Confirm
    confirmed : Has (confirms confirmation) calls
    tag : p.decode confirmation.app_confirm ≡ some (app_confirm p o.session_key hash)

  record IsOpen (calls : List (Call Private Time)) (identity : Private) (r : Responder Private)
      : Type 0 where
    same : r.identity ≡ identity
    pending : r.done ≡ false
    keyed : r.hello_done ≡ true → IsKeyed calls identity (outcome_of p r) r.transcript_hash

  hello-IsOpen :
      (calls : List (Call Private Time)) (identity : Private) (d : Draw Private Time) (h : Hello)
      (r : Responder Private) (s : S)
      → Has (hellos d h) calls
      → IsOpen calls identity r
      → IsOpen calls identity (hello p platform v d h r s).0
  unfolding outcome_of
  hello-IsOpen calls identity d h r s i o = elim (hello-steps p platform v d h r s) [
    | inl x ↦
        subst (IsOpen calls identity) (sym x.state)
          (record { same = o.same; pending = o.pending; keyed = o.keyed })
    | inr y ↦
        let k = y.is_derived in
        subst (IsOpen calls identity) (sym k.state) (record {
          same = o.same;
          pending = o.pending;
          keyed = λ e. record {
            draw = d;
            hello = h;
            called = i;
            state = s;
            assertion = y.assertion;
            accepted = y.accepted;
            same_key = y.same_key;
            offer = y.offer;
            read = y.read;
            eph = k.eph;
            nonce = k.nonce;
            eph_drawn = k.eph_drawn;
            nonce_drawn = k.nonce_drawn;
            derived =
                subst
                  (λ j.
                    derive p (p.ecdh k.eph y.offer.app_eph_pub) (p.ecdh j y.offer.app_id_pub)
                      (transcript p j k.eph k.nonce h.assertion y.offer)
                    ≡ ok k.agreed)
                  o.same k.derived;
            app_id_pub = refl;
            account_id = refl;
            node_device_id = refl;
          };
        })
  ]

  -- A confirmation is refused without a trace, or it finishes the handshake.
  abbrev pub IsConcluded :
      Confirm → Responder Private → Responder Private × Result HandshakeError Outcome → Type 0
  IsConcluded c r x =
      ((e : HandshakeError) × (x ≡ (r, err e)))
      ⊎ ((r.hello_done ≡ true)
          × (p.decode c.app_confirm ≡ some (app_confirm p r.session_key r.transcript_hash))
          × (x ≡ (record r { done = true }, ok (outcome_of p r))))

  conclude-steps :
      (c : Confirm) (r : Responder Private) (res : Result HandshakeError Text)
      → r.hello_done ≡ true
      → decode_b64 p (text "app_confirm") c.app_confirm ≡ res
      → IsConcluded c r (conclude p res r)
  unfolding conclude decode_b64 verify_mac
  conclude-steps c r (err e) h k = inl (e, refl)
  conclude-steps c r (ok got) h k =
      if_cases (IsConcluded c r) (text_eq (app_confirm p r.session_key r.transcript_hash) got)
        (λ e. inr (h, of_option_ok _ _ k ∙ ap some (sym ((text_eq_iff _ got).0 e)), refl))
        (λ e. inl (confirm_invalid, refl))

  pub confirm-steps : (c : Confirm) (r : Responder Private) → IsConcluded c r (confirm p c r)
  unfolding confirm
  confirm-steps c r =
      if_cases (IsConcluded c r) r.hello_done
        (λ h.
          if_cases (IsConcluded c r) r.done (λ d. inl (confirm_again, refl))
            (λ d. conclude-steps c r _ h refl))
        (λ h. inl (confirm_before_hello, refl))

  confirm-again :
      (c : Confirm) (r : Responder Private)
      → r.done ≡ true
      → r.hello_done ≡ true
      → confirm p c r ≡ (r, err confirm_again)
  unfolding confirm
  confirm-again c r d h = if_true r.hello_done _ _ h ∙ if_true r.done _ _ d

  pub hello-again :
      (d : Draw Private Time) (h : Hello) (r : Responder Private) (s : S)
      → r.hello_done ≡ true
      → hello p platform v d h r s ≡ (r, s, err hello_again)
  unfolding hello
  hello-again d h r s e = if_true r.hello_done _ _ e

  run-done :
      (cs : List (Call Private Time)) (r : Responder Private) (s : S)
      → r.done ≡ true
      → r.hello_done ≡ true
      → run cs r s ≡ []
  unfolding run step
  run-done [] r s d h = refl
  run-done (hellos x y ∷ cs) r s d h =
      ap (λ (z : Responder Private × S × Result HandshakeError Ack). run cs z.0 z.1)
        (hello-again x y r s h)
      ∙ run-done cs r s d h
  run-done (confirms c ∷ cs) r s d h =
      ap (λ (z : Responder Private × Result HandshakeError Outcome). delivered z.1 ++ run cs z.0 s)
        (confirm-again c r d h)
      ∙ run-done cs r s d h

  run-IsProved :
      (calls cs : List (Call Private Time)) (identity : Private) (r : Responder Private) (s : S)
      → ((c : Call Private Time) → Has c cs → Has c calls)
      → IsOpen calls identity r
      → (run cs r s ≡ []) ⊎ ((o : Outcome) × (run cs r s ≡ o ∷ []) × IsProved calls identity o)
  unfolding run step outcome_of
  run-IsProved calls [] identity r s i o = inl refl
  run-IsProved calls (hellos d h ∷ cs) identity r s i o =
      run-IsProved calls cs identity (hello p platform v d h r s).0 (hello p platform v d h r s).1
        (λ c j. i c (suc j.0, j.1))
        (hello-IsOpen calls identity d h r s (i (hellos d h) (0, refl)) o)
  run-IsProved calls (confirms c ∷ cs) identity r s i o =
      let after : Responder Private × Result HandshakeError Outcome → List Outcome =
        λ z. delivered z.1 ++ run cs z.0 s in
      elim (confirm-steps c r) [
        | inl eh ↦
            let (e, h) = eh in
            subst (λ l. (l ≡ []) ⊎ ((x : Outcome) × (l ≡ x ∷ []) × IsProved calls identity x))
              (sym (ap after h)) (run-IsProved calls cs identity r s (λ d j. i d (suc j.0, j.1)) o)
        | inr y ↦
            let (hd, tag, h) = y in
            inr (
              outcome_of p r,
              ap after h
                  ∙ ap (◌∷◌ (outcome_of p r)) (run-done cs (record r { done = true }) s refl hd),
              record {
                hash = r.transcript_hash;
                keyed = o.keyed hd;
                confirmation = c;
                confirmed = i (confirms c) (0, refl);
                tag = tag;
              },
            )
      ]

  -- Whatever calls reach a connection, in whatever order, at most one of them delivers a session key,
  -- and then a hello of this connection presented the app key that an accepted assertion names, the
  -- key was derived from that hello's public values and this node's identity, and a confirmation of
  -- this connection carried the tag of that key and transcript.
  pub run_new-IsProved :
      (cs : List (Call Private Time)) (identity : Private) (s : S)
      → (run cs (new_responder identity) s ≡ [])
        ⊎ ((o : Outcome) × (run cs (new_responder identity) s ≡ o ∷ []) × IsProved cs identity o)
  unfolding new_responder
  run_new-IsProved cs identity s =
      run-IsProved cs cs identity (new_responder identity) s (λ c i. i)
        (record { same = refl; pending = refl; keyed = λ e. absurd (cc) })

-- ===== src/Pairing/Responder/Steps.antt =====
-- The two ways in which a hello ends.
use onesilo_node.Base.{
  ◌≡◌, ◌⊎◌, inl, inr, refl, Bool, true, false, Option, none, some, Text, text_eq, text_eq_iff,
  Bool-cases, if◌then◌else◌,
}
use onesilo_node.Base.Result.{Result, ok, err}
use onesilo_node.Pairing.Crypto.{Primitives, verify_mac}
use onesilo_node.Pairing.Assertion.{Platform, AssertionVerifier, Assertion, AssertionError, verify}
use onesilo_node.Pairing.Responder.{
  Hello, Ack, HandshakeError, Responder, Draw, Offer, Agreed, no_randomness, hello_again, rejected,
  key_mismatch, read_hello, transcript, derive, ack_of, established, establish, draw_keys,
  judge_hello, offered, hello,
}

-- A refusal changes nothing but the ephemeral key.
pub record IsRefused {Private : Type 0} (r q : Responder Private) (res : Result HandshakeError Ack)
    : Type 0 where
  pub error : HandshakeError
  pub eph : Option Private
  pub result : res ≡ err error
  pub state : q ≡ record r { eph = eph }

pub if_true : {X : Type 0} (b : Bool) (x y : X) → b ≡ true → (if b then x else y) ≡ x
if_true true x y h = refl
if_true false x y h = absurd (cc)

pub if_false : {X : Type 0} (b : Bool) (x y : X) → b ≡ false → (if b then x else y) ≡ y
if_false false x y h = refl
if_false true x y h = absurd (cc)

pub if_cases :
    {X : Type 0} (P : X → Type 0) (b : Bool) {x y : X}
    → (b ≡ true → P x)
    → (b ≡ false → P y)
    → P (if b then x else y)
if_cases P true f g = f refl
if_cases P false f g = g refl

module _ {Private Public : Type 0} (p : Primitives Private Public) where
  -- The keys that follow from the two draws, the offer and the assertion.
  pub record IsDerived (eph_draw : Option Private) (nonce_draw : Option Text) (assertion : Text)
      (a : Assertion) (o : Offer Public) (r q : Responder Private) (res : Result HandshakeError Ack)
      : Type 0 where
    pub eph : Private
    pub nonce : Text
    pub agreed : Agreed
    pub eph_drawn : eph_draw ≡ some eph
    pub nonce_drawn : nonce_draw ≡ some nonce
    pub derived :
        derive p
          (p.ecdh eph o.app_eph_pub)
          (p.ecdh r.identity o.app_id_pub)
          (transcript p r.identity eph nonce assertion o)
        ≡ ok agreed
    pub result : res ≡ ok (ack_of p r.identity eph nonce agreed)
    pub state : q ≡ established p agreed a (record r { eph = some eph })

  establish-steps :
      (eph : Private) (nonce assertion : Text) (a : Assertion) (o : Offer Public)
      (r : Responder Private) (res : Result HandshakeError Agreed)
      → derive p
          (p.ecdh eph o.app_eph_pub)
          (p.ecdh r.identity o.app_id_pub)
          (transcript p r.identity eph nonce assertion o)
        ≡ res
      → IsRefused r (establish p eph nonce a r res).0 (establish p eph nonce a r res).1
        ⊎ IsDerived
            (some eph)
            (some nonce)
            assertion
            a
            o
            r
            (establish p eph nonce a r res).0
            (establish p eph nonce a r res).1
  unfolding establish
  establish-steps eph nonce assertion a o r (err e) h =
      inl (record { error = e; eph = some eph; result = refl; state = refl })
  establish-steps eph nonce assertion a o r (ok g) h = inr (record {
    eph = eph;
    nonce = nonce;
    agreed = g;
    eph_drawn = refl;
    nonce_drawn = refl;
    derived = h;
    result = refl;
    state = refl;
  })

  draw_keys-steps :
      (eph : Option Private) (nonce : Option Text) (assertion : Text) (a : Assertion)
      (o : Offer Public) (r : Responder Private)
      → IsRefused r
          (draw_keys p eph nonce assertion a o r).0
          (draw_keys p eph nonce assertion a o r).1
        ⊎ IsDerived eph nonce assertion a o r
            (draw_keys p eph nonce assertion a o r).0
            (draw_keys p eph nonce assertion a o r).1
  unfolding draw_keys
  draw_keys-steps none _ assertion a o r =
      inl (record { error = no_randomness; eph = none; result = refl; state = refl })
  draw_keys-steps (some eph) none assertion a o r =
      inl (record { error = no_randomness; eph = some eph; result = refl; state = refl })
  draw_keys-steps (some eph) (some nonce) assertion a o r =
      establish-steps eph nonce assertion a o r _ refl

module _ {Private Public Time : Type 0} (p : Primitives Private Public) where
  -- An accepted assertion for the key of the hello, and the keys.
  pub record IsEstablished {S : Type 0} (platform : Platform Time) (v : AssertionVerifier S)
      (d : Draw Private Time) (h : Hello) (s : S) (r q : Responder Private)
      (res : Result HandshakeError Ack) : Type 0 where
    pub offer : Offer Public
    pub assertion : Assertion
    pub fresh : r.hello_done ≡ false
    pub read : read_hello p h ≡ ok offer
    pub accepted : (verify platform v d.now h.assertion s).1 ≡ ok assertion
    pub same_key : assertion.app_id_pub ≡ h.app_id_pub
    pub is_derived : IsDerived p d.eph d.nonce h.assertion assertion offer r q res

  judge_hello-steps :
      (d : Draw Private Time) (h : Hello) (o : Offer Public)
      (checked : Result AssertionError Assertion) (r : Responder Private)
      → IsRefused r (judge_hello p d h o checked r).0 (judge_hello p d h o checked r).1
        ⊎ ((a : Assertion) × (checked ≡ ok a)
            × (a.app_id_pub ≡ h.app_id_pub)
            × IsDerived p d.eph d.nonce h.assertion a o r
                (judge_hello p d h o checked r).0
                (judge_hello p d h o checked r).1)
  unfolding judge_hello verify_mac
  judge_hello-steps d h o (err e) r =
      inl (record { error = rejected e; eph = r.eph; result = refl; state = refl })
  judge_hello-steps d h o (ok a) r = elim (Bool-cases (text_eq a.app_id_pub h.app_id_pub)) [
    | inr e ↦ inl (record {
      error = key_mismatch;
      eph = r.eph;
      result = rw (e, judge_hello) refl;
      state = rw (e, judge_hello) refl;
    })
    | inl e ↦
        rw (e, judge_hello)
          (elim (draw_keys-steps p d.eph d.nonce h.assertion a o r) [
            | inl x ↦ inl x
            | inr y ↦ inr (a, refl, (text_eq_iff a.app_id_pub h.app_id_pub).0 e, y)
          ])
  ]

  module _ {S : Type 0} (platform : Platform Time) (v : AssertionVerifier S) where
    offered-steps :
        (d : Draw Private Time) (h : Hello) (res : Result HandshakeError (Offer Public))
        (r : Responder Private) (s : S)
        → r.hello_done ≡ false
        → read_hello p h ≡ res
        → IsRefused r (offered p platform v d h res r s).0 (offered p platform v d h res r s).2
          ⊎ IsEstablished platform v d h s r
              (offered p platform v d h res r s).0
              (offered p platform v d h res r s).2
    unfolding offered
    offered-steps d h (err e) r s f q =
        inl (record { error = e; eph = r.eph; result = refl; state = refl })
    offered-steps d h (ok o) r s f q =
        elim (judge_hello-steps d h o (verify platform v d.now h.assertion s).1 r) [
          | inl x ↦ inl x
          | inr y ↦
              let (a, ok_a, same, k) = y in
              inr (record {
                offer = o;
                assertion = a;
                fresh = f;
                read = q;
                accepted = ok_a;
                same_key = same;
                is_derived = k;
              })
        ]

    pub hello-steps :
        (d : Draw Private Time) (h : Hello) (r : Responder Private) (s : S)
        → IsRefused r (hello p platform v d h r s).0 (hello p platform v d h r s).2
          ⊎ IsEstablished platform v d h s r
              (hello p platform v d h r s).0
              (hello p platform v d h r s).2
    unfolding hello
    hello-steps d h r s =
        if_cases
          (λ (x : Responder Private × S × Result HandshakeError Ack).
            IsRefused r x.0 x.2 ⊎ IsEstablished platform v d h s r x.0 x.2)
          r.hello_done
          (λ e. inl (record { error = hello_again; eph = r.eph; result = refl; state = refl }))
          (λ e. offered-steps d h (read_hello p h) r s e refl)

-- ===== src/Lan/Life/Trusted.antt =====
-- Who reaches inference on a node that requires verification.
use onesilo_node.Base.{
  ℕ, ◌≡◌, refl, sym, ap, subst, ◌∙◌, inl, inr, Bool, true, false, not, ◌||◌, Option, none, some,
  Text, arith,
}
use onesilo_node.Base.Result.{Result}
use onesilo_node.Pairing.PinStore.{
  PinStore, PinStatus, PinError, observe, is_verified, known_verified, first_contact,
  known_unverified,
}
use onesilo_node.Pairing.PinStore.Standing.{observe-is_verified, observe-known_verified}
use onesilo_node.Pairing.Crypto.{Primitives}
use onesilo_node.Pairing.Assertion.{Platform, AssertionVerifier}
use onesilo_node.Pairing.Responder.{
  Hello, Confirm, Ack, Responder, Outcome, HandshakeError, Draw, hello, confirm, outcome_of,
}
use onesilo_node.Pairing.Responder.Steps.{if_cases}
use onesilo_node.Pairing.Responder.Order.{confirm-steps, hello-again}
use onesilo_node.Lan.{Session, Node, Pairer}
use onesilo_node.Lan.Gate.{
  is_known_verified, activated, pinned, confirmed, greeted, responder_of, rechecked, record_pending,
}
use onesilo_node.Lan.Life.Kept.{IsKept}

-- The handshake that a session's key comes from: it is complete, and the session names its app.
pub record IsOwner {Private : Type 0} (key : Text) (o : Option (Responder Private))
    (account_id app_id_pub : Text) : Type 0 where
  pub responder : Responder Private
  pub kept : o ≡ some responder
  pub greeted : responder.hello_done ≡ true
  pub done : responder.done ≡ true
  pub same_key : responder.session_key ≡ key
  pub same_account : responder.account_id ≡ account_id
  pub same_app : responder.app_id_pub ≡ app_id_pub

-- Every key of the session has its handshake.
abbrev pub IsOwned : {Private : Type 0} → Session Private → Type 0
IsOwned s = (k : Text) → s.session_key ≡ some k → IsOwner k s.responder s.account_id s.app_id_pub

-- The pin store stands for a session that counts as verified.
pub record IsVouched {Private : Type 0} (q : Pairer Private) (s : Session Private) : Type 0 where
  pub strict : q.require_verify ≡ true
  pub vouched : s.verified ≡ true → is_verified s.account_id s.app_id_pub q.pins ≡ true

pub record IsTrusted {Private S : Type 0} (n : Node Private S) : Type 0 where
  pub pairer : Pairer Private
  pub enabled : n.pairer ≡ some pairer
  pub is_vouched : IsVouched pairer n.session
  pub owned : IsOwned n.session
  pub begun : (r : Responder Private) → n.session.responder ≡ some r → n.session.started ≡ true

pub some-injective : {A : Type 0} {a b : A} → some a ≡ some b → a ≡ b
some-injective e = cc

known_of :
    (status : PinStatus) (r : Bool)
    → r ≡ true
    → (is_known_verified status || not r) ≡ true
    → status ≡ known_verified
known_of first_contact r h e = ground arith
known_of known_verified r h e = refl
known_of known_unverified r h e = ground arith

-- What another answer of the pin store leaves standing.
pub repinned :
    {Private : Type 0} (q : Pairer Private) (t : PinStore) (s : Session Private)
    → ((b l : Text) → is_verified b l q.pins ≡ true → is_verified b l t ≡ true)
    → IsVouched q s
    → IsVouched (record q { pins = t }) s
repinned q t s more h = record { strict = h.strict; vouched = λ e. more _ _ (h.vouched e) }

abbrev Delivered : {Private : Type 0} → Outcome → Session Private → Type 0
Delivered o s = IsOwner o.session_key s.responder o.account_id o.app_id_pub

-- A completed confirmation leaves its handshake's key in place.
finished :
    {Private : Type 0} (k a b : Text) (r : Responder Private)
    → r.hello_done ≡ true
    → IsOwner k (some r) a b
    → IsOwner k (some (record r { done = true })) a b
finished {Private = Private} k a b r h o =
    let w : r ≡ o.responder = some-injective o.kept in
    record {
      responder = record r { done = true };
      kept = refl;
      greeted = h;
      done = refl;
      same_key = ap (λ (r : Responder Private). r.session_key) w ∙ o.same_key;
      same_account = ap (λ (r : Responder Private). r.account_id) w ∙ o.same_account;
      same_app = ap (λ (r : Responder Private). r.app_id_pub) w ∙ o.same_app;
    }

module _ {Private S : Type 0} where
  activated-IsTrusted :
      (b : Bool) (o : Outcome) (q : Pairer Private) (n : Node Private S)
      → q.require_verify ≡ true
      → (b ≡ true → is_verified o.account_id o.app_id_pub q.pins ≡ true)
      → n.session.started ≡ true
      → Delivered o n.session
      → IsTrusted (activated b o q n).0
  unfolding activated record_pending
  activated-IsTrusted true o q n strict known g d = record {
    pairer = q;
    enabled = refl;
    is_vouched = record { strict = strict; vouched = known };
    owned = λ k e.
        subst (λ k. IsOwner k n.session.responder o.account_id o.app_id_pub) (some-injective e) d;
    begun = λ r e. g;
  }
  activated-IsTrusted false o q n strict known g d = record {
    pairer = _;
    enabled = refl;
    is_vouched = record { strict = strict; vouched = λ e. absurd (cc) };
    owned = λ k e.
        subst (λ k. IsOwner k n.session.responder o.account_id o.app_id_pub) (some-injective e) d;
    begun = λ r e. g;
  }

  pinned-IsTrusted :
      (o : Outcome) (q : Pairer Private) (res : PinStore × PinStatus × Option PinError)
      (n : Node Private S)
      → ((b l : Text) → is_verified b l q.pins ≡ true → is_verified b l res.0 ≡ true)
      → (res.1 ≡ known_verified → is_verified o.account_id o.app_id_pub res.0 ≡ true)
      → IsVouched q n.session
      → IsOwned n.session
      → n.session.started ≡ true
      → Delivered o n.session
      → IsTrusted (pinned o q res n).0
  unfolding pinned
  pinned-IsTrusted o q (t, status, some e) n more known h owned g d = record {
    pairer = record q { pins = t };
    enabled = refl;
    is_vouched = repinned q t n.session more h;
    owned = owned;
    begun = λ r e. g;
  }
  pinned-IsTrusted o q (t, status, none) n more known h owned g d =
      activated-IsTrusted (is_known_verified status || not q.require_verify) o
        (record q { pins = t }) n h.strict
        (λ e. known (known_of status q.require_verify h.strict e)) g d

  rechecked-IsTrusted :
      (o : Option (Pairer Private)) (n : Node Private S)
      → n.pairer ≡ o
      → IsTrusted n
      → IsTrusted (rechecked o n).0
  unfolding rechecked
  rechecked-IsTrusted none n e h = h
  rechecked-IsTrusted (some q) n e h =
      if_cases (λ (x : Node Private S × Bool). IsTrusted x.0)
        (is_verified n.session.account_id n.session.app_id_pub q.pins)
        (λ v. record {
          pairer = q;
          enabled = e;
          is_vouched = record {
            strict =
                (subst (λ q. IsVouched q n.session) (some-injective (sym h.enabled ∙ e))
                  h.is_vouched).strict;
            vouched = λ x. v;
          };
          owned = h.owned;
          begun = h.begun;
        })
        (λ v. h)

module _ {Private Public Time S : Type 0} (p : Primitives Private Public) (platform : Platform Time)
    (v : AssertionVerifier S) where
  greeted-IsTrusted :
      (d : Draw Private Time) (h : Hello) (q : Pairer Private) (n : Node Private S)
      → IsTrusted n
      → IsTrusted
          (greeted n (hello p platform v d h (responder_of q n.session.responder) n.source)).0
  unfolding greeted responder_of
  greeted-IsTrusted d h q n t = record {
    pairer = t.pairer;
    enabled = t.enabled;
    is_vouched = record { strict = t.is_vouched.strict; vouched = t.is_vouched.vouched };
    owned = λ k e.
        let o = t.owned k e in
        subst (λ r. IsOwner k r n.session.account_id n.session.app_id_pub)
          (o.kept
            ∙ sym (
                ap (λ (z : Responder Private × S × Result HandshakeError Ack). some z.0)
                  (hello-again p platform v d h o.responder n.source o.greeted))
            ∙ sym (ap (λ r. some (hello p platform v d h (responder_of q r) n.source).0) o.kept))
          o;
    begun = λ r e. refl;
  }

  confirmed-IsTrusted :
      (now : ℕ) (written : Option Text) (c : Confirm) (q : Pairer Private) (r : Responder Private)
      (n : Node Private S)
      → n.pairer ≡ some q
      → n.session.responder ≡ some r
      → IsTrusted n
      → IsTrusted (confirmed now written q (confirm p c r) n).0
  unfolding confirmed outcome_of
  confirmed-IsTrusted now written c q r n e f t =
      let vouched =
        subst (λ q. IsVouched q n.session) (some-injective (sym t.enabled ∙ e)) t.is_vouched in
      elim (confirm-steps p platform v c r) [
        | inl x ↦
            subst (λ z. IsTrusted (confirmed now written q z n).0) (sym x.1)
              (record {
                pairer = t.pairer;
                enabled = t.enabled;
                is_vouched = record {
                  strict = t.is_vouched.strict;
                  vouched = t.is_vouched.vouched;
                };
                owned = λ k e.
                    subst (λ r. IsOwner k r n.session.account_id n.session.app_id_pub) f
                      (t.owned k e);
                begun = λ s g. t.begun r f;
              })
        | inr y ↦
            subst (λ z. IsTrusted (confirmed now written q z n).0) (sym y.2)
              (pinned-IsTrusted (outcome_of p r) q
                (observe r.account_id r.app_id_pub now written q.pins)
                (record n {
                  session = record n.session { responder = some (record r { done = true }) };
                })
                (λ b l. observe-is_verified r.account_id r.app_id_pub now written b l q.pins)
                (observe-known_verified r.account_id r.app_id_pub now written q.pins)
                (record { strict = vouched.strict; vouched = vouched.vouched })
                (λ k e. finished k _ _ r y.0 (
                  subst (λ r. IsOwner k r n.session.account_id n.session.app_id_pub) f
                    (t.owned k e)))
                (t.begun r f)
                (record {
                  responder = record r { done = true };
                  kept = refl;
                  greeted = y.0;
                  done = refl;
                  same_key = refl;
                  same_account = refl;
                  same_app = refl;
                }))
      ]

  pub IsTrusted-IsKept : IsKept p platform v IsTrusted
  IsTrusted-IsKept = record {
    greets = λ d h q n e t. greeted-IsTrusted d h q n t;
    confirms = confirmed-IsTrusted;
    rechecks = λ n t. rechecked-IsTrusted n.pairer n refl t;
    generates = λ g k n t. record {
      pairer = t.pairer;
      enabled = t.enabled;
      is_vouched = record { strict = t.is_vouched.strict; vouched = t.is_vouched.vouched };
      owned = t.owned;
      begun = t.begun;
    };
  }

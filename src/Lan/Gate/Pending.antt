-- ===== src/Lan/Gate/Pending.antt =====
-- The list of pairings that wait for the operator.
use onesilo_node.Base.{
  ℕ, ◌≡◌, ◌≢◌, refl, ap, ◌∙◌, true, false, List, Option, none, some, Text, text_eq, text_eq_iff,
  arith,
}
use onesilo_node.Base.Assoc.{lookup, insert, lookup-insert}
use onesilo_node.Pairing.PinStore.Invariant.{IsNulFree, IsValid, pin_key-injective}
use onesilo_node.Pairing.PinStore.Effects.{HasNoVerified, observe-IsFirstContact, observe-saved}
use onesilo_node.Pairing.PinStore.Standing.{verify-unpinned}
use onesilo_node.Pairing.PinStore.{
  PinStore, PinStatus, PinError, first_contact, no_pending_pairing, pin_key, observe,
}
use onesilo_node.Pairing.Responder.{Outcome}
use onesilo_node.Pairing.Responder.Steps.{if_false}
use onesilo_node.Lan.{PendingPairing, Pairer, Node}
use onesilo_node.Lan.Gate.{
  not_pinned, pending_key, record_pending, cleared, verify_pairing, activated, pinned,
}

-- A pairing that is listed and that nobody can confirm.
pub record IsStuck {Private : Type 0} (account key : Text) (w : PendingPairing) (q : Pairer Private)
    : Type 0 where
  pub listed : lookup (pending_key account key) q.pending ≡ some w
  pub refused :
      (now : ℕ) (written : Option Text)
      → verify_pairing account key now written (some q)
        ≡ (some q, some (not_pinned no_pending_pairing))

unpinned-IsStuck :
    {Private : Type 0} (account key : Text) (w : PendingPairing) (q : Pairer Private)
    → lookup (pending_key account key) q.pending ≡ some w
    → lookup (pin_key account key) q.pins.devices ≡ none
    → IsStuck account key w q
unfolding verify_pairing cleared
unpinned-IsStuck account key w q l e = record {
  listed = l;
  refused = λ now written.
      ap (λ r. (some (cleared account key q r).0, (cleared account key q r).1))
        (verify-unpinned account key now written q.pins e);
}

lookup-record_pending :
    (a k l : Text) (v : PendingPairing) (m : List (Text × PendingPairing)) {w : PendingPairing}
    → text_eq (pin_key a k) (pin_key a l) ≡ false
    → lookup (pending_key a l) m ≡ some w
    → lookup (pending_key a l) (insert (pending_key a k) v m) ≡ some w
unfolding pending_key pin_key
lookup-record_pending a k l v m apart e =
    lookup-insert (pin_key a k) (pin_key a l) v m ∙ if_false _ _ _ apart ∙ e

module _ {Private S : Type 0} where
  -- The answer to a first contact.
  pinned_first :
      (o : Outcome) (q : Pairer Private) (res : PinStore × PinStatus × Option PinError)
      (n : Node Private S)
      → res.1 ≡ first_contact
      → res.2 ≡ none
      → q.require_verify ≡ true
      → (pinned o q res n).0.pairer
        ≡ some (
            record_pending
              (record { account_id = o.account_id; app_id_pub = o.app_id_pub; sas = o.sas })
              (record q { pins = res.0 }))
  unfolding pinned activated
  pinned_first o q (t, status, some e) n f g h = absurd (cc)
  pinned_first o q (t, status, none) n f g h = rw (f, h) refl

  -- A second app of an account makes contact, before the first one is confirmed. Then the first
  -- pairing stays on the list of those that wait for the operator, but its pin is gone: whenever the
  -- operator confirms it, the answer is that there is no such pairing, and it stays on the list. The
  -- node requires verification, nothing of the account is verified, and the pin is saved.
  pub replaced-IsStuck :
      (o : Outcome) (key : Text) (w : PendingPairing) (q : Pairer Private) (now : ℕ)
      (n : Node Private S)
      → q.require_verify ≡ true
      → IsNulFree o.app_id_pub
      → IsNulFree key
      → key ≢ o.app_id_pub
      → IsValid q.pins
      → lookup (pin_key o.account_id o.app_id_pub) q.pins.devices ≡ none
      → HasNoVerified o.account_id q.pins.devices
      → lookup (pending_key o.account_id key) q.pending ≡ some w
      → (r : Pairer Private) × ((pinned o q
            (observe o.account_id o.app_id_pub now none q.pins)
            n).0.pairer
          ≡ some r)
        × IsStuck o.account_id key w r
  unfolding record_pending
  replaced-IsStuck o key w q now n strict fo fk ne valid fresh unverified listed =
      let (status, t) =
        observe-IsFirstContact o.account_id o.app_id_pub now q.pins none fo valid fresh
          unverified in
      let saved = observe-saved o.account_id o.app_id_pub now q.pins fresh unverified in
      let apart : text_eq (pin_key o.account_id o.app_id_pub) (pin_key o.account_id key) ≡ false =
        ground (
          arith,
          text_eq_iff (pin_key o.account_id o.app_id_pub) (pin_key o.account_id key),
          pin_key-injective o.account_id o.account_id o.app_id_pub key fo fk,
          ne,
        ) in
      (
        _,
        pinned_first o q _ n status saved strict,
        unpinned-IsStuck o.account_id key w _
            (lookup-record_pending o.account_id o.app_id_pub key _ q.pending apart listed)
            (t.alone key fk ne),
      )

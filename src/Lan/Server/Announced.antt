-- ===== src/Lan/Server/Announced.antt =====
-- What the local network hears of the node.
use onesilo_node.Base.{
  ◌≡◌, refl, ap, ap, Bool, true, false, not, ◌||◌, List, [], ◌∷◌, none, some, arith, text_eq,
  text_eq_iff,
}
use onesilo_node.Pairing.Responder.Steps.{if_cases}
use onesilo_node.Lan.Server.{
  Announcement, Bonjour, Advert, unannounced, bonjour_txt, unpublish, announce, with_txt, update,
  refresh, bonjour_switch, reconcile_bonjour,
}

-- The live registration carries the model and the device id that were last noted; without one, nothing
-- is published.
pub data Announces (b : Bonjour) : Type 0 where
  silent : b.announcer ≡ none → b.published ≡ false → Announces b
  live :
      (x : Announcement)
      → b.announcer ≡ some x
      → b.published ≡ true
      → x.txt ≡ bonjour_txt b.last_model b.last_device_id
      → Announces b

announce-Announces : (a : Advert) (b : Bonjour) → Announces b → Announces (announce a b)
unfolding announce
announce-Announces a b x =
    if_cases Announces a.succeeds
      (λ e. live (record { port = a.port; txt = bonjour_txt a.model a.device }) refl refl refl)
      (λ e. x)

update-Announces : (a : Advert) (b : Bonjour) → Announces b → Announces (update a b)
unfolding update
update-Announces a b (silent e p) =
    if_cases Announces a.succeeds (λ s. silent (ap (with_txt (bonjour_txt a.model a.device)) e) p)
      (λ s. silent e p)
update-Announces a b (live x e p t) =
    if_cases Announces a.succeeds
      (λ s.
        live (record x { txt = bonjour_txt a.model a.device })
          (ap (with_txt (bonjour_txt a.model a.device)) e) p refl)
      (λ s. live x e p t)

switch-Announces :
    (a : Advert) (want published : Bool) (b : Bonjour)
    → Announces b
    → Announces (bonjour_switch a want published b)
unfolding bonjour_switch unpublish refresh
switch-Announces a true false b x = announce-Announces a b x
switch-Announces a false true b x = silent refl refl
switch-Announces a true true b x =
    if_cases Announces
      (not (text_eq a.model b.last_model) || not (text_eq a.device b.last_device_id))
      (λ e. update-Announces a b x) (λ e. x)
switch-Announces a false false b x = x

pub data Adverts : Type 0 where
  reconciles : Advert → Adverts
  stops : Adverts

unfoldable pub hear : List Adverts → Bonjour → Bonjour
hear [] b = b
hear (reconciles a ∷ l) b = hear l (reconcile_bonjour a b)
hear (stops ∷ l) b = hear l (unpublish b)

hear-Announces : (l : List Adverts) (b : Bonjour) → Announces b → Announces (hear l b)
unfolding hear reconcile_bonjour unpublish
hear-Announces [] b x = x
hear-Announces (reconciles a ∷ l) b x =
    hear-Announces l (reconcile_bonjour a b) (switch-Announces a a.enabled b.published b x)
hear-Announces (stops ∷ l) b x = hear-Announces l (unpublish b) (silent refl refl)

-- What a reconcile for which zeroconf does what it is asked leaves.
pub data IsCurrent (a : Advert) (b : Bonjour) : Type 0 where
  off : a.enabled ≡ false → b.announcer ≡ none → IsCurrent a b
  on :
      (x : Announcement)
      → a.enabled ≡ true
      → b.announcer ≡ some x
      → x.txt ≡ bonjour_txt a.model a.device
      → IsCurrent a b

refresh-IsCurrent :
    (a : Advert) (b : Bonjour) (x : Announcement)
    → a.succeeds ≡ true
    → a.enabled ≡ true
    → b.announcer ≡ some x
    → x.txt ≡ bonjour_txt b.last_model b.last_device_id
    → IsCurrent a (refresh a b)
unfolding refresh update
refresh-IsCurrent a b x s w e t =
    if_cases (IsCurrent a)
      (not (text_eq a.model b.last_model) || not (text_eq a.device b.last_device_id))
      (λ d. rw s (
        on (record x { txt = bonjour_txt a.model a.device }) w
          (ap (with_txt (bonjour_txt a.model a.device)) e) refl))
      (λ d.
        let m : text_eq a.model b.last_model ≡ true = ground arith in
        let v : text_eq a.device b.last_device_id ≡ true = ground arith in
        on x w e (
          rw ((text_eq_iff a.model b.last_model).0 m, (text_eq_iff a.device b.last_device_id).0 v)
            t))

current_switch :
    (a : Advert) (want published : Bool) (b : Bonjour)
    → a.succeeds ≡ true
    → a.enabled ≡ want
    → b.published ≡ published
    → Announces b
    → IsCurrent a (bonjour_switch a want published b)
unfolding bonjour_switch unpublish announce
current_switch a true false b s w p x =
    rw s (on (record { port = a.port; txt = bonjour_txt a.model a.device }) w refl refl)
current_switch a false true b s w p x = off w refl
current_switch a true true b s w p (silent e q) = absurd (cc)
current_switch a true true b s w p (live x e q t) = refresh-IsCurrent a b x s w e t
current_switch a false false b s w p (silent e q) = off w e
current_switch a false false b s w p (live x e q t) = absurd (cc)

-- Whatever has gone before, failures of zeroconf included: after a reconcile for which it does what it
-- is asked, the node is announced exactly if lan.enabled is on, and then with the current model and
-- device id.
pub reconcile_bonjour-IsCurrent :
    (l : List Adverts) (a : Advert)
    → a.succeeds ≡ true
    → IsCurrent a (reconcile_bonjour a (hear l unannounced))
unfolding reconcile_bonjour
reconcile_bonjour-IsCurrent l a s =
    let b = hear l unannounced in
    current_switch a a.enabled b.published b s refl refl
      (hear-Announces l unannounced (silent refl refl))

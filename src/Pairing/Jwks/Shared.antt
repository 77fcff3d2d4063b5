-- ===== src/Pairing/Jwks/Shared.antt =====
-- The calls that share a fetch.
use onesilo_node.Base.{
  ℕ, ◌≡◌, refl, sym, ap, subst, ◌∙◌, Bool, true, false, List, Option, none, some, arith, Has, ◌==◌,
  ==_iff, Bool-cases, inl, inr,
}
use onesilo_node.Pairing.Assertion.{EcPublicKeys}
use onesilo_node.Pairing.Responder.Steps.{if_cases}
use onesilo_node.Pairing.Jwks.{
  Phase, idle, looked, leads, waits, answered, Source, put, go_to, enter,
}

abbrev pub is_leading : Phase → Bool
is_leading idle = false
is_leading (looked stale) = false
is_leading (leads stale) = true
is_leading (waits stale) = false
is_leading (answered a) = false

abbrev pub is_waiting : Phase → Bool
is_waiting idle = false
is_waiting (looked stale) = false
is_waiting (leads stale) = false
is_waiting (waits stale) = true
is_waiting (answered a) = false

-- Keys that a successful fetch has returned; `none` is no keys.
abbrev pub Brought : List EcPublicKeys → Option EcPublicKeys → Type 0
Brought l none = Unit
Brought l (some ks) = Has ks l

abbrev pub Known : List EcPublicKeys → Phase → Type 0
Known l idle = Unit
Known l (looked stale) = Brought l stale
Known l (leads stale) = Brought l stale
Known l (waits stale) = Brought l stale
Known l (answered a) = Brought l a

-- At most one call fetches, and exactly while a fetch is marked as running; a call waits only then; and
-- what any call holds or has been answered, and the cache, are keys that a fetch has returned.
pub record IsShared (s : Source) : Type 0 where
  pub one : (i j : ℕ) → is_leading (s.calls i) ≡ true → is_leading (s.calls j) ≡ true → i ≡ j
  pub leading : (i : ℕ) → is_leading (s.calls i) ≡ true → s.inflight ≡ true
  pub waiting : (i : ℕ) → is_waiting (s.calls i) ≡ true → s.inflight ≡ true
  pub led : s.inflight ≡ true → (i : ℕ) × (is_leading (s.calls i) ≡ true)
  pub known : (i : ℕ) → Known s.brought (s.calls i)
  pub cached : Brought s.brought s.keys

pub leading_put :
    (i j : ℕ) (p : Phase) (calls : ℕ → Phase)
    → is_leading p ≡ false
    → is_leading (put i p calls j) ≡ true
    → is_leading (calls j) ≡ true
leading_put i j p calls n =
    if_cases (λ x. is_leading x ≡ true → is_leading (calls j) ≡ true) (j == i) (λ e h. absurd (cc))
      (λ e h. h)

pub put_other :
    (i j : ℕ) (p : Phase) (calls : ℕ → Phase) → (j == i) ≡ false → put i p calls j ≡ calls j
put_other i j p calls e = rw e refl

pub go_to-IsShared :
    (i : ℕ) (p : Phase) (s : Source)
    → IsShared s
    → is_leading p ≡ false
    → is_leading (s.calls i) ≡ false
    → (is_waiting p ≡ true → s.inflight ≡ true)
    → Known s.brought p
    → IsShared (go_to i p s)
go_to-IsShared i p s x n o w k = record {
  one = λ a b g h. x.one a b (leading_put i a p s.calls n g) (leading_put i b p s.calls n h);
  leading = λ a g. x.leading a (leading_put i a p s.calls n g);
  waiting = λ a.
      if_cases (λ q. is_waiting q ≡ true → s.inflight ≡ true) (a == i) (λ e. w) (λ e. x.waiting a);
  led = λ f.
      let (a, g) = x.led f in
      let other : (a == i) ≡ false = elim (Bool-cases (a == i)) [
        | inl e ↦
            let q : a ≡ i = (==_iff a i).0 e in
            let z : is_leading (s.calls i) ≡ true =
              subst (λ y. is_leading (s.calls y) ≡ true) q g in
            absurd (cc)
        | inr e ↦ e
      ] in
      (a, ap is_leading (put_other i a p s.calls other) ∙ g);
  known = λ a. if_cases (Known s.brought) (a == i) (λ e. k) (λ e. x.known a);
  cached = x.cached;
}

-- With no fetch running, none of the calls leads.
pub none_leads :
    (s : Source) → IsShared s → s.inflight ≡ false → (i : ℕ) → is_leading (s.calls i) ≡ false
none_leads s x f i = elim (Bool-cases (is_leading (s.calls i))) [
  | inl e ↦ let g = x.leading i e in absurd (cc)
  | inr e ↦ e
]

pub put_self : (i : ℕ) (p : Phase) (calls : ℕ → Phase) → put i p calls i ≡ p
put_self i p calls = let e : (i == i) ≡ true = ground arith in rw e refl

pub enter-IsShared :
    (i now : ℕ) (stale : Option EcPublicKeys) (s : Source)
    → IsShared s
    → s.calls i ≡ looked stale
    → Brought s.brought stale
    → IsShared (enter i now stale s)
unfolding enter
enter-IsShared i now stale s x c k =
    if_cases IsShared s.inflight
      (λ f. go_to-IsShared i (waits stale) s x refl (ap is_leading c) (λ _. f) k)
      (λ f.
        let quiet = none_leads s x f in
        let only : (a : ℕ) → is_leading (put i (leads stale) s.calls a) ≡ true → a ≡ i = λ a.
          if_cases (λ q. is_leading q ≡ true → a ≡ i) (a == i) (λ e h. (==_iff a i).0 e)
            (λ e h. let g = quiet a in absurd (cc)) in
        record {
          one = λ a b g h. only a g ∙ sym (only b h);
          leading = λ a g. refl;
          waiting = λ a g. refl;
          led = λ _. (i, ap is_leading (put_self i (leads stale) s.calls));
          known = λ a. if_cases (Known s.brought) (a == i) (λ e. k) (λ e. x.known a);
          cached = x.cached;
        })

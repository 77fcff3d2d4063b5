-- ===== src/Pairing/Jwks/Fetched.antt =====
-- The end of a fetch, and all events in any order.
use onesilo_node.Base.{
  ℕ, suc, ◌≡◌, refl, sym, ap, subst, ◌∙◌, true, false, List, [], ◌∷◌, Option, none, some, Text,
  ◌==◌, ==_iff, Bool-cases, inl, inr,
}
use onesilo_node.Pairing.Assertion.{EcPublicKeys}
use onesilo_node.Pairing.Responder.Steps.{if_cases}
use onesilo_node.Pairing.Jwks.{
  Phase, idle, looked, leads, waits, answered, Source, new_source, put, is_fresh, is_limited,
  has_kid, look, look_for_kid, or_stale, wake, finish, Event, asks, asks_for, enters, fetched,
  cancelled, advance, call_of, step, run,
}
use onesilo_node.Pairing.Jwks.Shared.{
  is_leading, is_waiting, Brought, Known, IsShared, go_to-IsShared, enter-IsShared,
}

Brought-cons :
    (ks : EcPublicKeys) (l : List EcPublicKeys) (o : Option EcPublicKeys)
    → Brought l o
    → Brought (ks ∷ l) o
Brought-cons ks l none b = tt
Brought-cons ks l (some k) b = (suc b.0, b.1)

Known-cons : (ks : EcPublicKeys) (l : List EcPublicKeys) (p : Phase) → Known l p → Known (ks ∷ l) p
Known-cons ks l idle b = tt
Known-cons ks l (looked o) b = Brought-cons ks l o b
Known-cons ks l (leads o) b = Brought-cons ks l o b
Known-cons ks l (waits o) b = Brought-cons ks l o b
Known-cons ks l (answered o) b = Brought-cons ks l o b

Known-wake :
    (result : Option EcPublicKeys) (l : List EcPublicKeys) (p : Phase)
    → Brought l result
    → Known l p
    → Known l (wake result p)
Known-wake result l idle r b = tt
Known-wake result l (looked o) r b = b
Known-wake result l (leads o) r b = b
Known-wake none l (waits o) r b = b
Known-wake (some ks) l (waits o) r b = r
Known-wake result l (answered o) r b = b

is_leading-wake :
    (result : Option EcPublicKeys) (p : Phase) → is_leading (wake result p) ≡ is_leading p
is_leading-wake result idle = refl
is_leading-wake result (looked o) = refl
is_leading-wake result (leads o) = refl
is_leading-wake result (waits o) = refl
is_leading-wake result (answered o) = refl

is_waiting-wake : (result : Option EcPublicKeys) (p : Phase) → is_waiting (wake result p) ≡ false
is_waiting-wake result idle = refl
is_waiting-wake result (looked o) = refl
is_waiting-wake result (leads o) = refl
is_waiting-wake result (waits o) = refl
is_waiting-wake result (answered o) = refl

Brought-or_stale :
    (l : List EcPublicKeys) (result stale : Option EcPublicKeys)
    → Brought l result
    → Brought l stale
    → Brought l (or_stale result stale)
Brought-or_stale l none stale r b = b
Brought-or_stale l (some ks) stale r b = r

-- The leader's end, for the keys that have been brought by then.
finish_calls :
    (i : ℕ) (result stale : Option EcPublicKeys) (l : List EcPublicKeys) (s : Source)
    (ks : Option EcPublicKeys) (at : ℕ)
    → IsShared s
    → s.calls i ≡ leads stale
    → Brought l result
    → Brought l stale
    → ((j : ℕ) → Known l (s.calls j))
    → Brought l ks
    → IsShared (record s {
      keys = ks;
      fetched_at = at;
      brought = l;
      inflight = false;
      calls = put i (answered (or_stale result stale)) (λ j. wake result (s.calls j));
    })
finish_calls i result stale l s ks at x c r b k q =
    let led : is_leading (s.calls i) ≡ true = ap is_leading c in
    let quiet : (a : ℕ)
        → is_leading (put i (answered (or_stale result stale)) (λ j. wake result (s.calls j)) a)
          ≡ false =
      λ a.
        if_cases (λ p. is_leading p ≡ false) (a == i) (λ e. refl)
          (λ e. is_leading-wake result (s.calls a) ∙ elim (Bool-cases (is_leading (s.calls a))) [
            | inl g ↦ let z : (a == i) ≡ true = (==_iff a i).1 (x.one a i g led) in absurd (cc)
            | inr g ↦ g
          ]) in
    record {
      one = λ a b g h. let z = quiet a in absurd (cc);
      leading = λ a g. let z = quiet a in absurd (cc);
      waiting = λ a.
          if_cases (λ p. is_waiting p ≡ true → false ≡ true) (a == i) (λ e h. h)
            (λ e h. sym (is_waiting-wake result (s.calls a)) ∙ h);
      led = λ f. absurd (cc);
      known = λ a.
          if_cases (Known l) (a == i) (λ e. Brought-or_stale l result stale r b)
            (λ e. Known-wake result l (s.calls a) r (k a));
      cached = q;
    }

finish-IsShared :
    (i now : ℕ) (result stale : Option EcPublicKeys) (s : Source)
    → IsShared s
    → s.calls i ≡ leads stale
    → Brought s.brought stale
    → IsShared (finish i now result stale s)
unfolding finish
finish-IsShared i now none stale s x c b =
    finish_calls i none stale s.brought s s.keys s.fetched_at x c tt b x.known x.cached
finish-IsShared i now (some ks) stale s x c b =
    finish_calls i (some ks) stale (ks ∷ s.brought) s (some ks) now x c (0, refl)
      (Brought-cons ks s.brought stale b) (λ j. Known-cons ks s.brought (s.calls j) (x.known j))
      (0, refl)

-- A call that is at rest looks, and has its answer or refreshes.
look-IsShared : (i now : ℕ) (s : Source) → IsShared s → s.calls i ≡ idle → IsShared (look i now s)
unfolding look
look-IsShared i now s x c =
    if_cases IsShared (is_fresh now s.fetched_at s.keys)
      (λ _.
        go_to-IsShared i (answered s.keys) s x refl (ap is_leading c) (λ e. absurd (cc)) x.cached)
      (λ _. go_to-IsShared i (looked s.keys) s x refl (ap is_leading c) (λ e. absurd (cc)) x.cached)

look_for_kid-IsShared :
    (i : ℕ) (kid : Text) (now : ℕ) (s : Source)
    → IsShared s
    → s.calls i ≡ idle
    → IsShared (look_for_kid i kid now s)
unfolding look_for_kid
look_for_kid-IsShared i kid now s x c =
    let answer =
      go_to-IsShared i (answered s.keys) s x refl (ap is_leading c) (λ e. absurd (cc)) x.cached in
    if_cases IsShared (has_kid kid s.keys) (λ _. answer)
      (λ _.
        if_cases IsShared (is_limited now s.last_attempt) (λ _. answer)
          (λ _. go_to-IsShared i (looked none) s x refl (ap is_leading c) (λ e. absurd (cc)) tt))

advance-IsShared :
    (e : Event) (p : Phase) (s : Source)
    → IsShared s
    → s.calls (call_of e) ≡ p
    → IsShared (advance e p s)
unfolding advance
advance-IsShared (asks i now) idle s x c = look-IsShared i now s x c
advance-IsShared (asks i now) (looked o) s x c = x
advance-IsShared (asks i now) (leads o) s x c = x
advance-IsShared (asks i now) (waits o) s x c = x
advance-IsShared (asks i now) (answered o) s x c = x
advance-IsShared (asks_for i kid now) idle s x c = look_for_kid-IsShared i kid now s x c
advance-IsShared (asks_for i kid now) (looked o) s x c = x
advance-IsShared (asks_for i kid now) (leads o) s x c = x
advance-IsShared (asks_for i kid now) (waits o) s x c = x
advance-IsShared (asks_for i kid now) (answered o) s x c = x
advance-IsShared (enters i now) idle s x c = x
advance-IsShared (enters i now) (looked o) s x c =
    enter-IsShared i now o s x c (subst (Known s.brought) c (x.known i))
advance-IsShared (enters i now) (leads o) s x c = x
advance-IsShared (enters i now) (waits o) s x c = x
advance-IsShared (enters i now) (answered o) s x c = x
advance-IsShared (fetched i now r) idle s x c = x
advance-IsShared (fetched i now r) (looked o) s x c = x
advance-IsShared (fetched i now r) (leads o) s x c =
    finish-IsShared i now r o s x c (subst (Known s.brought) c (x.known i))
advance-IsShared (fetched i now r) (waits o) s x c = x
advance-IsShared (fetched i now r) (answered o) s x c = x
advance-IsShared (cancelled i) idle s x c = x
advance-IsShared (cancelled i) (looked o) s x c = x
advance-IsShared (cancelled i) (leads o) s x c = x
advance-IsShared (cancelled i) (waits o) s x c =
    go_to-IsShared i (answered o) s x refl (ap is_leading c) (λ e. absurd (cc))
      (subst (Known s.brought) c (x.known i))
advance-IsShared (cancelled i) (answered o) s x c = x

run_shares : (es : List Event) (s : Source) → IsShared s → IsShared (run es s)
unfolding run step
run_shares [] s x = x
run_shares (e ∷ es) s x =
    run_shares es (step e s) (advance-IsShared e (s.calls (call_of e)) s x refl)

-- Whatever calls of Keys and KeysForKid there are, in whatever order their critical sections come, and
-- however the fetches end: at most one call fetches at a time, and one does exactly while a fetch is
-- marked as running; a call waits only while another fetches; and all keys that are cached or that a
-- call is given are those of a fetch that succeeded.
pub run_new-IsShared : (es : List Event) → IsShared (run es new_source)
unfolding new_source
run_new-IsShared es = run_shares es new_source (record {
  one = λ i j g h. absurd (cc);
  leading = λ i g. absurd (cc);
  waiting = λ i g. absurd (cc);
  led = λ f. absurd (cc);
  known = λ i. tt;
  cached = tt;
})

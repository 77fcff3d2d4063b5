-- ===== src/Controlplane/Manager/Actions.antt =====
-- What a step sends, and when.
use onesilo_node.Base.{
  ◌≡◌, refl, sym, ap, subst, ◌∙◌, inl, inr, Bool, true, false, not, ◌||◌, List, [], ◌∷◌, Option,
  none, some, arith, Text, text_eq, is_empty, Bool-cases, if◌then◌else◌,
}
use mathlib.Core.Bool.{false≢true}
use onesilo_node.Base.Int.{ℤ}
use onesilo_node.Controlplane.Report.{
  RegisterRequest, RegisterResponse, Answer, accepted, refused, enabled_capability_ids,
}
use onesilo_node.Controlplane.Manager.{
  Manager, World, Action, sends_register, commits_key, saves_device_id, sends_heartbeat,
  sends_delete, MintOutcome, no_provider, mint_failed, minted, call_all, deregister, key_of,
  idle_interval, ensure_device_id, register_accepted, register_answered, register_as, register,
  request_of, heartbeat, is_desired, step,
}

-- Whether a commit is among the actions.
abbrev pub has_commit : List Action → Bool
has_commit [] = false
has_commit (commits_key ∷ l) = true
has_commit (sends_register r ∷ l) = has_commit l
has_commit (saves_device_id d ∷ l) = has_commit l
has_commit (sends_heartbeat d s ∷ l) = has_commit l
has_commit (sends_delete d ∷ l) = has_commit l

-- The key that a commit belongs to was minted, is not empty, and went out in the request that the
-- step begins with and that the client reported as accepted.
pub record IsCommitted (w : World) (acts : List Action) : Type 0 where
  pub key : Text
  pub request : RegisterRequest
  pub response : RegisterResponse
  pub rest : List Action
  pub minted_eq : w.mint ≡ minted key true
  pub key_full : is_empty key ≡ false
  pub published : request.inference_key ≡ key
  pub sent_first : acts ≡ sends_register request ∷ commits_key ∷ rest
  pub accepted_eq : w.register request ≡ accepted response

key_of-true :
    (o : MintOutcome)
    → (key_of o).1 ≡ true
    → (k : Text) × (o ≡ minted k true) × (is_empty k ≡ false) × ((key_of o).0 ≡ k)
unfolding key_of
key_of-true no_provider h = absurd (cc)
key_of-true mint_failed h = absurd (cc)
key_of-true (minted k offered) h = (k, ground arith, ground arith, ground arith)

saves-has_commit :
    (url d : Text) (r : RegisterResponse) (m : Manager)
    → has_commit (register_accepted url d r m).1 ≡ false
unfolding register_accepted
saves-has_commit url d r m = ground arith

register_answered-commit :
    (req : RegisterRequest) (b : Bool) (a : Answer RegisterResponse) (m : Manager)
    → has_commit (register_answered req b a m).1 ≡ true
    → (r : RegisterResponse) × (rest : List Action) × (b ≡ true)
      × (a ≡ accepted r)
      × ((register_answered req b a m).1 ≡ sends_register req ∷ commits_key ∷ rest)
unfolding register_answered
register_answered-commit req b (refused e) m h = absurd (cc)
register_answered-commit req true (accepted r) m h = (r, _, refl, refl, refl)
register_answered-commit req false (accepted r) m h =
    absurd (cc (h, saves-has_commit req.tunnel_url req.device_id r m))

register_as-IsCommitted :
    (w : World) (url : Text) (ids : List Text) (m : Manager) (o : Option Text)
    → has_commit (register_as w url ids m o).1 ≡ true
    → IsCommitted w (register_as w url ids m o).1
unfolding register_as
register_as-IsCommitted w url ids m none h = absurd (cc)
register_as-IsCommitted w url ids m (some d) h =
    let req = request_of w url ids d in
    let (r, rest, b, a, sent) =
      register_answered-commit req (key_of w.mint).1 (w.register req) (call_all w.during m) h in
    let (k, minted_eq, full, key) = key_of-true w.mint b in
    record {
      key = k;
      request = req;
      response = r;
      rest = rest;
      minted_eq = minted_eq;
      key_full = full;
      published = unfold request_of in key;
      sent_first = sent;
      accepted_eq = a;
    }

deregister-has_commit : (m : Manager) → has_commit (deregister m).1 ≡ false
unfolding deregister
deregister-has_commit m = ground arith

heartbeat-has_commit : (w : World) (i : ℤ) (m : Manager) → has_commit (heartbeat w i m).1 ≡ false
unfolding heartbeat
heartbeat-has_commit w i m = refl

-- Whether the manager must (re-)register: it is not registered, or not under the current URL.
abbrev pub is_stale : Manager → Bool
is_stale m = not m.registered || not (text_eq m.registered_url m.tunnel_url)

module _ (w : World) (m : Manager) where
  pub step-off :
      is_desired w m ≡ false
      → (step w m).1 ≡ (if m.registered then sends_delete m.device_id ∷ [] else [])
  unfolding step deregister
  step-off h = ground arith

  pub step-blocked :
      is_desired w m ≡ true → m.auth_blocked ≡ true → step w m ≡ (m, [], idle_interval)
  unfolding step
  step-blocked h b = simp (h, b)

  pub step-register :
      is_desired w m ≡ true
      → m.auth_blocked ≡ false
      → is_stale m ≡ true
      → step w m ≡ register w m.tunnel_url (enabled_capability_ids w.capabilities) m
  unfolding step
  step-register h b s = simp (h, b, s)

  pub step-heartbeat :
      is_desired w m ≡ true
      → m.auth_blocked ≡ false
      → is_stale m ≡ false
      → step w m ≡ heartbeat w m.interval m
  unfolding step
  step-heartbeat h b s = simp (h, b, s)

-- A step retires the keys that a new one replaces only after Client.Register has succeeded for the
-- registration that carries the new one, and never on the strength of an empty key: whenever a step
-- commits, it sent a registration first, with the minted, non-empty key, and the client reported it
-- as accepted.
pub step-IsCommitted :
    (w : World) (m : Manager) → has_commit (step w m).1 ≡ true → IsCommitted w (step w m).1
unfolding register
step-IsCommitted w m h = elim (Bool-cases (is_desired w m)) [
  | inr off ↦ absurd (
      none_of (if m.registered then sends_delete m.device_id ∷ [] else []) (step-off w m off)
        (ground arith))
  | inl on ↦ elim (Bool-cases m.auth_blocked) [
    | inl blocked ↦ absurd (none_of [] (ap (λ r. r.1) (step-blocked w m on blocked)) refl)
    | inr free ↦ elim (Bool-cases (is_stale m)) [
      | inr up ↦ absurd (
          none_of (heartbeat w m.interval m).1 (ap (λ r. r.1) (step-heartbeat w m on free up))
            (heartbeat-has_commit w m.interval m))
      | inl down ↦
          let (n, o) = ensure_device_id w.load_device_id m in
          let e = ap (λ r. r.1) (step-register w m on free down) in
          subst (IsCommitted w) (sym e) (
            register_as-IsCommitted w m.tunnel_url (enabled_capability_ids w.capabilities) n o
              (ap has_commit (sym e) ∙ h))
    ]
  ]
]
  where
    none_of : (l : List Action) → (step w m).1 ≡ l → has_commit l ≡ false → ⊥
    none_of l e f = false≢true (sym f ∙ ap has_commit (sym e) ∙ h)

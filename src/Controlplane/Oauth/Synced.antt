-- ===== src/Controlplane/Oauth/Synced.antt =====
-- The sign-in over the life of the node.
use onesilo_node.Base.{
  ◌≡◌, ◌⊎◌, refl, sym, ap, subst, ◌∙◌, inl, inr, Bool, true, false, not, ◌||◌, List, [], ◌∷◌,
  Option, none, some, Text, is_empty, text_eq_refl,
}
use onesilo_node.Base.Int.{ℤ}
use onesilo_node.Base.Result.{Result, ok, err}
use onesilo_node.Pairing.Responder.Steps.{if_cases}
use onesilo_node.Controlplane.Oauth.{
  OauthCredential, CredentialFile, missing, unreadable, malformed, decoded, TokenError, TokenAnswer,
  answered, post_failed, not_decoded, TokenResponse, OauthSource, Circumstance, load_credential,
  refreshed, refresh_grant, invalidate, save_credential, after_refresh, is_current, token_of,
  token_loaded, token_cached, token_in, token, set_file, write_credential, remove_credential,
}

-- A credential that a restart accepts.
abbrev pub IsUsable : OauthCredential → Type 0
IsUsable c = (is_empty c.access_token ≡ false) × (is_empty c.token_endpoint ≡ false)

-- What is in memory is usable, and is what the file of the directory holds.
abbrev pub IsSynced : (dir : Text) → OauthSource → Type 0
IsSynced dir s = (c : OauthCredential) → s.cached ≡ some c → IsUsable c × (s.files dir ≡ decoded c)

-- A token that is given out: it is that of the credential in memory, which is not within a minute of
-- its expiry, or which the token endpoint has just granted.
pub record IsGiven (w : Circumstance) (s : OauthSource) (t : Text) : Type 0 where
  pub credential : OauthCredential
  pub cached : s.cached ≡ some credential
  pub token : credential.access_token ≡ t
  pub fresh :
      (is_current w.now credential.expires_at ≡ true)
      ⊎ ((r : TokenResponse) × (w.answer ≡ answered true r) × (r.access_token ≡ t))

abbrev pub Gives : (dir : Text) → Circumstance → OauthSource × Result TokenError Text → Type 0
Gives dir w x = IsSynced dir x.0 × ((t : Text) → x.1 ≡ ok t → IsGiven w x.0 t)

some-injective : {a b : OauthCredential} → some a ≡ some b → a ≡ b
some-injective e = cc

ok-injective : {a b : Text} → ◌≡◌ {A = Result TokenError Text} (ok a) (ok b) → a ≡ b
ok-injective e = cc

cred-injective :
    {a b : OauthCredential} → ◌≡◌ {A = Result TokenError OauthCredential} (ok a) (ok b) → a ≡ b
cred-injective e = cc

either_of : (a b : Bool) → (a || b) ≡ false → (a ≡ false) × (b ≡ false)
either_of false b h = (refl, h)
either_of true b h = absurd (cc)

-- A credential that loads is what the file holds.
load_credential-IsUsable :
    (f : CredentialFile) (c : OauthCredential)
    → load_credential f ≡ ok c
    → IsUsable c × (f ≡ decoded c)
unfolding load_credential
load_credential-IsUsable missing c e = absurd (cc)
load_credential-IsUsable unreadable c e = absurd (cc)
load_credential-IsUsable malformed c e = absurd (cc)
load_credential-IsUsable (decoded d) c e =
    if_cases (λ x. x ≡ ok c → IsUsable c × (decoded d ≡ decoded c))
      (is_empty d.access_token || is_empty d.token_endpoint) (λ h e. absurd (cc))
      (λ h e.
        let same = cred-injective e in
        (
          subst IsUsable same (either_of (is_empty d.access_token) (is_empty d.token_endpoint) h),
          ap decoded same,
        ))
      e

open_of : (b : Bool) → not b ≡ false → b ≡ true
open_of true h = refl
open_of false h = absurd (cc)

-- A grant was answered with an access token, and keeps the endpoint.
record IsGranted (a : TokenAnswer) (c n : OauthCredential) : Type 0 where
  response : TokenResponse
  answer : a ≡ answered true response
  some_token : is_empty response.access_token ≡ false
  same_token : response.access_token ≡ n.access_token
  same_endpoint : c.token_endpoint ≡ n.token_endpoint

refresh_grant-IsGranted :
    (now : ℤ) (a : TokenAnswer) (c n : OauthCredential)
    → refresh_grant now a c ≡ ok n
    → IsGranted a c n
unfolding refresh_grant refreshed
refresh_grant-IsGranted now post_failed c n e = absurd (cc)
refresh_grant-IsGranted now not_decoded c n e = absurd (cc)
refresh_grant-IsGranted now (answered b r) c n e =
    if_cases (λ x. x ≡ ok n → IsGranted (answered b r) c n) (not b || is_empty r.access_token)
      (λ h e. absurd (cc))
      (λ h e.
        let same = cred-injective e in
        let (g, some_token) = either_of (not b) (is_empty r.access_token) h in
        record {
          response = r;
          answer = ap (λ b. answered b r) (open_of b g);
          some_token = some_token;
          same_token = ap (λ (c : OauthCredential). c.access_token) same;
          same_endpoint = ap (λ (c : OauthCredential). c.token_endpoint) same;
        })
      e

set_file_there :
    (dir : Text) (f : CredentialFile) (s : OauthSource) → (set_file dir f s).files dir ≡ f
unfolding set_file
set_file_there dir f s = rw (text_eq_refl dir) refl

module _ (dir : Text) (w : Circumstance) where
  saved-Gives :
      (o : Option Text) (c n : OauthCredential) (s : OauthSource)
      → o ≡ none
      → IsUsable c
      → IsGranted w.answer c n
      → Gives dir w (save_credential o dir s n)
  unfolding save_credential write_credential set_file
  saved-Gives (some x) c n s h u g = absurd (cc)
  saved-Gives none c n s h u g = (
    (λ d e.
        subst
          (λ d.
            IsUsable d
            × ((write_credential dir n (record s { cached = some n })).files dir ≡ decoded d))
          (some-injective e)
          (
            (
              ap is_empty (sym g.same_token) ∙ g.some_token,
              ap is_empty (sym g.same_endpoint) ∙ u.1,
            ),
            set_file_there dir (decoded n) (record s { cached = some n }),
          )),
    λ t e. record {
      credential = n;
      cached = refl;
      token = ok-injective e;
      fresh = inr (g.response, g.answer, g.same_token ∙ ok-injective e);
    },
  )

  after_refresh-Gives :
      (res : Result TokenError OauthCredential) (c : OauthCredential) (s : OauthSource)
      → w.written ≡ none
      → IsUsable c
      → IsSynced dir s
      → refresh_grant w.now w.answer c ≡ res
      → Gives dir w (after_refresh w.written dir res s)
  unfolding after_refresh
  after_refresh-Gives (err x) c s h u sync e = (sync, λ t e. absurd (cc))
  after_refresh-Gives (ok n) c s h u sync e =
      saved-Gives w.written c n s h u (refresh_grant-IsGranted w.now w.answer c n e)

  token_of-Gives :
      (c : OauthCredential) (s : OauthSource)
      → w.written ≡ none
      → s.cached ≡ some c
      → IsSynced dir s
      → Gives dir w (token_of w dir c s)
  unfolding token_of
  token_of-Gives c s h e sync =
      if_cases (Gives dir w) (is_current w.now c.expires_at)
        (λ k. (
          sync,
          λ t d. record { credential = c; cached = e; token = ok-injective d; fresh = inl k },
        ))
        (λ k.
          if_cases (Gives dir w) (is_empty c.refresh_token) (λ l. (sync, λ t d. absurd (cc)))
            (λ l. after_refresh-Gives _ c s h (sync c e).0 sync refl))

  token_loaded-Gives :
      (res : Result TokenError OauthCredential) (s : OauthSource)
      → w.written ≡ none
      → IsSynced dir s
      → load_credential (s.files dir) ≡ res
      → Gives dir w (token_loaded w dir res s)
  unfolding token_loaded
  token_loaded-Gives (err x) s h sync e = (sync, λ t e. absurd (cc))
  token_loaded-Gives (ok c) s h sync e =
      token_of-Gives c (record s { cached = some c }) h refl
        (λ d f.
          subst (λ d. IsUsable d × (s.files dir ≡ decoded d)) (some-injective f)
            (load_credential-IsUsable (s.files dir) c e))

  token_cached-Gives :
      (o : Option OauthCredential) (s : OauthSource)
      → w.written ≡ none
      → IsSynced dir s
      → s.cached ≡ o
      → Gives dir w (token_cached w dir o s)
  unfolding token_cached
  token_cached-Gives none s h sync e = token_loaded-Gives _ s h sync refl
  token_cached-Gives (some c) s h sync e = token_of-Gives c s h e sync

  -- The directory that is resolved, if any is, is this one.
  abbrev pub IsIn : Type 0
  IsIn = (d : Text) → w.data_dir ≡ some d → d ≡ dir

  token_in-Gives :
      (o : Option Text) (s : OauthSource)
      → IsIn
      → w.data_dir ≡ o
      → w.written ≡ none
      → IsSynced dir s
      → Gives dir w (token_in w o s)
  unfolding token_in
  token_in-Gives none s i e h sync = (sync, λ t e. absurd (cc))
  token_in-Gives (some d) s i e h sync =
      subst (λ d. Gives dir w (token_cached w d s.cached s)) (sym (i d e))
        (token_cached-Gives s.cached s h sync refl)

  token-Gives :
      (s : OauthSource) → IsIn → w.written ≡ none → IsSynced dir s → Gives dir w (token w s)
  unfolding token
  token-Gives s i h sync = token_in-Gives w.data_dir s i refl h sync

-- What happens to a source: calls of its methods in the order of its lock, and what else writes or
-- removes the file.
pub data Event : Type 0 where
  tokens : Circumstance → Event
  invalidates : Event
  writes : (dir : Text) → OauthCredential → Event
  removes : (dir : Text) → Event

unfoldable pub run : List Event → OauthSource → OauthSource
run [] s = s
run (tokens w ∷ es) s = run es (token w s).0
run (invalidates ∷ es) s = run es (invalidate s)
run (writes dir c ∷ es) s = run es (write_credential dir c s)
run (removes dir ∷ es) s = run es (remove_credential dir s)

abbrev pub next_invalidates : List Event → Bool
next_invalidates [] = false
next_invalidates (tokens w ∷ es) = false
next_invalidates (invalidates ∷ es) = true
next_invalidates (writes dir c ∷ es) = false
next_invalidates (removes dir ∷ es) = false

-- Every call of Token finds the same directory and can write, and what is written or removed elsewhere
-- is followed at once by Invalidate.
abbrev pub IsOrderly : (dir : Text) → List Event → Type 0
IsOrderly dir [] = Unit
IsOrderly dir (tokens w ∷ es) = IsIn dir w × (w.written ≡ none) × IsOrderly dir es
IsOrderly dir (invalidates ∷ es) = IsOrderly dir es
IsOrderly dir (writes d c ∷ es) = (next_invalidates es ≡ true) × IsOrderly dir es
IsOrderly dir (removes d ∷ es) = (next_invalidates es ≡ true) × IsOrderly dir es

run-IsSynced :
    (dir : Text) (es : List Event) (s : OauthSource)
    → IsOrderly dir es
    → IsSynced dir s ⊎ (next_invalidates es ≡ true)
    → IsSynced dir (run es s)
unfolding run invalidate
run-IsSynced dir [] s h (inl sync) = sync
run-IsSynced dir [] s h (inr e) = absurd (cc)
run-IsSynced dir (tokens w ∷ es) s h (inl sync) =
    run-IsSynced dir es (token w s).0 h.2 (inl (token-Gives dir w s h.0 h.1 sync).0)
run-IsSynced dir (tokens w ∷ es) s h (inr e) = absurd (cc)
run-IsSynced dir (invalidates ∷ es) s h p = run-IsSynced dir es _ h (inl (λ c e. absurd (cc)))
run-IsSynced dir (writes d c ∷ es) s h p = run-IsSynced dir es _ h.1 (inr h.0)
run-IsSynced dir (removes d ∷ es) s h p = run-IsSynced dir es _ h.1 (inr h.0)

-- A source whose node has just started.
abbrev pub started : (Text → CredentialFile) → OauthSource
started f = record { cached = none; files = f }

-- While every write of a refresh succeeds, the data directory stays the same, and each write or removal
-- of a file by a sign-in, a disconnection or another program is followed at once by Invalidate: whatever
-- calls are made and whatever the token endpoint answers, the credential in memory is what the file of
-- the directory holds, and a restart accepts it; and a token that is given out is that of this
-- credential, which is not within a minute of its expiry, or which the token endpoint has granted in
-- this call.
pub run_token-IsGiven :
    (dir : Text) (es : List Event) (w : Circumstance) (f : Text → CredentialFile)
    → IsOrderly dir es
    → IsIn dir w
    → w.written ≡ none
    → Gives dir w (token w (run es (started f)))
run_token-IsGiven dir es w f h i k =
    token-Gives dir w (run es (started f)) i k
      (run-IsSynced dir es (started f) h (inl (λ c e. absurd (cc))))

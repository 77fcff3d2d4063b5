-- ===== src/Controlplane/Oauth/Unsaved.antt =====
-- A grant that could not be written.
use onesilo_node.Base.{◌≡◌, ap, ◌∙◌, true, false, some, Text, is_empty}
use onesilo_node.Base.Int.{ℤ}
use onesilo_node.Base.Result.{ok, err}
use onesilo_node.Pairing.Responder.Steps.{if_true, if_false}
use onesilo_node.Controlplane.Oauth.{
  OauthCredential, CredentialFile, not_saved, answered, TokenResponse, OauthSource, Circumstance,
  expiry, refreshed, refresh_grant, save_credential, after_refresh, is_current, token_of,
  token_cached, token_in, token,
}

abbrev pub refreshing : (dir : Text) → ℤ → TokenResponse → Text → Circumstance
refreshing dir now r e = record {
  data_dir = some dir;
  now = now;
  answer = answered true r;
  written = some e;
}

-- The source after a refresh whose result could not be written.
abbrev pub unsaved : ℤ → TokenResponse → OauthCredential → (Text → CredentialFile) → OauthSource
unsaved now r c f = record { cached = some (refreshed now r c); files = f }

refresh_unsaved :
    (dir : Text) (now : ℤ) (r : TokenResponse) (e : Text) (c : OauthCredential)
    (f : Text → CredentialFile)
    → is_current now c.expires_at ≡ false
    → is_empty c.refresh_token ≡ false
    → is_empty r.access_token ≡ false
    → token (refreshing dir now r e) (record { cached = some c; files = f })
      ≡ (unsaved now r c f, err (not_saved e))
unfolding token token_in token_cached token_of after_refresh refresh_grant save_credential
refresh_unsaved dir now r e c f expired renewable granted =
    if_false (is_current now c.expires_at) _ _ expired
    ∙ if_false (is_empty c.refresh_token) _ _ renewable
    ∙ ap (λ x. after_refresh (some e) dir x (record { cached = some c; files = f }))
        (if_false (is_empty r.access_token) _ _ granted)

-- If the credential that a refresh has brought cannot be written, the call fails, but the source keeps
-- the credential in memory: until this expires, later calls give its token without another attempt to
-- write it, in whichever data directory, and no file has changed, also if the endpoint has replaced its refresh token.
pub token_unsaved :
    (dir : Text) (now : ℤ) (r : TokenResponse) (e : Text) (c : OauthCredential)
    (f : Text → CredentialFile) (w : Circumstance) (live : Text)
    → is_current now c.expires_at ≡ false
    → is_empty c.refresh_token ≡ false
    → is_empty r.access_token ≡ false
    → w.data_dir ≡ some live
    → is_current w.now (expiry now r.expires_in) ≡ true
    → (token (refreshing dir now r e) (record { cached = some c; files = f })
        ≡ (unsaved now r c f, err (not_saved e)))
      × (token w (unsaved now r c f) ≡ (unsaved now r c f, ok r.access_token))
unfolding token token_in token_cached token_of refreshed
token_unsaved dir now r e c f w live expired renewable granted at valid = (
  refresh_unsaved dir now r e c f expired renewable granted,
  ap (λ o. token_in w o (unsaved now r c f)) at
      ∙ if_true (is_current w.now (expiry now r.expires_in)) _ _ valid,
)

-- ===== src/Controlplane/Oauth/Tests.antt =====
-- A sign-in that has expired.
use onesilo_node.Base.{
  ◌≡◌, refl, ◌*◌, List, true, [], ◌∷◌, some, none, Text, text, text_eq, if◌then◌else◌,
}
use onesilo_node.Base.Int.{pos, second, ◌+ℤ◌, is_less, duration, wrap_int64}
use onesilo_node.Base.Result.{ok, err}
use onesilo_node.Controlplane.Oauth.{
  OauthCredential, CredentialFile, TokenResponse, Circumstance, decoded, missing, not_saved,
  answered, is_current, expiry, token, token_in, token_cached, token_of, after_refresh,
  refresh_grant, refreshed, save_credential, write_credential, set_file,
}
use onesilo_node.Controlplane.Oauth.Synced.{
  Event, tokens, invalidates, writes, run, started, Gives, run_token-IsGiven,
}
use onesilo_node.Controlplane.Oauth.Unsaved.{refreshing, unsaved, token_unsaved}

abbrev credential : OauthCredential
credential = record {
  token_endpoint = text "https://t";
  client_id = text "node";
  access_token = text "old";
  refresh_token = text "r1";
  expires_at = some (pos (100 * second));
}

abbrev renewed : OauthCredential
renewed = record credential { access_token = text "fresh"; expires_at = none }

abbrev response : TokenResponse
response = record { access_token = text "new"; refresh_token = text "r2"; expires_in = pos 3600 }

abbrev home : Text
home = text "/home/node"

abbrev granted : Circumstance
granted = record {
  data_dir = some home;
  now = pos (50 * second);
  answer = answered true response;
  written = none;
}

abbrev signed_in : Text → CredentialFile
signed_in d = if text_eq d home then decoded credential else missing

abbrev events : List Event
events = tokens granted ∷ writes home renewed ∷ invalidates ∷ []

stays : (d : Text) → some home ≡ some d → d ≡ home
stays d e = cc

run_token-IsGiven_example : Gives home granted (token granted (run events (started signed_in)))
run_token-IsGiven_example =
    run_token-IsGiven home events granted signed_in (stays, refl, (refl, tt)) stays refl

token_unsaved_example :
    (token
        (refreshing home (pos (50 * second)) response (text "full"))
        (record { cached = some credential; files = signed_in })
      ≡ (unsaved (pos (50 * second)) response credential signed_in, err (not_saved (text "full"))))
    × (token granted (unsaved (pos (50 * second)) response credential signed_in)
        ≡ (unsaved (pos (50 * second)) response credential signed_in, ok (text "new")))
unfolding is_current expiry is_less duration wrap_int64 ◌+ℤ◌
token_unsaved_example =
    token_unsaved home (pos (50 * second)) response (text "full") credential signed_in granted home
      refl refl refl refl refl

-- After a change of the data directory the credential of the old one is still given out.
abbrev elsewhere : Circumstance
elsewhere = record granted { data_dir = some (text "/other"); now = pos (10 * second) }

old_directory :
    (token elsewhere (record { cached = some credential; files = signed_in })).1 ≡ ok (text "old")
unfolding token token_in token_cached token_of is_current is_less ◌+ℤ◌
old_directory = refl

-- A call of Token between the write of a sign-in and its Invalidate replaces the new credential in the
-- file by a refresh of the old one.
overwritten :
    (token granted (
        write_credential home renewed
          (record { cached = some credential; files = signed_in }))).0.files
      home
    ≡ decoded (refreshed (pos (50 * second)) response credential)
unfolding token token_in token_cached token_of is_current is_less ◌+ℤ◌ after_refresh refresh_grant
    save_credential write_credential set_file text_eq
overwritten = refl

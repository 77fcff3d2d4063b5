-- ===== src/Controlplane/Oauth.antt =====
-- internal/controlplane/oauth.go and auth.go: the sources of the token for the control plane. A call
-- runs under the source's lock; its time, the token endpoint's answer and the outcome of saving are
-- arguments. Times are in nanoseconds.
pub mod Synced
pub mod Unsaved
mod Tests
use onesilo_node.Base.{
  zero, suc, ◌*◌, Bool, true, false, not, ◌&&◌, ◌||◌, List, [], ◌∷◌, Option, none, some, Text, text,
  text_eq, is_empty, if◌then◌else◌,
}
use onesilo_node.Base.Int.{ℤ, pos, negsuc, ◌+ℤ◌, is_less, second, duration}
use onesilo_node.Base.Result.{Result, ok, err}

-- `none` is the zero time.
pub record OauthCredential : Type 0 where
  pub token_endpoint : Text
  pub client_id : Text
  pub access_token : Text
  pub refresh_token : Text
  pub expires_at : Option ℤ

-- The file oauth.json of a directory, decoded by encoding/json.
pub data CredentialFile : Type 0 where
  missing unreadable malformed : CredentialFile
  decoded : OauthCredential → CredentialFile

pub data TokenError : Type 0 where
  no_data_dir not_signed_in read_failed not_parsed refresh_failed no_token : TokenError
  not_saved : Text → TokenError

unfoldable pub load_credential : CredentialFile → Result TokenError OauthCredential
load_credential missing = err not_signed_in
load_credential unreadable = err read_failed
load_credential malformed = err not_parsed
load_credential (decoded c) =
    if is_empty c.access_token || is_empty c.token_endpoint then err not_signed_in else ok c

abbrev pub expiry_skew : ℤ
expiry_skew = pos (60 * second)

pub record TokenResponse : Type 0 where
  pub access_token : Text
  pub refresh_token : Text
  pub expires_in : ℤ

-- What the token endpoint answers; `is_ok` is status 200.
pub data TokenAnswer : Type 0 where
  post_failed not_decoded : TokenAnswer
  answered : (is_ok : Bool) → TokenResponse → TokenAnswer

-- The product with time.Second wraps.
unfoldable pub expiry : ℤ → ℤ → Option ℤ
expiry now (pos zero) = none
expiry now (pos (suc n)) = some (now +ℤ duration (suc n))
expiry now (negsuc n) = none

unfoldable pub refreshed : ℤ → TokenResponse → OauthCredential → OauthCredential
refreshed now t c = record c {
  access_token = t.access_token;
  refresh_token = if is_empty t.refresh_token then c.refresh_token else t.refresh_token;
  expires_at = expiry now t.expires_in;
}

unfoldable pub refresh_grant : ℤ → TokenAnswer → OauthCredential → Result TokenError OauthCredential
refresh_grant now post_failed c = err refresh_failed
refresh_grant now not_decoded c = err refresh_failed
refresh_grant now (answered is_ok t) c =
    if not is_ok || is_empty t.access_token then err refresh_failed else ok (refreshed now t c)

-- The source's fields, with the files of all directories. `cached` is `none` while nothing is loaded.
pub record OauthSource : Type 0 where
  pub cached : Option OauthCredential
  pub files : Text → CredentialFile

-- What one call meets: the data directory of the live configuration, unless it cannot be resolved, the
-- time, the answer of a refresh, and the error of saving.
pub record Circumstance : Type 0 where
  pub data_dir : Option Text
  pub now : ℤ
  pub answer : TokenAnswer
  pub written : Option Text

unfoldable pub invalidate : OauthSource → OauthSource
invalidate s = record s { cached = none }

unfoldable pub set_file : (dir : Text) → CredentialFile → OauthSource → OauthSource
set_file dir f s = record s { files = λ d. if text_eq d dir then f else s.files d }

-- The file is written or removed by a sign-in, by a disconnection or by another program, which do not
-- take the source's lock.
unfoldable pub write_credential : (dir : Text) → OauthCredential → OauthSource → OauthSource
write_credential dir c s = set_file dir (decoded c) s

unfoldable pub remove_credential : (dir : Text) → OauthSource → OauthSource
remove_credential dir s = set_file dir missing s

unfoldable pub save_credential :
    Option Text
    → (dir : Text) → OauthSource
    → OauthCredential
    → OauthSource × Result TokenError Text
save_credential none dir s c =
    (write_credential dir c (record s { cached = some c }), ok c.access_token)
save_credential (some e) dir s c = (record s { cached = some c }, err (not_saved e))

unfoldable pub after_refresh :
    Option Text
    → (dir : Text) → Result TokenError OauthCredential
    → OauthSource
    → OauthSource × Result TokenError Text
after_refresh written dir (err e) s = (s, err e)
after_refresh written dir (ok c) s = save_credential written dir s c

unfoldable pub is_current : ℤ → Option ℤ → Bool
is_current now none = true
is_current now (some t) = is_less (now +ℤ expiry_skew) t

-- `Token` with the credential that is loaded.
unfoldable pub token_of :
    Circumstance
    → (dir : Text) → OauthCredential
    → OauthSource
    → OauthSource × Result TokenError Text
token_of w dir c s =
    if is_current w.now c.expires_at
    then (s, ok c.access_token)
    else if is_empty c.refresh_token
    then (s, err not_signed_in)
    else after_refresh w.written dir (refresh_grant w.now w.answer c) s

unfoldable pub token_loaded :
    Circumstance
    → (dir : Text) → Result TokenError OauthCredential
    → OauthSource
    → OauthSource × Result TokenError Text
token_loaded w dir (err e) s = (s, err e)
token_loaded w dir (ok c) s = token_of w dir c (record s { cached = some c })

unfoldable pub token_cached :
    Circumstance
    → (dir : Text) → Option OauthCredential
    → OauthSource
    → OauthSource × Result TokenError Text
token_cached w dir (some c) s = token_of w dir c s
token_cached w dir none s = token_loaded w dir (load_credential (s.files dir)) s

unfoldable pub token_in :
    Circumstance → Option Text → OauthSource → OauthSource × Result TokenError Text
token_in w none s = (s, err no_data_dir)
token_in w (some dir) s = token_cached w dir s.cached s

unfoldable pub token : Circumstance → OauthSource → OauthSource × Result TokenError Text
token w s = token_in w w.data_dir s

-- The other sources, and the choice between them.
unfoldable pub jwt_token : Text → Result TokenError Text
jwt_token t = if is_empty t then err no_token else ok t

unfoldable pub api_key_token : Option Text → Result TokenError Text
api_key_token none = err no_token
api_key_token (some v) = if is_empty v then err no_token else ok v

unfoldable pub modal_token :
    (mode jwt : Text)
    → (api_key : Option Text) → (oauth : Option (Result TokenError Text)) → Result TokenError Text
modal_token mode jwt api_key oauth =
    if text_eq mode (text "api_key")
    then api_key_token api_key
    else if text_eq mode (text "oauth")
    then elim oauth [ none ↦ err no_token | some r ↦ r ]
    else jwt_token jwt

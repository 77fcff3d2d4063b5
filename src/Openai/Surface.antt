-- ===== src/Openai/Surface.antt =====
-- internal/openaiapi/capability.go: the handler before the local model's server, and the states of
-- the capability. The URL parser, the case folding and the proxy's joining of URLs are other code.
mod Tests
use onesilo_node.Base.{
  ℕ, ◌≡◌, refl, sym, ap, ◌∙◌, Bool, true, false, not, ◌&&◌, ◌||◌, List, [], ◌∷◌, Option, none, some,
  arith, Text, text, text_eq, is_empty, length, leb, take, drop, if◌then◌else◌, inl, inr,
  Bool-cases,
}
use onesilo_node.Base.Assoc.{delete, lookup, lookup-delete}
use onesilo_node.Http.{Header, Request, Url, Outgoing, Answer, refuses, forwards, get_header}
use onesilo_node.Openai.Keys.{Key, KeyStore, Std, verify, revoke}
use onesilo_node.Openai.Keys.Access.{HasDistinctHashes, find_id, hash, verify-revoke}

abbrev pub routes : List Text
routes =
    text "/v1/chat/completions"
    ∷ text "/v1/completions"
    ∷ text "/v1/models"
    ∷ text "/v1/embeddings"
    ∷ []

-- What the handler asks at each request.
pub record Surroundings : Type 0 where
  pub openai_enabled : Bool
  pub compute : Bool
  pub is_running : Bool
  pub ollama_host : Text

unfoldable pub is_enabled : Surroundings → Bool
is_enabled s = s.openai_enabled && s.compute

abbrev scheme : Text
scheme = text "Bearer "

-- strings.EqualFold, url.Parse, and SetURL of the reverse proxy, which makes a URL of the target's and
-- the request's.
pub record Library : Type 0 where
  pub std : Std
  pub equal_fold : Text → Text → Bool
  pub parse_url : Text → Option Url
  pub set_url : Url → Request → Url

-- The gates before and after a key is revoked: `a`, `b` and `c` switch the surface on, `v` is a key of
-- the store, and `h` the revoked one.
answers :
    (a b c v h : Bool) (x : Answer)
    → (if not a || (not b || not c)
        then refuses 404
        else if not (v && not h)
        then refuses 401
        else x)
      ≡ (if h
          then (if (a && b) && c then refuses 401 else refuses 404)
          else if not a || (not b || not c)
          then refuses 404
          else if not v
          then refuses 401
          else x)
answers false b c v true x = refl
answers false b c v false x = refl
answers true false c v true x = refl
answers true false c v false x = refl
answers true true false v true x = refl
answers true true false v false x = refl
answers true true true true true x = refl
answers true true true true false x = refl
answers true true true false true x = refl
answers true true true false false x = refl

module _ (l : Library) where
  unfoldable pub bearer_token : Request → Option Text
  bearer_token r =
      let auth = get_header (text "Authorization") r.header in
      if leb (length auth) (length scheme) || not (l.equal_fold (take (length scheme) auth) scheme)
      then none
      else some (l.std.trim_space (drop (length scheme) auth))

  unfoldable pub proxied : Url → Request → Outgoing
  proxied target r = record {
    url = record (l.set_url target r) { path = r.path };
    header = delete (text "Authorization") r.header;
  }

  unfoldable pub serve : Option Url → Request → Answer
  serve none r = refuses 502
  serve (some target) r = if is_empty target.host then refuses 502 else forwards (proxied target r)

  unfoldable pub authorized : Option Text → KeyStore → Bool
  authorized none keys = false
  authorized (some presented) keys = verify l.std presented keys

  unfoldable pub handler : Surroundings → KeyStore → Request → Answer
  handler s keys r =
      if not s.openai_enabled || (not s.compute || not s.is_running)
      then refuses 404
      else if not (authorized (bearer_token r) keys)
      then refuses 401
      else serve (l.parse_url s.ollama_host) r

  -- The answers while the surface is on, and off, after a key is revoked: the requests that present a
  -- secret with this key's hash are refused, and all others are answered as before. No two keys have
  -- the same hash, and the revocation is saved.
  pub revoke-handler :
      (s : Surroundings) (keys : KeyStore) (id : Text) (k : Key) (r : Request) (presented : Text)
      → find_id id keys.keys ≡ some k
      → HasDistinctHashes keys.keys
      → bearer_token r ≡ some presented
      → handler s (revoke id none keys).0 r ≡ (
          if text_eq (hash l.std presented) k.sha256
          then (if is_enabled s && s.is_running then refuses 401 else refuses 404)
          else handler s keys r)
  unfolding handler authorized is_enabled
  revoke-handler s keys id k r presented e d b =
      rw (b, handler)
        (rw (verify-revoke l.std id presented keys k e d) (
          answers s.openai_enabled s.compute s.is_running (verify l.std presented keys)
            (text_eq (hash l.std presented) k.sha256) (serve (l.parse_url s.ollama_host) r)))

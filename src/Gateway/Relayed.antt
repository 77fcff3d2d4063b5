-- ===== src/Gateway/Relayed.antt =====
-- What leaves the node through the relay.
use onesilo_node.Base.{
  ℕ, ◌≡◌, refl, sym, ◌∙◌, arith, Bool, true, false, not, ◌||◌, List, [], ◌∷◌, ◌++◌, Option, none,
  some, Text, text, text_eq, text_eq_iff, text_eq_refl, is_empty, starts_with, if◌then◌else◌, All,
}
use onesilo_node.Base.Assoc.{lookup, insert, delete, lookup-insert, lookup-delete}
use onesilo_node.Base.Strings.{trim_right}
use onesilo_node.Pairing.Responder.Steps.{if_false}
use onesilo_node.Http.{
  Header, Request, Url, Outgoing, Answer, refuses, forwards, get_header, node_key_header,
  delete_all, constant_time_equal, require_node_key,
}
use onesilo_node.Gateway.{
  route_prefix, stripped_relay_headers, allowed_path, allowed_method, cut_prefix, Surroundings,
  rewrite, target_of, relay, with_token, with_rest, inner, handler,
}

-- A header that the relay takes out of a request.
abbrev pub IsStripped : Header → Type 0
IsStripped h = All (λ name. lookup name h ≡ none) (node_key_header ∷ stripped_relay_headers)

-- A request that the relay may forward, and what it makes of it.
pub record IsRelayed (sum256 : Text → Text) (parse_url : Text → Option Url) (s : Surroundings)
    (r : Request) (out : Outgoing) : Type 0 where
  pub running : s.is_running ≡ true
  pub keyed : is_empty s.node_key ≡ false
  pub presented : sum256 s.node_key ≡ sum256 (get_header node_key_header r.header)
  pub method : allowed_method r.method ≡ true
  pub rest : Text
  pub path : cut_prefix r.path route_prefix ≡ some rest
  pub allowed : allowed_path rest ≡ true
  pub base : Url
  pub configured : parse_url (trim_right 47 s.control_plane_url) ≡ some base
  pub token : Text
  pub has_token : s.token ≡ some token
  pub url : out.url ≡ record base { path = base.path ++ rest; raw_query = r.raw_query }
  pub authorized : lookup (text "Authorization") out.header ≡ some (text "Bearer " ++ token)
  pub stripped : IsStripped out.header

lookup-delete_all-IsNone :
    (names : List Text) (j : Text) (h : Header)
    → lookup j h ≡ none
    → lookup j (delete_all names h) ≡ none
unfolding delete_all
lookup-delete_all-IsNone [] j h e = e
lookup-delete_all-IsNone (n ∷ names) j h e =
    lookup-delete_all-IsNone names j (delete n h) (rw (lookup-delete n j h) (ground (arith, e)))

lookup-delete_same : (n : Text) (h : Header) → lookup n (delete n h) ≡ none
lookup-delete_same n h = rw (lookup-delete n n h) (rw (text_eq_refl n) refl)

lookup-delete_all :
    (names : List Text) (h : Header) → All (λ n. lookup n (delete_all names h) ≡ none) names
unfolding delete_all
lookup-delete_all [] h = tt
lookup-delete_all (n ∷ names) h = (
  lookup-delete_all-IsNone names n (delete n h) (lookup-delete_same n h),
  lookup-delete_all names (delete n h),
)

-- The two headers that the relay sets are none of those that it takes out.
untouched :
    (name a t : Text) (h : Header)
    → text_eq (text "User-Agent") name ≡ false
    → text_eq (text "Authorization") name ≡ false
    → lookup name h ≡ none
    → lookup name (insert (text "User-Agent") a (insert (text "Authorization") t h)) ≡ none
untouched name a t h e f g =
    lookup-insert (text "User-Agent") name a (insert (text "Authorization") t h)
    ∙ if_false (text_eq (text "User-Agent") name) _ _ e
    ∙ lookup-insert (text "Authorization") name t h
    ∙ if_false (text_eq (text "Authorization") name) _ _ f
    ∙ g

rewrite-IsStripped :
    (s : Surroundings) (token : Text) (u : Url) (h : Header)
    → IsStripped (rewrite s token u h).header
unfolding rewrite text_eq
rewrite-IsStripped s token u h =
    let m = delete node_key_header h in
    let (a, (b, (c, (d, (e, (f, x)))))) = lookup-delete_all stripped_relay_headers m in
    let k =
      lookup-delete_all-IsNone stripped_relay_headers node_key_header m
        (lookup-delete_same node_key_header h) in
    let go : (name : Text) → _ = λ name.
      untouched name s.user_agent (text "Bearer " ++ token) (delete_all stripped_relay_headers m) in
    (
      go _ refl refl k,
      (
        go _ refl refl a,
        (
          go _ refl refl b,
          (go _ refl refl c, (go _ refl refl d, (go _ refl refl e, (go _ refl refl f, tt)))),
        ),
      ),
    )

rewrite-authorized :
    (s : Surroundings) (token : Text) (u : Url) (h : Header)
    → lookup (text "Authorization") (rewrite s token u h).header ≡ some (text "Bearer " ++ token)
unfolding rewrite text_eq
rewrite-authorized s token u h =
    lookup-insert (text "User-Agent") (text "Authorization") s.user_agent _
    ∙ lookup-insert (text "Authorization") (text "Authorization") (text "Bearer " ++ token) _

-- A gate that something passes is open.
gate :
    (b : Bool) (status : ℕ) (a : Answer) {out : Outgoing}
    → (if b then refuses status else a) ≡ forwards out
    → (b ≡ false) × (a ≡ forwards out)
gate true status a e = absurd (cc)
gate false status a e = (refl, e)

forwards-injective : {a b : Outgoing} → forwards a ≡ forwards b → a ≡ b
forwards-injective e = cc

target :
    (s : Surroundings) (token : Text) (base : Url) (rest : Text) (r : Request)
    → (rewrite s token (target_of base rest r) r.header).url
      ≡ record base { path = base.path ++ rest; raw_query = r.raw_query }
unfolding rewrite target_of
target s token base rest r = refl

open_of : (b : Bool) → not b ≡ false → b ≡ true
open_of true h = refl
open_of false h = absurd (cc)

either_of : (a b : Bool) → (a || b) ≡ false → (a ≡ false) × (b ≡ false)
either_of false b h = (refl, h)
either_of true b h = absurd (cc)

-- What the last two steps of the handler leave: the target, the token and the headers.
record IsAimed (parse_url : Text → Option Url) (s : Surroundings) (rest : Text) (r : Request)
    (out : Outgoing) : Type 0 where
  base : Url
  configured : parse_url (trim_right 47 s.control_plane_url) ≡ some base
  token : Text
  has_token : s.token ≡ some token
  sent : out ≡ rewrite s token (target_of base rest r) r.header

module _ (parse_url : Text → Option Url) (s : Surroundings) (r : Request) where
  relay-IsAimed :
      (rest : Text) (o : Option Url) (token : Text) {out : Outgoing}
      → parse_url (trim_right 47 s.control_plane_url) ≡ o
      → s.token ≡ some token
      → relay s o token rest r ≡ forwards out
      → IsAimed parse_url s rest r out
  unfolding relay
  relay-IsAimed rest none token p t e = absurd (cc)
  relay-IsAimed rest (some base) token p t e =
      let (g, f) = gate (is_empty base.scheme || is_empty base.host) 502 _ e in
      record {
        base = base;
        configured = p;
        token = token;
        has_token = t;
        sent = forwards-injective (sym f);
      }

  with_token-IsAimed :
      (rest : Text) (o : Option Text) {out : Outgoing}
      → s.token ≡ o
      → with_token s parse_url o rest r ≡ forwards out
      → IsAimed parse_url s rest r out
  unfolding with_token
  with_token-IsAimed rest none t e = absurd (cc)
  with_token-IsAimed rest (some token) t e = relay-IsAimed rest _ token refl t e

  with_rest-IsAimed :
      (o : Option Text) {out : Outgoing}
      → with_rest s parse_url o r ≡ forwards out
      → (rest : Text) × (o ≡ some rest)
        × (allowed_path rest ≡ true)
        × IsAimed parse_url s rest r out
  unfolding with_rest
  with_rest-IsAimed none e = absurd (cc)
  with_rest-IsAimed (some rest) e =
      let (g, f) = gate (is_empty rest || not (starts_with rest (text "/"))) 404 _ e in
      let (a, d) = gate (not (allowed_path rest)) 403 _ f in
      (rest, refl, open_of (allowed_path rest) a, with_token-IsAimed rest s.token refl d)

-- What the relay forwards came with the node's key, while the relay runs, with an allowed method and
-- a path below the prefix and on the allowlist; it goes to this path of the configured control plane,
-- with the query it came with, under the node's own token, and without the node's key, cookies and
-- the headers that tell where a request comes from.
pub handler-IsRelayed :
    (sum256 : Text → Text) (parse_url : Text → Option Url) (s : Surroundings) (r : Request)
    (out : Outgoing)
    → handler s parse_url sum256 r ≡ forwards out
    → IsRelayed sum256 parse_url s r out
unfolding handler require_node_key constant_time_equal inner
handler-IsRelayed sum256 parse_url s r out e =
    let got = get_header node_key_header r.header in
    let (k, e₁) = gate _ 401 _ e in
    let (keyed, l) =
      either_of (is_empty s.node_key || is_empty got)
        (not (text_eq (sum256 s.node_key) (sum256 got))) k in
    let (running, e₂) = gate (not s.is_running) 503 _ e₁ in
    let (method, e₃) = gate (not (allowed_method r.method)) 405 _ e₂ in
    let (rest, path, allowed, aim) = with_rest-IsAimed parse_url s r _ e₃ in
    record {
      running = open_of s.is_running running;
      keyed = (either_of (is_empty s.node_key) (is_empty got) keyed).0;
      presented = (text_eq_iff (sum256 s.node_key) (sum256 got)).0 (open_of _ l);
      method = open_of (allowed_method r.method) method;
      rest = rest;
      path = path;
      allowed = allowed;
      base = aim.base;
      configured = aim.configured;
      token = aim.token;
      has_token = aim.has_token;
      url = rw aim.sent (target s aim.token aim.base rest r);
      authorized =
          rw aim.sent (rewrite-authorized s aim.token (target_of aim.base rest r) r.header);
      stripped = rw aim.sent (rewrite-IsStripped s aim.token (target_of aim.base rest r) r.header);
    }

-- ===== src/Http.antt =====
-- What the handlers see of net/http, and RequireNodeKey of internal/memory/api.go, which guards the
-- memory API and the relay.
use onesilo_node.Base.{
  ℕ, Bool, not, ◌||◌, List, [], ◌∷◌, none, some, Text, text, text_eq, is_empty, if◌then◌else◌,
}
use onesilo_node.Base.Assoc.{lookup, delete}

-- The headers by their canonical names, each with its first value.
abbrev pub Header : Type 0
Header = List (Text × Text)

pub record Request : Type 0 where
  pub method : Text
  pub path : Text
  pub raw_query : Text
  pub header : Header

-- The URL and the headers of a request that goes out.
pub record Url : Type 0 where
  pub scheme : Text
  pub host : Text
  pub path : Text
  pub raw_query : Text

pub record Outgoing : Type 0 where
  pub url : Url
  pub header : Header

-- A refusal has a status; what is forwarded is answered by the other side.
pub data Answer : Type 0 where
  refuses : (status : ℕ) → Answer
  forwards : Outgoing → Answer

-- Get, which is empty for a header that is absent.
unfoldable pub get_header : Text → Header → Text
get_header name h = elim (lookup name h) [ some v ↦ v | none ↦ [] ]

unfoldable pub delete_all : List Text → Header → Header
delete_all [] h = h
delete_all (name ∷ names) h = delete_all names (delete name h)

abbrev pub node_key_header : Text
node_key_header = text "X-Silo-Node-Key"

module _ (sum256 : Text → Text) where
  unfoldable pub constant_time_equal : Text → Text → Bool
  constant_time_equal a b = text_eq (sum256 a) (sum256 b)

  -- The key is read anew for every request.
  unfoldable pub require_node_key : (node_key : Text) → (Request → Answer) → Request → Answer
  require_node_key want next r =
      let got = get_header node_key_header r.header in
      if is_empty want || is_empty got || not (constant_time_equal want got)
      then refuses 401
      else next r

-- ===== src/Gateway/Tests.antt =====
-- A request that the relay forwards.
use onesilo_node.Base.{refl, true, [], ◌∷◌, Option, some, Text, text, text_eq, starts_with}
use onesilo_node.Base.Assoc.{lookup, delete, insert}
use onesilo_node.Base.Strings.{trim_right}
use onesilo_node.Http.{
  Request, Url, get_header, delete_all, node_key_header, constant_time_equal, require_node_key,
}
use onesilo_node.Gateway.{
  Surroundings, allowed_path, is_one_of, allowed_method, cut_prefix, rewrite, target_of, relay,
  with_token, with_rest, inner, handler,
}
use onesilo_node.Gateway.Relayed.{IsRelayed, handler-IsRelayed}

abbrev surroundings : Surroundings
surroundings = record {
  is_running = true;
  token = some (text "jwt");
  control_plane_url = text "cloud/";
  node_key = text "key";
  user_agent = text "onesilo-node";
}

abbrev parse : Text → Option Url
parse s = some (record { scheme = text "https"; host = s; path = text "/base"; raw_query = [] })

abbrev request : Request
request = record {
  method = text "GET";
  path = text "/v1/cloud/api/x";
  raw_query = text "q=1";
  header = (node_key_header, text "key") ∷ (text "Cookie", text "c") ∷ [];
}

abbrev target : Url
target = record {
  scheme = text "https";
  host = text "cloud";
  path = text "/base/api/x";
  raw_query = text "q=1";
}

handler-IsRelayed_example :
    IsRelayed
      (λ s. s)
      parse
      surroundings
      request
      (record {
        url = target;
        header =
            (text "Authorization", text "Bearer jwt")
            ∷ (text "User-Agent", text "onesilo-node")
            ∷ [];
      })
unfolding handler inner with_rest with_token relay rewrite target_of allowed_path is_one_of
    allowed_method cut_prefix require_node_key constant_time_equal get_header delete_all lookup
    delete insert text_eq starts_with trim_right
handler-IsRelayed_example = handler-IsRelayed (λ s. s) parse surroundings request _ refl

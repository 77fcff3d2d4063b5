-- ===== src/Openai/Surface/Tests.antt =====
-- A request with the key that is revoked.
use onesilo_node.Base.{true, [], ◌∷◌, some, text, text_eq}
use onesilo_node.Http.{Request}
use onesilo_node.Openai.Keys.Tests.{plain}
use onesilo_node.Openai.Surface.{Surroundings, Library}

abbrev library : Library
library = record {
  std = plain;
  equal_fold = text_eq;
  parse_url = λ s. some (record { scheme = text "http"; host = s; path = []; raw_query = [] });
  set_url = λ target r. record target { raw_query = r.raw_query };
}

abbrev on : Surroundings
on = record {
  openai_enabled = true;
  compute = true;
  is_running = true;
  ollama_host = text "ollama";
}

abbrev request : Request
request = record {
  method = text "POST";
  path = text "/v1/models";
  raw_query = [];
  header = (text "Authorization", text "Bearer silo_sk_a") ∷ [];
}

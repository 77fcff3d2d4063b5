-- ===== src/Compute/Tests.antt =====
-- A server that is spawned and answers the third probe, and a missing preferred model.
use onesilo_node.Base.{◌≡◌, refl, true, false, [], ◌∷◌, none, some, text, text_eq, ◌==◌}
use onesilo_node.Base.Result.{ok}
use onesilo_node.Config.{Ollama}
use onesilo_node.Compute.{
  Machine, Manager, find_binary, find_on_path, first_executable, spawn_server, with_server,
  wait_ready, await_server, ensure_running, has_model, pick_model, resolve_model,
}

abbrev machine : Machine
machine = record {
  reachable = λ k. k == 3;
  gives_up = λ k. false;
  is_executable = λ p. text_eq p (text "/usr/local/bin/ollama");
  look_path = none;
  host_of = λ u. some u;
  spawn = λ b h. ok 42;
}

abbrev ollama : Ollama
ollama = record {
  host = text "127.0.0.1:11434";
  manage = true;
  default_model = text "llama3";
  binary_path = [];
}

abbrev idle : Manager
idle = record { cmd = none }

spawned : ensure_running machine ollama idle ≡ (record { cmd = some 42 }, ok tt)
unfolding ensure_running await_server with_server spawn_server find_binary find_on_path
    first_executable wait_ready text_eq
spawned = refl

serves_another : resolve_model (text "llama3") (ok (text "qwen" ∷ [])) ≡ ok (text "qwen")
unfolding resolve_model pick_model has_model text_eq
serves_another = refl

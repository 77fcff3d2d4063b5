-- ===== src/Controlplane/Client/Tests.antt =====
-- A server that knows no inference keys, and a node that publishes one.
use onesilo_node.Base.{◌≡◌, refl, true, [], ◌∷◌, some, text, is_empty, if◌then◌else◌, text_eq}
use onesilo_node.Base.Int.{pos}
use onesilo_node.Controlplane.Report.{
  RegisterRequest, RegisterResponse, Answer, accepted, refused, status, enabled_capability_ids,
  capability_status_keys,
}
use onesilo_node.Controlplane.Manager.{Manager, World, minted, new_manager, step, is_desired}
use onesilo_node.Controlplane.Manager.Actions.{has_commit}
use onesilo_node.Controlplane.Client.{client_register}
use onesilo_node.Controlplane.Client.Fallback.{commit_without_key}

abbrev response : RegisterResponse
response = record {
  device_id = text "d1";
  account_id = text "acct";
  heartbeat_interval_seconds = pos 30;
}

abbrev old_server : RegisterRequest → Answer RegisterResponse
old_server r = if is_empty r.inference_key then accepted response else refused (status 422)

abbrev publishing : World
publishing = record {
  device_name = text "mac";
  model_name = text "llama";
  identity_pub_key = text "key";
  capabilities = record { name = text "compute"; enabled = true; healthy = true } ∷ [];
  load_device_id = some (text "d1");
  mint = minted (text "silo_sk_x") true;
  register = old_server;
  heartbeat = λ d s. accepted tt;
  during = [];
}

abbrev waiting : Manager
waiting = record new_manager { device_id = text "d1"; tunnel_url = text "https://n" }

commit_without_key_example :
    has_commit (step (record publishing { register = client_register old_server }) waiting).1 ≡ true
unfolding new_manager is_desired enabled_capability_ids capability_status_keys text_eq
commit_without_key_example =
    commit_without_key publishing old_server waiting (text "silo_sk_x") response refl refl
      (λ r h. simp h) (λ r p h. simp h) refl refl refl refl

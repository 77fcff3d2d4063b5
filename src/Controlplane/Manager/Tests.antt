-- ===== src/Controlplane/Manager/Tests.antt =====
-- A manager that registers, is refused, and loses a token update.
use onesilo_node.Base.{
  ◌*◌, ◌≡◌, refl, subst, true, false, List, [], ◌∷◌, some, arith, text, text_eq,
}
use onesilo_node.Base.Int.{pos, negsuc, second, duration, wrap_int64}
use onesilo_node.Controlplane.Manager.Invariant.{
  IsConsistent, IsSound, IsShort, run_until_new-IsConsistent,
}
use onesilo_node.Controlplane.Manager.Actions.{IsCommitted, step-IsCommitted}
use onesilo_node.Controlplane.Manager.Recovery.{IsReady, IsQuiet, token_update_lost}
use onesilo_node.Controlplane.Report.{
  Probe, RegisterResponse, accepted, refused, status, enabled_capability_ids,
  capability_status_keys,
}
use onesilo_node.Controlplane.Manager.{
  Manager, World, Event, minted, wakes, calls, sets_url, updates_token, kicks, new_manager, step,
  run_until, is_desired, register, register_as, ensure_device_id, register_accepted, interval_of,
  register_answered, key_of,
}

abbrev probes : List Probe
probes =
    record { name = text "compute"; enabled = true; healthy = false }
    ∷ record { name = text "memory"; enabled = false; healthy = true }
    ∷ []

abbrev response : RegisterResponse
response = record {
  device_id = text "d1";
  account_id = text "acct";
  heartbeat_interval_seconds = pos 30;
}

-- A control plane that accepts.
abbrev willing : World
willing = record {
  device_name = text "mac";
  model_name = text "llama";
  identity_pub_key = text "key";
  capabilities = probes;
  load_device_id = some (text "d0");
  mint = minted (text "silo_sk_x") true;
  register = λ r. accepted response;
  heartbeat = λ d s. accepted tt;
  during = [];
}

-- One that rejects the token, while a fresh one comes in.
abbrev unwilling : World
unwilling = record willing { register = λ r. refused (status 401); during = updates_token ∷ [] }

abbrev exposed : Manager
exposed = record {
  device_id = text "d0";
  account_id = [];
  tunnel_url = text "https://a";
  registered = false;
  registered_url = [];
  auth_blocked = false;
  subscription_blocked = false;
  interval = pos (30 * second);
  kicked = false;
}

events : List Event
events = calls (sets_url (text "https://a")) ∷ wakes true willing ∷ wakes false willing ∷ []

accepted_injective : {a b : RegisterResponse} → accepted a ≡ accepted b → a ≡ b
accepted_injective e = cc

willing_sound : IsSound willing
willing_sound = record {
  named = λ id e. ground arith;
  short = λ req r e.
      subst (λ (r : RegisterResponse). IsShort r.heartbeat_interval_seconds) (accepted_injective e)
        (omega arith);
}

-- An interval that is a little too long for a time.Duration is negative.
too_long :
    (register_accepted
      (text "https://a")
      (text "d1")
      (record response { heartbeat_interval_seconds = pos 9223372037 })
      exposed).2
    ≡ negsuc 9223372036709551615
unfolding register_accepted interval_of duration wrap_int64 text_eq
too_long = refl

run_until_new-IsConsistent_example : IsConsistent (run_until events new_manager).0
unfolding events
run_until_new-IsConsistent_example =
    run_until_new-IsConsistent events (tt, (willing_sound, (willing_sound, tt)))

step-IsCommitted_example : IsCommitted willing (step willing exposed).1
unfolding step is_desired enabled_capability_ids capability_status_keys text_eq register register_as
    ensure_device_id register_answered key_of
step-IsCommitted_example = step-IsCommitted willing exposed refl

ready : (w : World) → is_desired w exposed ≡ true → IsReady w exposed
ready w h = record { desired = h; free = refl; stale = refl; known = refl }

token_update_lost_example :
    ((step unwilling exposed).0.auth_blocked ≡ true)
    × ((step unwilling exposed).0.kicked ≡ true)
    × ((run_until (wakes true willing ∷ calls kicks ∷ []) (step unwilling exposed).0).0.auth_blocked
        ≡ true)
    × IsQuiet (run_until (wakes true willing ∷ calls kicks ∷ []) (step unwilling exposed).0).1
unfolding is_desired enabled_capability_ids capability_status_keys text_eq
token_update_lost_example =
    token_update_lost unwilling exposed (status 401) (wakes true willing ∷ calls kicks ∷ [])
      (ready unwilling refl) refl refl refl (tt, (tt, tt))

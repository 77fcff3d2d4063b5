-- ===== src/Controlplane/Client/Fallback.antt =====
-- The retry of a registration, and the keys that are retired after it.
use onesilo_node.Base.{
  ◌≡◌, refl, ap, ◌∙◌, true, false, [], Option, none, some, arith, Text, is_empty,
}
use onesilo_node.Controlplane.Report.{
  RegisterRequest, RegisterResponse, Answer, accepted, refused, status, enabled_capability_ids,
}
use onesilo_node.Controlplane.Manager.{
  Manager, World, minted, key_of, ensure_device_id, register_answered, register_as, register,
  request_of, is_desired, step, call_all,
}
use onesilo_node.Controlplane.Manager.Actions.{has_commit, is_stale, step-register}
use onesilo_node.Controlplane.Client.{retry_register, client_register}

-- A request with a key that the server rejects as unknown is sent again without it.
client_register-stripped :
    (send : RegisterRequest → Answer RegisterResponse) (req : RegisterRequest)
    (resp : RegisterResponse)
    → is_empty req.inference_key ≡ false
    → send req ≡ refused (status 422)
    → send (record req { capabilities_status = none; inference_key = [] }) ≡ accepted resp
    → client_register send req ≡ accepted resp
unfolding client_register retry_register
client_register-stripped send req resp k e f = ap (retry_register send req) e ∙ again
  where
    again : retry_register send req (refused (status 422)) ≡ accepted resp
    again = ground arith

key_of-minted : (key : Text) → is_empty key ≡ false → key_of (minted key true) ≡ (key, true)
unfolding key_of
key_of-minted key k = simp k

ensure_device_id-known :
    (loaded : Option Text) (m : Manager)
    → is_empty m.device_id ≡ false
    → ensure_device_id loaded m ≡ (m, some m.device_id)
unfolding ensure_device_id
ensure_device_id-known loaded m k = simp k

-- A server that takes no request with a key, but takes every one without a key and without statuses:
-- the manager still retires the earlier keys of the control plane, although no request that was
-- accepted carried the new one. The manager wants to register and has a device id, and the minted key
-- is not empty.
pub commit_without_key :
    (w : World) (send : RegisterRequest → Answer RegisterResponse) (m : Manager) (key : Text)
    (resp : RegisterResponse)
    → w.mint ≡ minted key true
    → is_empty key ≡ false
    → ((r : RegisterRequest) → is_empty r.inference_key ≡ false → send r ≡ refused (status 422))
    → ((r : RegisterRequest)
        → r.capabilities_status ≡ none
        → is_empty r.inference_key ≡ true
        → send r ≡ accepted resp)
    → is_desired w m ≡ true
    → m.auth_blocked ≡ false
    → is_stale m ≡ true
    → is_empty m.device_id ≡ false
    → has_commit (step (record w { register = client_register send }) m).1 ≡ true
unfolding is_desired register register_as request_of register_answered
commit_without_key w send m key resp g k without plain on free down id =
    let w' : World = record w { register = client_register send } in
    let ids = enabled_capability_ids w.capabilities in
    let req = request_of w' m.tunnel_url ids m.device_id in
    let n = call_all w.during m in
    let full : is_empty req.inference_key ≡ false =
      ap (λ o. is_empty (key_of o).0) g ∙ ap (λ z. is_empty z.0) (key_of-minted key k) ∙ k in
    let committed : (key_of w.mint).1 ≡ true =
      ap (λ o. (key_of o).1) g ∙ ap (λ z. z.1) (key_of-minted key k) in
    let taken =
      client_register-stripped send req resp full (without req full) (plain _ refl refl) in
    ap (λ z. has_commit z.1) (step-register w' m on free down)
    ∙ ap (λ z. has_commit (register_as w' m.tunnel_url ids z.0 z.1).1)
        (ensure_device_id-known w.load_device_id m id)
    ∙ ap (λ c. has_commit (register_answered req c (client_register send req) n).1) committed
    ∙ ap (λ a. has_commit (register_answered req true a n).1) taken

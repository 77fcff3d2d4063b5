-- ===== src/Lib.antt =====
-- A verification of onesilo-node, the node of the One Silo network: the parts of internal/ that
-- decide who is trusted, which keys are valid and what is recorded.
--
-- Strings and byte slices of Go are lists of bytes (Base.Bytes), maps are association lists
-- (Base.Assoc). Methods run under their object's mutex, so a call is one step from an object's
-- state to the next, and an interleaving of goroutines is an order of calls. What the standard
-- library does (hashing, encoding, random bytes, the clock, the file system) enters as an
-- argument of the definitions: a draw of random bytes, the outcome of a write.
--
-- Which file models which part:
--
-- * Pairing.PinStore (internal/pairing/pinstore.go): the registry of app keys; observe, verify,
--   is_verified and load_pin_store are Observe, Verify, IsVerified and LoadPinStore. Children:
--   Invariant, Trust, Effects, Reload.
-- * Logging.Recorder (internal/logging/recorder.go): the ring of log records and the subscribers'
--   channels; write, backlog, subscribe, cancel and send are the methods of that name. Children:
--   Ring, Stream.
-- * Controlplane.Report (internal/controlplane/client.go, heartbeat.go): what a registration and
--   a heartbeat tell of the node, and the answers. Child: Statuses.
-- * Controlplane.Manager (internal/controlplane/heartbeat.go): the register, heartbeat and delete
--   lifecycle; step, register, heartbeat and deregister are the methods of that name, with the
--   control plane's answers and the calls of other goroutines during a request as arguments.
--   Children: Invariant, Actions, Recovery.
-- * Controlplane.Client (internal/controlplane/client.go): client_register and client_heartbeat
--   are the retries of Client.Register and Client.Heartbeat. Child: Fallback.
-- * Controlplane.Oauth (internal/controlplane/oauth.go, auth.go): token, invalidate and
--   refresh_grant are Token and Invalidate of OAuthTokenSource and refreshGrant; modal_token is
--   Token of ModalTokenSource. Children: Synced, Unsaved.
-- * Pairing.Jwks (internal/pairing/jwks.go): the critical sections of Keys, KeysForKid and
--   refresh of HTTPKeySource as events; what the cache gives is what Pairing.Assertion takes as
--   its KeySource. Children: Shared, Fetched.
-- * Pairing.Crypto (internal/pairing/crypto.go): the transcript, the key derivation and the
--   confirmation tags over parameters for the primitives. Child: Framing.
-- * Pairing.Assertion (internal/pairing/verify.go): verify is AssertionVerifier.Verify, over a
--   key source with a state of its own, and parse_jwks is ParseJWKS. Children: Stages, Accepted,
--   Jwks.
-- * Pairing.Responder (internal/pairing/handshake.go): hello and confirm are Responder.Hello and
--   Responder.Confirm; they use Pairing.Assertion and Pairing.Crypto. Children: Steps, Order,
--   Protocol, Agreement, Answer.
-- * Config (internal/config/config.go): the configuration; validate and require_secure_url are
--   Config.Validate and requireSecureURL. Config.Load (internal/config/load.go): load is Load,
--   and settings is Settings. Children: Safe, Load.
-- * Lan (internal/lanserve/messages.go, pairing.go, router.go, envelope.go): the connection of a
--   device on the local network. Lan.Gate has handle_hello, handle_confirm, inference_allowed and
--   verify_pairing, which are Router.handleHello, Router.handleConfirm,
--   Router.sessionInferenceAllowed and Pairer.Verify; Lan.Router has handle, which is
--   Router.Handle; Lan.Generation has generate; Lan.Envelope the sealing and the key file.
--   Lan.Life interleaves a connection's frames with the calls of other connections and of the
--   operator. They use Pairing.Responder and Pairing.PinStore.
-- * Tunnel (internal/tunnel/managed.go, cloudflared.go): the cloudflared process. Tunnel.Loop has
--   round and run_loop, a pass of ManagedManager.runLoop and the loop, and the same for
--   Manager.runLoop; Tunnel.Scan has write, which is Write of readyScanWriter and urlScanWriter.
--   The loop over the lines of a buffer runs on fuel for every byte, which is enough. Children:
--   Loop.Bounds, Loop.Urls, Loop.Quick, Scan.Chunks.
-- * Gateway (internal/gateway/gateway.go): handler is Capability.Handler, the relay to the
--   control plane. Child: Relayed. Http has RequireNodeKey of internal/memory/api.go and what the
--   handlers see of net/http.
-- * Openai.Surface (internal/openaiapi/capability.go): handler is Capability.Handler, the gates
--   before the local model's server.
-- * Memory (internal/memory/store.go, cipher_aead.go): Memory.Vectors has encode_vector and
--   decode_vector, Memory.Query has fts_match_expr, Memory.Store has the tables with Insert, Get,
--   List, Delete, Silos, PutEmbedding and EmbeddingsBySilo of Store, Memory.Calls has Remember
--   and Forget of Capability (capability.go), in the steps between which other calls can come,
--   Memory.Scores and Memory.Recall (recall.go) have vectorSearch, fuseScores and cosine, and
--   recall with KeywordSearch, and Memory.Cipher has seal_blob, open_blob and
--   load_or_create_memory_key, which are Seal and Open of aeadCipher and loadOrCreateMemoryKey.
-- * Lan.Server (internal/lanserve/server.go, capability.go, bonjour.go): arrive, refuse, give_up,
--   connect and release_slot are what handleWebSocket does to the counter of the clients,
--   reconcile_bonjour is reconcileBonjourLocked. Children: Bound, Announced.
-- * Adminapi (internal/adminapi/server.go, auth.go, handlers.go): serve is the server of New,
--   with the routes of newMux and the guards require_loopback_host and require_admin_token.
--   Child: Guarded.
-- * Compute (internal/compute/ollama/manager.go, internal/compute/capability.go): ensure_running
--   is EnsureRunning with its 20 rounds of probes, exits the goroutine that waits for the
--   process, resolve_model is ResolveRunnableModel, and start, stop_capability, healthy and
--   stream_model are the capability's. Children: Ready, Served.
-- * Node (internal/node/node.go, internal/adminapi/handlers.go): reconcile is Node.Reconcile,
--   with the Manager of Controlplane.Manager as its registration manager and the Config of
--   Config; Node.Patch has ConfigPatch.ApplyTo and Node.ApplyConfigPatch. Children: Settled,
--   Reconciled, Tunnels, Elsewhere, Applied, Untouched, Quiet, Patch, Locked.
-- * Openai.Keys (internal/openaiapi/keys.go, internal/node/inference_key.go): the API keys; mint,
--   revoke, verify, mint_for_control_plane, revoke_all and the provider with its commit function.
--   Children: Disk, Access, Rotation, Retire.
--
-- Not modelled: HTTP handlers, process handling, the terminal panel, SQLite and the cryptographic
-- primitives; numbers that cannot overflow in practice (lengths, counts of keys) are unbounded,
-- and sequence numbers of the log wrap at 2^64, and the products with time.Second of the
-- registration manager and of the sign-in wrap as an int64 (Base.Int). Only the loop over the
-- lines of the tunnel's output runs on fuel; every other loop goes over a list or counts down.
pub mod Adminapi
pub mod Base
pub mod Compute
pub mod Config
pub mod Controlplane
pub mod Gateway
pub mod Http
pub mod Lan
pub mod Logging
pub mod Memory
pub mod Node
pub mod Openai
pub mod Pairing
pub mod Tunnel

-- ===== src/Compute.antt =====
-- internal/compute/ollama/manager.go and internal/compute/capability.go: the Ollama server that the
-- node connects to or runs, and the model that it serves. Ollama's answers, the processes and the file
-- system are parameters.
pub mod Ready
pub mod Served
mod Tests
use onesilo_node.Base.{
  ℕ, zero, suc, ◌+◌, Bool, true, false, not, ◌||◌, List, [], ◌∷◌, Option, none, some, Text, text,
  text_eq, is_empty, ◌==◌, if◌then◌else◌,
}
use onesilo_node.Base.Result.{Result, ok, err, ◌>>=◌, of_option}
use onesilo_node.Config.{Ollama}

pub data ComputeError : Type 0 where
  not_reachable not_ready cancelled no_binary no_models not_started : ComputeError
  not_executable bad_host not_spawned not_listed not_streamed : Text → ComputeError

-- What one call meets: the answer to each probe of the server and whether the context ends in the wait
-- after it, both numbered from the call's start; the executables; and the process that is spawned.
pub record Machine : Type 0 where
  pub reachable : ℕ → Bool
  pub gives_up : ℕ → Bool
  pub is_executable : Text → Bool
  pub look_path : Option Text
  pub host_of : Text → Option Text
  pub spawn : (binary host_port : Text) → Result Text ℕ

abbrev pub binary_candidates : List Text
binary_candidates = text "/opt/homebrew/bin/ollama" ∷ text "/usr/local/bin/ollama" ∷ []

-- The process that was spawned, if it has not exited.
pub record Manager : Type 0 where
  pub cmd : Option ℕ

module _ (w : Machine) where
  unfoldable pub first_executable : List Text → Result ComputeError Text
  first_executable [] = err no_binary
  first_executable (c ∷ cs) = if w.is_executable c then ok c else first_executable cs

  unfoldable pub find_on_path : Option Text → Result ComputeError Text
  find_on_path (some p) = ok p
  find_on_path none = first_executable binary_candidates

  unfoldable pub find_binary : (configured : Text) → Result ComputeError Text
  find_binary configured =
      if not (is_empty configured)
      then (if w.is_executable configured then ok configured else err (not_executable configured))
      else find_on_path w.look_path

  abbrev pub of_spawn : Result Text ℕ → Result ComputeError ℕ
  of_spawn (ok pid) = ok pid
  of_spawn (err e) = err (not_spawned e)

  unfoldable pub spawn_server : Ollama → Result ComputeError ℕ
  spawn_server o = do
    binary ← find_binary o.binary_path
    host_port ← of_option (bad_host o.host) (w.host_of o.host)
    of_spawn (w.spawn binary host_port)

  -- A second process is not spawned beside one that runs.
  unfoldable pub with_server : Ollama → Option ℕ → Result ComputeError ℕ
  with_server o (some pid) = ok pid
  with_server o none = spawn_server o

  -- The loop, with the rounds that are left; `k` is the number of the next probe.
  unfoldable pub wait_ready : (rounds k : ℕ) → Result ComputeError (Unit {0})
  wait_ready zero k = err not_ready
  wait_ready (suc n) k =
      let rest = wait_ready n (suc k) in
      if w.reachable k then ok tt else if w.gives_up k then err cancelled else rest

  unfoldable pub await_server :
      Result ComputeError ℕ → Manager → Manager × Result ComputeError (Unit {0})
  await_server (err e) m = (m, err e)
  await_server (ok pid) m = (record m { cmd = some pid }, wait_ready 20 1)

  unfoldable pub ensure_running : Ollama → Manager → Manager × Result ComputeError (Unit {0})
  ensure_running o m =
      if w.reachable 0
      then (m, ok tt)
      else if not o.manage
      then (m, err not_reachable)
      else await_server (with_server o m.cmd) m

-- The process that is told to end.
unfoldable pub stop : Manager → Manager × Option ℕ
stop m = (record m { cmd = none }, m.cmd)

-- The goroutine that waits for a process: the process has exited; another one may have taken its place.
unfoldable pub forget_cmd : (pid : ℕ) → Option ℕ → Option ℕ
forget_cmd pid none = none
forget_cmd pid (some q) = if q == pid then none else some q

unfoldable pub exits : (pid : ℕ) → Manager → Manager
exits pid m = record m { cmd = forget_cmd pid m.cmd }

unfoldable pub has_model : Text → List Text → Bool
has_model m [] = false
has_model m (x ∷ xs) = text_eq x m || has_model m xs

unfoldable pub pick_model : (preferred : Text) → List Text → Result ComputeError Text
pick_model preferred [] = err no_models
pick_model preferred (x ∷ xs) = if has_model preferred (x ∷ xs) then ok preferred else ok x

-- ResolveRunnableModel, of the installed models or the error of listing them.
unfoldable pub resolve_model :
    (preferred : Text) → Result Text (List Text) → Result ComputeError Text
resolve_model preferred (err e) = err (not_listed e)
resolve_model preferred (ok models) = pick_model preferred models

pub record Capability : Type 0 where
  pub manager : Manager
  pub started : Bool
  pub current_model : Text

abbrev pub model_or_none : Result ComputeError Text → Text
model_or_none (ok m) = m
model_or_none (err e) = []

-- `Start` after EnsureRunning.
unfoldable pub after_ensure :
    Result ComputeError Text
    → Manager × Result ComputeError (Unit {0})
    → Capability
    → Capability × Result ComputeError (Unit {0})
after_ensure model (m, err e) c = (record c { manager = m }, err e)
after_ensure model (m, ok u) c =
    (record { manager = m; started = true; current_model = model_or_none model }, ok tt)

unfoldable pub start :
    Machine
    → Ollama
    → Result Text (List Text)
    → Capability
    → Capability × Result ComputeError (Unit {0})
start w o models c =
    after_ensure (resolve_model o.default_model models) (ensure_running w o c.manager) c

unfoldable pub stop_capability : Capability → Capability
stop_capability c = record { manager = (stop c.manager).0; started = false; current_model = [] }

unfoldable pub with_model : Capability → Result ComputeError Text → Capability × Bool
with_model c (err e) = (c, false)
with_model c (ok m) = (record c { current_model = m }, true)

-- `Healthy`, with the answer to its one probe and without the text it reports.
unfoldable pub healthy :
    (reachable : Bool) → Ollama → Result Text (List Text) → Capability → Capability × Bool
healthy reachable o models c =
    if not c.started || not reachable
    then (c, false)
    else with_model c (resolve_model o.default_model models)

-- The model that a stream runs on, and the state after it was resolved.
unfoldable pub resolved :
    Capability → Result ComputeError Text → Capability × Result ComputeError Text
resolved c (err e) = (c, err e)
resolved c (ok m) = (record c { current_model = m }, ok m)

unfoldable pub stream_model :
    Ollama → Result Text (List Text) → Capability → Capability × Result ComputeError Text
stream_model o models c =
    if not c.started
    then (c, err not_started)
    else if is_empty c.current_model
    then resolved c (resolve_model o.default_model models)
    else (c, ok c.current_model)

-- ===== src/Tests/Instances.antt =====
-- Instances and the log store at concrete inputs.
use mathlib.Core.List.{zip}
use o2ul_portal.Common.{ℕ, ◌≤◌, ◌≡◌, refl, some, [], ◌∷◌, map, Result, ok, length, arith, lookup}
use o2ul_portal.Orchestrator.{Instance, Moment}
use o2ul_portal.Orchestrator.Commands.{systemd_backend, docker_backend, kubernetes_backend}
use o2ul_portal.Orchestrator.Table.{IsBackend, find_instance, command_backends-IsBackend}
use o2ul_portal.Orchestrator.LocalExec.{
  LocalState, new_local, local_instance, spawn_local, list_local,
}
use o2ul_portal.Orchestrator.LocalExec.Steps.{
  World, spawned, Reach, start, next, start_world, IsConsistent, Reach-IsConsistent,
}
use o2ul_portal.Orchestrator.LocalExec.Settles.{Exits, Reach-settles}
use o2ul_portal.Http.Instances.{
  Raw, LogStore, empty_store, max_logs, newest, extract_log_timestamp, select_logs,
}
use o2ul_portal.Http.Instances.Logs.{ingest_all, ingest_all-newest}
use o2ul_portal.Http.Instances.Limit.{select_logs-limit}

command_backends-IsBackend_example :
    IsBackend systemd_backend find_instance
    × IsBackend docker_backend find_instance
    × IsBackend (kubernetes_backend "default") find_instance
command_backends-IsBackend_example = command_backends-IsBackend "default"

abbrev moment : Moment
moment = record {
  uuid = "i-1";
  name_uuid = "n-1";
  now = 7;
  run = λ line. ok "";
  start = λ command args. ok 42;
  kill = λ pid. ok tt;
}

abbrev spawned_local : Result Instance × LocalState
spawned_local = spawn_local moment "api" "go" [] new_local

abbrev running : World
running = record { local = spawned_local.1; waiting = "i-1" ∷ []; killing = [] }

spawns :
    spawn_local moment "api" "go" [] new_local
    ≡ (ok (local_instance moment "api" "go" [] 42), spawned_local.1)
unfolding spawn_local
spawns = refl

running-Reach : Reach running
unfolding new_local lookup
running-Reach = next start (
    spawned start_world moment "api" "go" [] (local_instance moment "api" "go" [] 42)
      spawned_local.1 (refl, refl) spawns)

Reach-IsConsistent_example : IsConsistent running
Reach-IsConsistent_example = Reach-IsConsistent running-Reach

Reach-settles_example :
    (v : World) × Exits running v × (v.waiting ≡ []) × (list_local v.local ≡ ok [])
Reach-settles_example = Reach-settles running-Reach

abbrev time_of : Raw → Result ℕ
time_of raw = ok (length ("x" ∷ raw ∷ []))

ingest_all-newest_example :
    ((ingest_all time_of ("a" ∷ "b" ∷ []) empty_store).logs ≡ newest max_logs ("a" ∷ "b" ∷ []))
    × ((ingest_all time_of ("a" ∷ "b" ∷ []) empty_store).log_times
        ≡ newest max_logs (map (extract_log_timestamp time_of) ("a" ∷ "b" ∷ [])))
    × (length (ingest_all time_of ("a" ∷ "b" ∷ []) empty_store).logs ≤ max_logs)
ingest_all-newest_example = ingest_all-newest time_of ("a" ∷ "b" ∷ [])

abbrev store : LogStore
store = record { logs = "a" ∷ "b" ∷ "c" ∷ "d" ∷ []; log_times = 5 ∷ 1 ∷ 0 ∷ 6 ∷ [] }

selects : select_logs store (some 4) 2 ≡ "c" ∷ "d" ∷ []
unfolding select_logs zip
selects = refl

select_logs-limit_example : select_logs store (some 4) 2 ≡ newest 2 (select_logs store (some 4) 0)
select_logs-limit_example = select_logs-limit store (some 4) 2 (omega arith)

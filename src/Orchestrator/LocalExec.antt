-- ===== src/Orchestrator/LocalExec.antt =====
-- `LocalExecAdapter` (adapters_local_exec.go): child processes in two maps under a lock, and the
-- goroutine of each process that forgets it when it has ended.
use o2ul_portal.Common.{
  ℕ, zero, suc, ◌+◌, String, Bool, true, false, not, ◌&&◌, ◌||◌, Option, none, some, List, [], ◌∷◌,
  ◌==◌, concat, trim_space, Map, lookup, insert, erase, if◌then◌else◌, Result, ok, err, Error,
  message,
}
use o2ul_portal.Orchestrator.{Instance, Moment, Backend, Meta, instance_not_found, instances_of}
pub mod Steps
pub mod Settles

-- `instances` holds the process id of each command.
pub record LocalState : Type 0 where
  pub instances : Map ℕ
  pub meta : Meta

unfoldable pub new_local : LocalState
new_local = record { instances = []; meta = [] }

-- both maps lose the id, under the lock
unfoldable pub forget_local : String → LocalState → LocalState
forget_local id s = record { instances = erase id s.instances; meta = erase id s.meta }

abbrev pub local_instance : Moment → String → String → List String → ℕ → Instance
local_instance m service command args pid = record {
  id = m.uuid;
  service = service;
  command = command;
  args = args;
  pid = pid;
  spawned_at = m.now;
}

-- `m.start` fails if a pipe cannot be made or the process cannot be started. The goroutines that
-- print the output and that wait for the end are steps of their own (Steps).
unfoldable pub spawn_local :
    Moment → String → String → List String → LocalState → Result Instance × LocalState
spawn_local m service command args s =
    if command == ""
    then (err (message "command is required"), s)
    else elim (m.start command args) [
      | err e ↦ (err e, s)
      | ok pid ↦
          let inst = local_instance m service command args pid in
          (
            ok inst,
            record { instances = insert m.uuid pid s.instances; meta = insert m.uuid inst s.meta },
          )
    ]

unfoldable pub despawn_local : Moment → String → LocalState → Result (Unit {0}) × LocalState
despawn_local m id s = elim (lookup id s.instances) [
  | none ↦ (err instance_not_found, s)
  | some pid ↦ elim (m.kill pid) [ err e ↦ (err e, s) | ok done ↦ (ok tt, forget_local id s) ]
]

unfoldable pub list_local : LocalState → Result (List Instance)
list_local s = ok (instances_of s.meta)

abbrev pub local_backend : Backend LocalState
local_backend = record { spawn = spawn_local; despawn = despawn_local; list = list_local }

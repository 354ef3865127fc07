-- ===== src/Orchestrator/Commands.antt =====
-- The adapters that run a command line tool (adapters_systemd.go, adapters_docker.go and
-- adapters_k8s.go). Their state is the map `meta`. The output of the tool, which the texts of their
-- errors end with, is left out.
use o2ul_portal.Common.{
  String, none, some, List, [], ◌∷◌, ◌++◌, ◌==◌, is_nil, is_blank, concat, take_chars, lookup,
  insert, erase, if◌then◌else◌, Result, ok, err, message, wrapped,
}
use o2ul_portal.Orchestrator.{Instance, Moment, Backend, Meta, instance_not_found, instances_of}

-- a record of an instance without a process id
abbrev pub entry : Moment → String → String → List String → Instance
entry m service command args = record {
  id = m.uuid;
  service = service;
  command = command;
  args = args;
  pid = 0;
  spawned_at = m.now;
}

-- the end of Spawn, after the tool has run
abbrev pub register : Moment → String → Instance → Result String → Meta → Result Instance × Meta
register m failure inst (err e) meta = (err (wrapped failure e), meta)
register m failure inst (ok output) meta = (ok inst, insert m.uuid inst meta)

-- the end of Despawn, after the tool has run
abbrev pub forget : String → String → Result String → Meta → Result (Unit {0}) × Meta
forget failure id (err e) meta = (err (wrapped failure e), meta)
forget failure id (ok output) meta = (ok tt, erase id meta)

-- Despawn, by the command line that removes a service
abbrev pub despawn_by :
    String → (String → List String) → Moment → String → Meta → Result (Unit {0}) × Meta
despawn_by failure remove m id meta = elim (lookup id meta) [
  | none ↦ (err instance_not_found, meta)
  | some inst ↦ forget failure id (m.run (remove inst.service)) meta
]

abbrev pub first_text : String → String → String
first_text s fallback = if s == "" then fallback else s

unfoldable pub systemd_spawn :
    Moment → String → String → List String → Meta → Result Instance × Meta
systemd_spawn m service command args meta =
    let unit = first_text service command in
    if unit == ""
    then (err (message "service or command is required for systemd backend"), meta)
    else register m "systemctl start failed" (entry m unit "systemctl start" (unit ∷ []))
        (m.run ("systemctl" ∷ "start" ∷ unit ∷ [])) meta

unfoldable pub systemd_despawn : Moment → String → Meta → Result (Unit {0}) × Meta
systemd_despawn =
    despawn_by "systemctl stop failed" (λ service. "systemctl" ∷ "stop" ∷ service ∷ [])

-- `"svc-" + uuid.NewString()[:8]`
abbrev pub made_up_name : Moment → String
made_up_name m = concat "svc-" (take_chars 8 m.name_uuid)

unfoldable pub docker_spawn : Moment → String → String → List String → Meta → Result Instance × Meta
docker_spawn m service image args meta =
    let name = first_text service (made_up_name m) in
    let run_args = "run" ∷ "-d" ∷ "--name" ∷ name ∷ image ∷ args in
    if image == ""
    then (err (message "command must be a docker image for docker backend"), meta)
    else register m "docker run failed" (entry m name "docker run" run_args)
        (m.run ("docker" ∷ run_args)) meta

unfoldable pub docker_despawn : Moment → String → Meta → Result (Unit {0}) × Meta
docker_despawn = despawn_by "docker rm failed" (λ service. "docker" ∷ "rm" ∷ "-f" ∷ service ∷ [])

-- NewKubernetesAdapter
unfoldable pub namespace_of : String → String
namespace_of namespace = if is_blank namespace then "default" else namespace

unfoldable pub kubernetes_spawn :
    String → Moment → String → String → List String → Meta → Result Instance × Meta
kubernetes_spawn namespace m service image args meta =
    let name = first_text service (made_up_name m) in
    let run_args =
      "-n" ∷ namespace ∷ "run" ∷ name ∷ "--image" ∷ image ∷ "--restart" ∷ "Never" ∷ [] in
    let kubectl_args = if is_nil args then run_args else run_args ++ ("--command" ∷ "--" ∷ args) in
    if image == ""
    then (err (message "command must be a container image for kubernetes backend"), meta)
    else register m "kubectl run failed" (entry m name "kubectl run" kubectl_args)
        (m.run ("kubectl" ∷ kubectl_args)) meta

unfoldable pub kubernetes_despawn : String → Moment → String → Meta → Result (Unit {0}) × Meta
kubernetes_despawn namespace = despawn_by "kubectl delete failed" (λ service.
    "kubectl" ∷ "-n" ∷ namespace ∷ "delete" ∷ "pod" ∷ service ∷ "--ignore-not-found=true" ∷ [])

-- List of the three
unfoldable pub list_meta : Meta → Result (List Instance)
list_meta meta = ok (instances_of meta)

abbrev pub systemd_backend : Backend Meta
systemd_backend = record { spawn = systemd_spawn; despawn = systemd_despawn; list = list_meta }

abbrev pub docker_backend : Backend Meta
docker_backend = record { spawn = docker_spawn; despawn = docker_despawn; list = list_meta }

abbrev pub kubernetes_backend : String → Backend Meta
kubernetes_backend namespace = record {
  spawn = kubernetes_spawn namespace;
  despawn = kubernetes_despawn namespace;
  list = list_meta;
}

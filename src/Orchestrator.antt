-- ===== src/Orchestrator.antt =====
-- internal/infrastructure/orchestrator: the instances of managed services. What a call meets, the
-- outcome of the commands and processes that it starts, fresh identifiers and the clock, comes with
-- it as a `Moment`. A Go map is a list of entries here, in an order that Go leaves open.
use Prim.Native.Char.{Char}
use o2ul_portal.Common.{
  ℕ, String, Bool, true, false, Option, none, some, List, [], ◌∷◌, ◌++◌, ◌==◌, is_nil, is_blank,
  concat, take_chars, trim_space, to_lower, map, Map, lookup, insert, erase, if◌then◌else◌, Result,
  ok, err, Error, message, wrapped,
}
pub mod Commands
pub mod LocalExec
pub mod Table

pub record Instance : Type 0 where
  pub id : String
  pub service : String
  pub command : String
  pub args : List String
  pub pid : ℕ
  pub spawned_at : ℕ

pub record Moment : Type 0 where
  -- uuid.NewString for the id, and for a name that is made up
  pub uuid : String
  pub name_uuid : String
  pub now : ℕ
  -- exec.CommandContext(...).Run and CombinedOutput
  pub run : List String → Result String
  -- exec.Command(command, args...) and Start, with the process id; Process.Kill
  pub start : String → List String → Result ℕ
  pub kill : ℕ → Result (Unit {0})

-- `Backend`, over the state of an adapter
pub record Backend (S : Type 0) : Type 0 where
  pub spawn : Moment → String → String → List String → S → Result Instance × S
  pub despawn : Moment → String → S → Result (Unit {0}) × S
  pub list : S → Result (List Instance)

-- `Manager`, whose backend may be nil
abbrev pub Manager : Type 0 → Type 0
Manager S = Option (Backend S)

abbrev pub no_backend : Error
no_backend = message "orchestrator backend is not configured"

abbrev pub instance_not_found : Error
instance_not_found = message "instance not found"

module _ {S : Type 0} where
  unfoldable pub spawn :
      Manager S → Moment → String → String → List String → S → Result Instance × S
  spawn none m service command args s = (err no_backend, s)
  spawn (some b) m service command args s = b.spawn m service command args s

  unfoldable pub despawn : Manager S → Moment → String → S → Result (Unit {0}) × S
  despawn none m id s = (err no_backend, s)
  despawn (some b) m id s = b.despawn m id s

  -- ListWithContext: a failure gives the nil slice
  unfoldable pub list_instances : Manager S → S → List Instance
  list_instances none s = []
  list_instances (some b) s = elim (b.list s) [ err e ↦ [] | ok out ↦ out ]

-- the field `meta` of the adapters
abbrev pub Meta : Type 0
Meta = Map Instance

-- the values of the map
abbrev pub instances_of : Meta → List Instance
instances_of meta = map (λ entry. entry.1) meta

-- BackendFromName, by the adapter that it makes
pub data BackendName : Type 0 where
  systemd local_exec docker kubernetes : BackendName

unfoldable pub backend_from_name : (Char → Char) → String → Result BackendName
backend_from_name beyond_ascii name =
    let n = to_lower beyond_ascii (trim_space name) in
    if n == ""
    then ok systemd
    else if n == "systemd"
    then ok systemd
    else if n == "local"
    then ok local_exec
    else if n == "exec"
    then ok local_exec
    else if n == "docker"
    then ok docker
    else if n == "k8s"
    then ok kubernetes
    else if n == "kubernetes"
    then ok kubernetes
    else err (message (concat "unsupported orchestrator backend: " name))

-- ===== src/Orchestrator/Table.antt =====
-- What a backend promises, and that the three adapters over a command line tool keep it.
use o2ul_portal.Common.{
  String, Bool, false, Option, none, some, List, [], ◌∷◌, ◌≡◌, refl, sym, ap, ◌∙◌, subst, arith,
  eq_iff, ◌==◌, inl, inr, ◌⊎◌, Bool-cases, Option-cases, Any, here, there, lookup, insert, erase,
  if_true, if_false, lookup-insert, lookup-insert_self, lookup-erase, if◌then◌else◌, Result, ok,
  err, Error,
}
use o2ul_portal.Orchestrator.{Instance, Moment, Backend, Meta, instances_of}
use o2ul_portal.Orchestrator.Commands.{
  register, forget, despawn_by, first_text, systemd_spawn, systemd_despawn, docker_spawn,
  docker_despawn, kubernetes_spawn, kubernetes_despawn, list_meta, systemd_backend, docker_backend,
  kubernetes_backend,
}

-- `find` is the instance that a state keeps under an id. An instance that was spawned is kept and one
-- that was despawned is not; a call that fails changes nothing; other ids are left alone; and the
-- list shows what is kept.
pub record IsBackend {S : Type 0} (B : Backend S) (find : S → String → Option Instance)
    : Type 0 where
  pub spawned :
      (m : Moment) (service command other : String) (args : List String) (s t : S) (i : Instance)
      → B.spawn m service command args s ≡ (ok i, t)
      → (i.id ≡ m.uuid)
        × (find t m.uuid ≡ some i)
        × ((m.uuid ≡ other) ⊎ (find t other ≡ find s other))
  pub not_spawned :
      (m : Moment) (service command : String) (args : List String) (s t : S) (e : Error)
      → B.spawn m service command args s ≡ (err e, t)
      → t ≡ s
  pub despawned :
      (m : Moment) (id other : String) (s t : S)
      → B.despawn m id s ≡ (ok tt, t)
      → ((i : Instance) × (find s id ≡ some i))
        × (find t id ≡ none)
        × ((id ≡ other) ⊎ (find t other ≡ find s other))
  pub not_despawned :
      (m : Moment) (id : String) (s t : S) (e : Error) → B.despawn m id s ≡ (err e, t) → t ≡ s
  pub listed :
      (s : S) (id : String) (i : Instance)
      → find s id ≡ some i
      → (is : List Instance) × (B.list s ≡ ok is) × Any (λ j. j ≡ i) is

abbrev pub find_instance : Meta → String → Option Instance
find_instance meta id = lookup id meta

same_or_other : (a b : String) → (a ≡ b) ⊎ ((a == b) ≡ false)
same_or_other a b = elim (Bool-cases (a == b)) [ inl e ↦ inl ((eq_iff a b).0 e) | inr e ↦ inr e ]

kept :
    (id other : String) (i : Instance) (meta : Meta)
    → (id ≡ other) ⊎ (lookup other (insert id i meta) ≡ lookup other meta)
kept id other i meta = elim (same_or_other id other) [
  | inl e ↦ inl e
  | inr e ↦ inr (rw (lookup-insert id other i meta) (rw e refl))
]

kept_erase :
    (id other : String) (meta : Meta)
    → (id ≡ other) ⊎ (lookup other (erase id meta) ≡ lookup other meta)
kept_erase id other meta = elim (same_or_other id other) [
  | inl e ↦ inl e
  | inr e ↦ inr (rw (lookup-erase id other meta) (rw e refl))
]

register-ok :
    (m : Moment) (failure other : String) (inst i : Instance) (r : Result String) (meta t : Meta)
    → inst.id ≡ m.uuid
    → register m failure inst r meta ≡ (ok i, t)
    → (i.id ≡ m.uuid)
      × (lookup m.uuid t ≡ some i)
      × ((m.uuid ≡ other) ⊎ (lookup other t ≡ lookup other meta))
register-ok m failure other inst i (err e) meta t id h = cc
register-ok m failure other inst i (ok output) meta t id h =
    let table : insert m.uuid inst meta ≡ t = ap (λ z. z.1) h in
    let same : inst ≡ i = ap (λ (z : Result Instance × Meta). value_or_inst inst z.0) h in
    (
      rw (← same) id,
      rw (← table) (rw (← same) (lookup-insert_self m.uuid inst meta)),
      subst (λ z. (m.uuid ≡ other) ⊎ (lookup other z ≡ lookup other meta)) table
          (kept m.uuid other inst meta),
    )
  where
    value_or_inst : Instance → Result Instance → Instance
    value_or_inst fallback (ok v) = v
    value_or_inst fallback (err e) = fallback

register-err :
    (m : Moment) (failure : String) (inst : Instance) (r : Result String) (meta t : Meta)
    (e : Error)
    → register m failure inst r meta ≡ (err e, t)
    → t ≡ meta
register-err m failure inst (err x) meta t e h = ap (λ z. z.1) (sym h)
register-err m failure inst (ok output) meta t e h = cc

forget-ok :
    (failure id other : String) (r : Result String) (meta t : Meta)
    → forget failure id r meta ≡ (ok tt, t)
    → (lookup id t ≡ none) × ((id ≡ other) ⊎ (lookup other t ≡ lookup other meta))
forget-ok failure id other (err e) meta t h = cc
forget-ok failure id other (ok output) meta t h =
    let table : erase id meta ≡ t = ap (λ z. z.1) h in
    (
      rw (← table) (rw (lookup-erase id id meta) (rw ((eq_iff id id).1 refl) refl)),
      subst (λ z. (id ≡ other) ⊎ (lookup other z ≡ lookup other meta)) table
          (kept_erase id other meta),
    )

forget-err :
    (failure id : String) (r : Result String) (meta t : Meta) (e : Error)
    → forget failure id r meta ≡ (err e, t)
    → t ≡ meta
forget-err failure id (err x) meta t e h = ap (λ z. z.1) (sym h)
forget-err failure id (ok output) meta t e h = cc

module _ (failure : String) (remove : String → List String) where
  despawn_by-ok :
      (m : Moment) (id other : String) (meta t : Meta)
      → despawn_by failure remove m id meta ≡ (ok tt, t)
      → ((i : Instance) × (lookup id meta ≡ some i))
        × (lookup id t ≡ none)
        × ((id ≡ other) ⊎ (lookup other t ≡ lookup other meta))
  despawn_by-ok m id other meta t h = elim (Option-cases (lookup id meta)) [
    | inl e ↦ ground arith
    | inr (i, e) ↦
        let (gone, rest) =
          forget-ok failure id other (m.run (remove i.service)) meta t (ground arith) in
        ((i, e), gone, rest)
  ]

  despawn_by-err :
      (m : Moment) (id : String) (meta t : Meta) (e : Error)
      → despawn_by failure remove m id meta ≡ (err e, t)
      → t ≡ meta
  despawn_by-err m id meta t x h = elim (Option-cases (lookup id meta)) [
    | inl e ↦ ground arith
    | inr (i, e) ↦ forget-err failure id (m.run (remove i.service)) meta t x (ground arith)
  ]

listed-meta :
    (meta : Meta) (id : String) (i : Instance)
    → lookup id meta ≡ some i
    → Any (λ j. j ≡ i) (instances_of meta)
unfolding lookup
listed-meta [] id i h = cc
listed-meta ((k, j) ∷ meta) id i h = elim (Bool-cases (k == id)) [
  | inl e ↦ here (ground arith)
  | inr e ↦ there (listed-meta meta id i (ground arith))
]

-- The shape that the adapters share: a test of the arguments, the instance, and its command lines.
module _ (missing : String → String → Bool) (problem : Error) (failed_start failed_stop : String)
    (inst : Moment → String → String → List String → Instance)
    (line : Moment → String → String → List String → List String) (remove : String → List String)
    (inst_id : (m : Moment) (service command : String) (args : List String)
      → (inst m service command args).id ≡ m.uuid) where
  abbrev table_spawn : Moment → String → String → List String → Meta → Result Instance × Meta
  table_spawn m service command args meta =
      if missing service command
      then (err problem, meta)
      else register m failed_start (inst m service command args)
          (m.run (line m service command args)) meta

  abbrev table_backend : Backend Meta
  table_backend = record {
    spawn = table_spawn;
    despawn = despawn_by failed_stop remove;
    list = list_meta;
  }

  table_spawn-ok :
      (m : Moment) (service command other : String) (args : List String) (meta t : Meta)
      (i : Instance)
      → table_spawn m service command args meta ≡ (ok i, t)
      → (i.id ≡ m.uuid)
        × (lookup m.uuid t ≡ some i)
        × ((m.uuid ≡ other) ⊎ (lookup other t ≡ lookup other meta))
  table_spawn-ok m service command other args meta t i h =
      elim (Bool-cases (missing service command)) [
        | inl e ↦ ground arith
        | inr e ↦
            register-ok m failed_start other (inst m service command args) i
              (m.run (line m service command args)) meta t (inst_id m service command args)
              (sym (if_false (missing service command) _ _ e) ∙ h)
      ]

  table_spawn-err :
      (m : Moment) (service command : String) (args : List String) (meta t : Meta) (e : Error)
      → table_spawn m service command args meta ≡ (err e, t)
      → t ≡ meta
  table_spawn-err m service command args meta t x h = elim (Bool-cases (missing service command)) [
    | inl e ↦ ap (λ z. z.1) (sym h ∙ if_true (missing service command) _ _ e)
    | inr e ↦
        register-err m failed_start (inst m service command args)
          (m.run (line m service command args)) meta t x
          (sym (if_false (missing service command) _ _ e) ∙ h)
  ]

  table_backend-IsBackend : IsBackend table_backend find_instance
  unfolding list_meta
  table_backend-IsBackend = record {
    spawned = table_spawn-ok;
    not_spawned = table_spawn-err;
    despawned = despawn_by-ok failed_stop remove;
    not_despawned = despawn_by-err failed_stop remove;
    listed = λ s id i h. (instances_of s, refl, listed-meta s id i h);
  }

-- The adapters of systemd, Docker and Kubernetes, in any namespace, are backends.
pub command_backends-IsBackend :
    (namespace : String)
    → IsBackend systemd_backend find_instance
      × IsBackend docker_backend find_instance
      × IsBackend (kubernetes_backend namespace) find_instance
unfolding systemd_spawn docker_spawn kubernetes_spawn systemd_despawn docker_despawn
    kubernetes_despawn
command_backends-IsBackend namespace = (
  table_backend-IsBackend (λ service command. first_text service command == "") _ _ _ _ _ _
      (λ m service command args. refl),
  table_backend-IsBackend (λ service image. image == "") _ _ _ _ _ _
      (λ m service command args. refl),
  table_backend-IsBackend (λ service image. image == "") _ _ _ _ _ _
      (λ m service command args. refl),
)

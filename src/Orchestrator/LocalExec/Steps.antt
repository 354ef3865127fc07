-- ===== src/Orchestrator/LocalExec/Steps.antt =====
-- The adapter among its goroutines: what other calls and ending processes do between two steps.
use o2ul_portal.Common.{
  ℕ, String, Bool, true, false, ◌||◌, Option, none, some, List, [], ◌∷◌, ◌++◌, ◌≡◌, ◌≢◌, refl, sym,
  ap, ◌∙◌, arith, eq_iff, ◌==◌, inl, inr, ◌⊎◌, Bool-cases, Result-cases, lookup, insert, erase,
  lookup-insert, lookup-erase, ok,
}
use o2ul_portal.Orchestrator.{Instance, Moment, Meta}
use o2ul_portal.Orchestrator.LocalExec.{LocalState, new_local, forget_local, spawn_local}

-- `waiting` are the ids whose goroutine waits for the process, `killing` those of calls of Despawn
-- that have killed the process and are about to forget it.
pub record World : Type 0 where
  pub local : LocalState
  pub waiting : List String
  pub killing : List String

abbrev pub start_world : World
start_world = record { local = new_local; waiting = []; killing = [] }

-- uuid.NewString gives an id that nothing has had so far.
abbrev pub IsFresh : String → World → Type 0
IsFresh id w = (lookup id w.local.instances ≡ none) × (lookup id w.local.meta ≡ none)

pub data Step : World → World → Type 0 where
  -- Spawn returns an instance, and its goroutine waits.
  spawned :
      (w : World) (m : Moment) (service command : String) (args : List String) (i : Instance)
      (t : LocalState)
      → IsFresh m.uuid w
      → spawn_local m service command args w.local ≡ (ok i, t)
      → Step w (record w { local = t; waiting = m.uuid ∷ w.waiting })
  -- The process of an id has ended, and its goroutine forgets it.
  exited :
      (local : LocalState) (before after killing : List String) (id : String)
      → Step
          (record { local = local; waiting = before ++ id ∷ after; killing = killing })
          (record { local = forget_local id local; waiting = before ++ after; killing = killing })
  -- Despawn finds a process and kills it.
  killed :
      (w : World) (m : Moment) (id : String) (pid : ℕ)
      → lookup id w.local.instances ≡ some pid
      → m.kill pid ≡ ok tt
      → Step w (record w { killing = id ∷ w.killing })
  -- Despawn forgets the process that it killed.
  removed :
      (local : LocalState) (waiting before after : List String) (id : String)
      → Step
          (record { local = local; waiting = waiting; killing = before ++ id ∷ after })
          (record { local = forget_local id local; waiting = waiting; killing = before ++ after })

pub data Reach : World → Type 0 where
  start : Reach start_world
  next : {w v : World} → Reach w → Step w v → Reach v

unfoldable pub has_id : String → List String → Bool
has_id id [] = false
has_id id (x ∷ xs) = x == id || has_id id xs

-- the process id that an instance shows
abbrev pub pid_of : Option Instance → Option ℕ
pid_of none = none
pid_of (some i) = some i.pid

-- The two maps have the same ids and process ids, an instance stands under its own id, and the
-- goroutine of each instance still waits.
pub record IsConsistent (w : World) : Type 0 where
  pub same_pids : (id : String) → lookup id w.local.instances ≡ pid_of (lookup id w.local.meta)
  pub own_id : (id : String) (i : Instance) → lookup id w.local.meta ≡ some i → i.id ≡ id
  pub watched :
      (id : String) (i : Instance) → lookup id w.local.meta ≡ some i → has_id id w.waiting ≡ true

start-IsConsistent : IsConsistent start_world
unfolding new_local lookup
start-IsConsistent = record {
  same_pids = λ id. refl;
  own_id = λ id i h. cc;
  watched = λ id i h. cc;
}

-- What is found after an id was forgotten was found before, under another id.
found_before :
    (id k : String) (meta : Meta) (i : Instance)
    → lookup k (erase id meta) ≡ some i
    → (id ≢ k) × (lookup k meta ≡ some i)
found_before id k meta i h = elim (Bool-cases (id == k)) [
  | inl e ↦ ground (arith, lookup-erase id k meta)
  | inr e ↦ ((λ same. ground (arith, eq_iff id k)), ground (arith, lookup-erase id k meta))
]

forget-same_pids :
    (id k : String) (s : LocalState)
    → lookup k s.instances ≡ pid_of (lookup k s.meta)
    → lookup k (forget_local id s).instances ≡ pid_of (lookup k (forget_local id s).meta)
unfolding forget_local
forget-same_pids id k s h = ground (arith, lookup-erase id k s.instances, lookup-erase id k s.meta)

has_id-removed :
    (k id : String) (before after : List String)
    → id ≢ k
    → has_id k (before ++ id ∷ after) ≡ true
    → has_id k (before ++ after) ≡ true
unfolding has_id
has_id-removed k id [] after ne h = ground (arith, eq_iff id k)
has_id-removed k id (x ∷ before) after ne h = ground (arith, has_id-removed k id before after ne)

-- Forgetting an id keeps the invariant, whether its goroutine or Despawn does it.
forget-IsConsistent :
    (w : World) (id : String) (waiting killing : List String)
    → IsConsistent w
    → ((k : String) → id ≢ k → has_id k w.waiting ≡ true → has_id k waiting ≡ true)
    → IsConsistent
        (record { local = forget_local id w.local; waiting = waiting; killing = killing })
unfolding forget_local
forget-IsConsistent w id waiting killing c keeps = record {
  same_pids = λ k. forget-same_pids id k w.local (c.same_pids k);
  own_id = λ k i h. c.own_id k i (found_before id k w.local.meta i h).1;
  watched = λ k i h.
      let (ne, found) = found_before id k w.local.meta i h in keeps k ne (c.watched k i found);
}

spawn_local-ok :
    (m : Moment) (service command : String) (args : List String) (s t : LocalState) (i : Instance)
    → spawn_local m service command args s ≡ (ok i, t)
    → (i.id ≡ m.uuid)
      × (t.instances ≡ insert m.uuid i.pid s.instances)
      × (t.meta ≡ insert m.uuid i s.meta)
unfolding spawn_local
spawn_local-ok m service command args s t i h = elim (Bool-cases (command == "")) [
  | inl e ↦ ground arith
  | inr e ↦ elim (Result-cases (m.start command args)) [
    | inr (x, f) ↦ ground arith
    | inl (pid, f) ↦ ground arith
  ]
]

-- What is found after an instance was inserted is that instance, or was found before.
found_inserted :
    (id k : String) (meta : Meta) (i j : Instance)
    → lookup k (insert id i meta) ≡ some j
    → ((id ≡ k) × (i ≡ j)) ⊎ (lookup k meta ≡ some j)
found_inserted id k meta i j h = elim (Bool-cases (id == k)) [
  | inl e ↦ inl ((eq_iff id k).0 e, ground (arith, lookup-insert id k i meta))
  | inr e ↦ inr (ground (arith, lookup-insert id k i meta))
]

has_id_self : (id : String) (xs : List String) → has_id id (id ∷ xs) ≡ true
unfolding has_id
has_id_self id xs = rw ((eq_iff id id).1 refl) refl

has_id-later : (id x : String) (xs : List String) → has_id id xs ≡ true → has_id id (x ∷ xs) ≡ true
unfolding has_id
has_id-later id x xs h = ground arith

Step-IsConsistent : {w v : World} → Step w v → IsConsistent w → IsConsistent v
Step-IsConsistent (spawned w m service command args i t fresh h) c =
    let (same_id, ins, met) = spawn_local-ok m service command args w.local t i h in
    record {
      same_pids = λ k. rw ins (
          rw met (
            ground (
              arith,
              lookup-insert m.uuid k i.pid w.local.instances,
              lookup-insert m.uuid k i w.local.meta,
              c.same_pids k,
            )));
      own_id = λ k j found.
          elim (found_inserted m.uuid k w.local.meta i j (sym (ap (lookup k) met) ∙ found)) [
            | inl (e, same) ↦ rw (← same) (same_id ∙ e)
            | inr before ↦ c.own_id k j before
          ];
      watched = λ k j found.
          elim (found_inserted m.uuid k w.local.meta i j (sym (ap (lookup k) met) ∙ found)) [
            | inl (e, same) ↦ rw e (has_id_self k w.waiting)
            | inr before ↦ has_id-later k m.uuid w.waiting (c.watched k j before)
          ];
    }
Step-IsConsistent (exited local before after killing id) c =
    forget-IsConsistent _ id (before ++ after) killing c
      (λ k ne h. has_id-removed k id before after ne h)
Step-IsConsistent (killed w m id pid found done) c = record {
  same_pids = c.same_pids;
  own_id = c.own_id;
  watched = c.watched;
}
Step-IsConsistent (removed local waiting before after id) c =
    forget-IsConsistent _ id waiting (before ++ after) c (λ k ne h. h)

-- In every reachable world the two maps of the adapter agree, each instance stands under its own
-- id, and a goroutine waits for the end of each process that is listed.
pub Reach-IsConsistent : {w : World} → Reach w → IsConsistent w
Reach-IsConsistent start = start-IsConsistent
Reach-IsConsistent (next r s) = Step-IsConsistent s (Reach-IsConsistent r)

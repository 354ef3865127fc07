-- ===== src/Orchestrator/LocalExec/Settles.antt =====
-- When the processes have ended, nothing is listed any more.
use o2ul_portal.Common.{
  String, none, List, [], ◌∷◌, ◌++◌, ◌≡◌, refl, arith, eq_iff, inl, inr, Option-cases, lookup,
  lookup-erase, if◌then◌else◌, ok,
}
use o2ul_portal.Orchestrator.{Meta}
use o2ul_portal.Orchestrator.LocalExec.{LocalState, forget_local, list_local}
use o2ul_portal.Orchestrator.LocalExec.Steps.{
  World, Reach, has_id, IsConsistent, Reach-IsConsistent,
}

-- Steps by which processes end, one after the other, and nothing else.
pub data Exits : World → World → Type 0 where
  done : {w : World} → Exits w w
  then :
      {v : World} (local : LocalState) (before after killing : List String) (id : String)
      → Exits
          (record { local = forget_local id local; waiting = before ++ after; killing = killing })
          v
      → Exits (record { local = local; waiting = before ++ id ∷ after; killing = killing }) v

exit_all : List String → LocalState → LocalState
exit_all [] s = s
exit_all (id ∷ ids) s = exit_all ids (forget_local id s)

Exits-exit_all :
    (ids killing : List String) (s : LocalState)
    → Exits
        (record { local = s; waiting = ids; killing = killing })
        (record { local = exit_all ids s; waiting = []; killing = killing })
unfolding exit_all
Exits-exit_all [] killing s = done
Exits-exit_all (id ∷ ids) killing s =
    Exits.then s [] ids killing id (Exits-exit_all ids killing (forget_local id s))

lookup-exit_all :
    (k : String) (ids : List String) (s : LocalState)
    → lookup k (exit_all ids s).meta ≡ (if has_id k ids then none else lookup k s.meta)
unfolding exit_all has_id forget_local
lookup-exit_all k [] s = refl
lookup-exit_all k (id ∷ ids) s =
    ground (arith, lookup-exit_all k ids (forget_local id s), lookup-erase id k s.meta)

nothing_found : (meta : Meta) → ((k : String) → lookup k meta ≡ none) → meta ≡ []
unfolding lookup
nothing_found [] h = refl
nothing_found ((k, i) ∷ meta) h = ground (arith, h k, eq_iff k k)

settled : (w : World) → IsConsistent w → (exit_all w.waiting w.local).meta ≡ []
settled w c = nothing_found _ (λ k. elim (Option-cases (lookup k w.local.meta)) [
  | inl e ↦ ground (arith, lookup-exit_all k w.waiting w.local)
  | inr (i, e) ↦ ground (arith, lookup-exit_all k w.waiting w.local, c.watched k i e)
])

-- From every reachable world the end of the processes that are waited for leads to a world where the
-- adapter lists no instance and no goroutine waits.
pub Reach-settles :
    {w : World}
    → Reach w
    → (v : World) × Exits w v × (v.waiting ≡ []) × (list_local v.local ≡ ok [])
unfolding list_local
Reach-settles {w} r = (
  record { local = exit_all w.waiting w.local; waiting = []; killing = w.killing },
  Exits-exit_all w.waiting w.killing w.local,
  refl,
  rw (settled w (Reach-IsConsistent r)) refl,
)

-- ===== src/Tests/Startup.antt =====
-- A shutdown of two phases, the first of which fails; the state counts the phases that ran.
use o2ul_portal.Common.{
  ℕ, ◌+◌, ◌≡◌, none, some, List, [], ◌∷◌, ◌++◌, length, if◌then◌else◌, is_nil, ok, err, message,
}
use o2ul_portal.Common.Int.{ℤ, pos}
use o2ul_portal.Startup.{ShutdownPhase, shutdown_begin, shutdown_complete, run_shutdown_phases}
use o2ul_portal.Startup.Phases.{failures, lines_of, outcomes, run_shutdown_phases-all}

-- a context is its deadline
abbrev with_timeout : ℤ → ℤ → ℤ
with_timeout ctx timeout = timeout

abbrev phases : List (ShutdownPhase ℤ ℕ)
phases =
    record { name = ""; timeout = pos 10; run = λ ctx n. (err (message "timeout"), n + 1) }
    ∷ record { name = "store"; timeout = pos 0; run = λ ctx n. (ok tt, n + 1) }
    ∷ []

run_shutdown_phases-all_example :
    (good : ℕ) × (run_shutdown_phases with_timeout (pos 30) phases 0 ≡ (
      if is_nil (failures (outcomes with_timeout (pos 30) phases 0).0)
          then none
          else some (failures (outcomes with_timeout (pos 30) phases 0).0),
      shutdown_begin (length phases) ∷ lines_of (outcomes with_timeout (pos 30) phases 0).0
          ++ shutdown_complete good (length (failures (outcomes with_timeout (pos 30) phases 0).0))
            ∷ [],
      (outcomes with_timeout (pos 30) phases 0).1,
    ))
    × (good + length (failures (outcomes with_timeout (pos 30) phases 0).0) ≡ length phases)
run_shutdown_phases-all_example = run_shutdown_phases-all with_timeout (pos 30) phases 0

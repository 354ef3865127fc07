-- ===== src/Startup.antt =====
-- Shutdown in phases (internal/infrastructure/startup/shutdown_phases.go). Contexts are a parameter,
-- with what context.WithTimeout makes of one; `S` is the state that the phases work on. The lines of
-- the log are kept without the component, the reason and the durations.
pub mod Phases
use o2ul_portal.Common.{
  ℕ, ◌+◌, String, Option, none, some, List, [], ◌∷◌, ◌++◌, ◌==◌, if◌then◌else◌, is_nil, length,
  Result, ok, err, Error, wrapped,
}
use o2ul_portal.Common.Int.{ℤ, pos, leb_ℤ}

-- `timeout` is a time.Duration.
pub record ShutdownPhase (Context S : Type 0) : Type 0 where
  pub name : String
  pub timeout : ℤ
  pub run : Context → S → Result (Unit {0}) × S

pub data LogLine : Type 0 where
  shutdown_begin : ℕ → LogLine
  phase_failed : String → Error → LogLine
  phase_ok : String → LogLine
  shutdown_complete : ℕ → ℕ → LogLine

-- the variables of RunShutdownPhases
pub record Progress (S : Type 0) : Type 0 where
  pub errs : List Error
  pub ok_count : ℕ
  pub fail_count : ℕ
  pub log : List LogLine
  pub state : S

module _ {Context S : Type 0} (with_timeout : Context → ℤ → Context) where
  abbrev pub phase_name : ShutdownPhase Context S → String
  phase_name phase = if phase.name == "" then "unnamed" else phase.name

  abbrev pub phase_context : Context → ShutdownPhase Context S → Context
  phase_context ctx phase =
      if leb_ℤ phase.timeout (pos 0) then ctx else with_timeout ctx phase.timeout

  abbrev pub count_phase : String → Progress S → Result (Unit {0}) × S → Progress S
  count_phase name p (err e, t) = record {
    errs = p.errs ++ wrapped name e ∷ [];
    ok_count = p.ok_count;
    fail_count = p.fail_count + 1;
    log = p.log ++ phase_failed name e ∷ [];
    state = t;
  }
  count_phase name p (ok done, t) = record {
    errs = p.errs;
    ok_count = p.ok_count + 1;
    fail_count = p.fail_count;
    log = p.log ++ phase_ok name ∷ [];
    state = t;
  }

  -- the body of the loop
  abbrev pub run_phase : Context → ShutdownPhase Context S → Progress S → Progress S
  run_phase ctx phase p =
      count_phase (phase_name phase) p (phase.run (phase_context ctx phase) p.state)

  unfoldable pub run_phases : Context → List (ShutdownPhase Context S) → Progress S → Progress S
  run_phases ctx [] p = p
  run_phases ctx (phase ∷ phases) p = run_phases ctx phases (run_phase ctx phase p)

  -- RunShutdownPhases: `none`, or the errors that errors.Join joins, with the log and the new state
  unfoldable pub run_shutdown_phases :
      Context → List (ShutdownPhase Context S) → S → Option (List Error) × List LogLine × S
  run_shutdown_phases ctx phases s =
      let start : Progress S = record {
        errs = [];
        ok_count = 0;
        fail_count = 0;
        log = shutdown_begin (length phases) ∷ [];
        state = s;
      } in
      let p = run_phases ctx phases start in
      (
        if is_nil p.errs then none else some p.errs,
        p.log ++ shutdown_complete p.ok_count p.fail_count ∷ [],
        p.state,
      )

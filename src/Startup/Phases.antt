-- ===== src/Startup/Phases.antt =====
-- What a shutdown does and reports.
use o2ul_portal.Common.{
  ℕ, suc, ◌+◌, String, ◌≡◌, refl, sym, ap, ◌∙◌, subst, none, some, List, [], ◌∷◌, ◌++◌, arith,
  length, if◌then◌else◌, is_nil, Result, ok, err, Error, wrapped,
}
use mathlib.Core.List.{append_assoc, append-nil}
use o2ul_portal.Common.Int.{ℤ}
use o2ul_portal.Startup.{
  ShutdownPhase, LogLine, shutdown_begin, phase_failed, phase_ok, shutdown_complete, Progress,
  phase_name, phase_context, count_phase, run_phases, run_shutdown_phases,
}

-- the errors among outcomes, each with the name of its phase
pub failures : List (String × Result (Unit {0})) → List Error
failures [] = []
failures ((name, err e) ∷ rest) = wrapped name e ∷ failures rest
failures ((name, ok done) ∷ rest) = failures rest

-- the line for an outcome
pub line_of : String × Result (Unit {0}) → LogLine
line_of (name, err e) = phase_failed name e
line_of (name, ok done) = phase_ok name

pub lines_of : List (String × Result (Unit {0})) → List LogLine
lines_of [] = []
lines_of (o ∷ rest) = line_of o ∷ lines_of rest

module _ {Context S : Type 0} (with_timeout : Context → ℤ → Context) (ctx : Context) where
  -- Every phase, run in order on the state that the one before it left: the outcomes and the last
  -- state.
  pub outcomes : List (ShutdownPhase Context S) → S → List (String × Result (Unit {0})) × S
  outcomes [] s = ([], s)
  outcomes (phase ∷ phases) s =
      let (r, t) = phase.run (phase_context with_timeout ctx phase) s in
      let (rest, u) = outcomes phases t in ((phase_name with_timeout phase, r) ∷ rest, u)

  -- What these outcomes make of the variables of the loop.
  record Counts (p q : Progress S) (os : List (String × Result (Unit {0}))) : Type 0 where
    errs : q.errs ≡ p.errs ++ failures os
    log : q.log ≡ p.log ++ lines_of os
    failed : q.fail_count ≡ p.fail_count + length (failures os)
    all : q.ok_count + q.fail_count ≡ p.ok_count + p.fail_count + length os

  count_phase-Counts :
      (name : String) (p q : Progress S) (r : Result (Unit {0})) (t : S)
      (os : List (String × Result (Unit {0})))
      → Counts (count_phase with_timeout name p (r, t)) q os
      → Counts p q ((name, r) ∷ os)
  unfolding failures lines_of line_of
  count_phase-Counts name p q (err e) t os h = record {
    errs = h.errs ∙ append_assoc p.errs (wrapped name e ∷ []) (failures os);
    log = h.log ∙ append_assoc p.log (phase_failed name e ∷ []) (lines_of os);
    failed = omega (arith, h.failed);
    all = omega (arith, h.all);
  }
  count_phase-Counts name p q (ok done) t os h = record {
    errs = h.errs;
    log = h.log ∙ append_assoc p.log (phase_ok name ∷ []) (lines_of os);
    failed = h.failed;
    all = omega (arith, h.all);
  }

  count_phase-state :
      (name : String) (p : Progress S) (r : Result (Unit {0})) (t : S)
      → (count_phase with_timeout name p (r, t)).state ≡ t
  count_phase-state name p (err e) t = refl
  count_phase-state name p (ok done) t = refl

  abbrev Runs : List (ShutdownPhase Context S) → Progress S → S → Type 0
  Runs phases p s =
      Counts p (run_phases with_timeout ctx phases p) (outcomes phases s).0
      × ((run_phases with_timeout ctx phases p).state ≡ (outcomes phases s).1)
      × (length (outcomes phases s).0 ≡ length phases)

  run_phases-Counts :
      (phases : List (ShutdownPhase Context S)) (p : Progress S) → Runs phases p p.state
  unfolding run_phases outcomes failures lines_of
  run_phases-Counts [] p = (
    record {
      errs = sym (append-nil p.errs);
      log = sym (append-nil p.log);
      failed = omega arith;
      all = omega arith;
    },
    refl,
    refl,
  )
  run_phases-Counts (phase ∷ phases) p =
      let name = phase_name with_timeout phase in
      let result = phase.run (phase_context with_timeout ctx phase) p.state in
      let (counts, last, size) =
        subst (Runs phases (count_phase with_timeout name p result))
          (count_phase-state name p result.0 result.1)
          (run_phases-Counts phases (count_phase with_timeout name p result)) in
      (
        count_phase-Counts name p _ result.0 result.1 (outcomes phases result.1).0 counts,
        last,
        ap suc size,
      )

  -- A shutdown runs every phase, whatever the phases before it returned: in order, each on the state
  -- that the one before left. It returns nil if none of them failed, and otherwise the errors of
  -- those that did, in order, each with the name of its phase. The log begins with the number of
  -- phases, has one line a phase, in order, and ends with the numbers of phases that went well and that failed, which add up to the
  -- number of phases.
  pub run_shutdown_phases-all :
      (phases : List (ShutdownPhase Context S)) (s : S)
      → (good : ℕ) × (run_shutdown_phases with_timeout ctx phases s ≡ (
        if is_nil (failures (outcomes phases s).0)
            then none
            else some (failures (outcomes phases s).0),
        shutdown_begin (length phases) ∷ lines_of (outcomes phases s).0
            ++ shutdown_complete good (length (failures (outcomes phases s).0)) ∷ [],
        (outcomes phases s).1,
      ))
        × (good + length (failures (outcomes phases s).0) ≡ length phases)
  unfolding run_shutdown_phases
  run_shutdown_phases-all phases s =
      let start : Progress S = record {
        errs = [];
        ok_count = 0;
        fail_count = 0;
        log = shutdown_begin (length phases) ∷ [];
        state = s;
      } in
      let (counts, last, size) = run_phases-Counts phases start in
      let failed : (run_phases with_timeout ctx phases start).fail_count
          ≡ length (failures (outcomes phases s).0) =
        omega (arith, counts.failed) in
      (
        (run_phases with_timeout ctx phases start).ok_count,
        rw (counts.errs, counts.log, failed, last) refl,
        omega (arith, counts.all, counts.failed, size),
      )

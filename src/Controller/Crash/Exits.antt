-- ===== src/Controller/Crash/Exits.antt =====
-- How the crash handler ends, and what the supervising process makes of that.
use iexapitest.Base.{
  Bool, Bool-cases, List, Option, Result, [], and_true, ap, arith, false, halt, if◌then◌else◌, inl,
  inr, none, ok, refl, some, suc, true, undefined, ℕ, ◌*◌, ◌++◌, ◌+◌, ◌∙◌, ◌∷◌, ◌≡◌,
}
use iexapitest.Supervisor.{
  Answers, Forked, Supervisor, fork_failed, in_child, in_parent, need_to_work, peakwork_daemon_proc,
  sigchld, started_by, waiting,
}
use iexapitest.Supervisor.Restarts.{
  all_call_again, calls_again, forked_workers, peakwork_daemon_proc_restarts,
}
use iexapitest.Controller.Life.{Controller, stop_controller}
use iexapitest.Controller.Crash.{LogEntry, Process, Signaled, crash_entries, signal_error}
use iexapitest.Rpc.Service.{stop_rpc}

abbrev pub crash_result : Option Controller → Bool → Result ℕ
crash_result none on_updates = halt undefined
crash_result (some c) true = halt undefined
crash_result (some c) false = if c.update_prices_thr then ok need_to_work else halt undefined

-- The whole of SignalError: it exits with NeedToWork, no Controller left to destroy, exactly if the
-- Controller is there, its thread runs, and the signal came to another thread; otherwise a null
-- pointer is followed, or an exception leaves the handler. The entries stand in the log in any case.
pub signal_error_lem :
    (s : Signaled) (p : Process)
    → let (r, p') = signal_error s p in
      (r ≡ crash_result p.dmn p.on_updates) × (p'.syslog ≡ p.syslog ++ crash_entries s)
unfolding signal_error stop_controller stop_rpc
signal_error_lem s p = go p.dmn p.on_updates p.syslog
  where
    go :
        (dmn : Option Controller) (on_updates : Bool) (log : List LogEntry)
        → let (r, p') =
            signal_error s (record { dmn = dmn; on_updates = on_updates; syslog = log }) in
          (r ≡ crash_result dmn on_updates) × (p'.syslog ≡ log ++ crash_entries s)
    go none on_updates log = (refl, refl)
    go (some c) true log = (refl, refl)
    go (some c) false log = elim (Bool-cases c.update_prices_thr) [
      | inl e ↦ rw e (refl, refl)
      | inr e ↦ rw e (refl, refl)
    ]

-- What the parent is told of a worker that exits with a status
abbrev pub exited_with : ℕ → ℕ → Answers
exited_with pid status = record {
  fork = in_parent pid;
  signal = sigchld;
  wait_status = status * 256;
}

started_by-add : (f : Forked) (m n : ℕ) → started_by f (m + n) ≡ started_by f m + n
started_by-add fork_failed m n = refl
started_by-add in_child m n = refl
started_by-add (in_parent pid) m n = omega arith

forked_workers-append :
    (xs ys : List Answers) → forked_workers (xs ++ ys) ≡ forked_workers xs + forked_workers ys
unfolding forked_workers
forked_workers-append [] ys = omega arith
forked_workers-append (a ∷ xs) ys =
    ap (started_by a.fork) (forked_workers-append xs ys)
    ∙ started_by-add a.fork (forked_workers xs) (forked_workers ys)

all_call_again-append :
    (xs ys : List Answers)
    → all_call_again xs ≡ true
    → all_call_again ys ≡ true
    → all_call_again (xs ++ ys) ≡ true
unfolding all_call_again
all_call_again-append [] ys h k = k
all_call_again-append (a ∷ xs) ys h k =
    let (first, rest) = and_true (calls_again a) h in
    rw (first, all_call_again-append xs ys rest k) refl

-- A worker that crashes while its thread runs, in another thread, exits with a status after which the
-- supervising process does not return: behind any rounds that called for another worker it goes on,
-- and has started one worker for this round too.
pub signal_error_restarts :
    (s : Signaled) (p : Process) (c : Controller) (is_open : Bool) (answers : List Answers)
    (pid : ℕ)
    → p.dmn ≡ some c
    → p.on_updates ≡ false
    → c.update_prices_thr ≡ true
    → all_call_again answers ≡ true
    → (status : ℕ) × ((signal_error s p).0 ≡ ok status)
      × (t : Supervisor) × (peakwork_daemon_proc is_open (answers ++ exited_with pid status ∷ [])
          ≡ waiting t)
      × (t.started ≡ suc (forked_workers answers))
unfolding all_call_again forked_workers
signal_error_restarts s p c is_open answers pid there other running again' =
    let (t, e, count) =
      peakwork_daemon_proc_restarts is_open (answers ++ exited_with pid need_to_work ∷ [])
        (all_call_again-append answers (exited_with pid need_to_work ∷ []) again' refl) in
    (
      need_to_work,
      (signal_error_lem s p).0 ∙ rw (there, other, running) refl,
      t,
      e,
      count ∙ forked_workers-append answers (exited_with pid need_to_work ∷ []) ∙ omega arith,
    )

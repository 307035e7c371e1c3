-- ===== src/Examples/Supervisor.antt =====
-- src/main.cpp on a run in which the worker crashes once and then ends.
use iexapitest.Controller.Crash.{Process, Signaled, crash_entries, signal_error}
use iexapitest.Controller.Crash.Exits.{exited_with, signal_error_restarts}
use iexapitest.Controller.Life.{new_controller}
use iexapitest.Base.{
  List, [], codes, false, length, map, none, ok, refl, some, suc, to_decimal, true, ℕ, ◌*◌, ◌++◌,
  ◌∷◌, ◌≡◌,
}
use iexapitest.Supervisor.{
  Answers, Supervisor, child, fork_failed, in_parent, loop, loop_body, peakwork_daemon_proc,
  returned, sigchld, waiting,
}
use iexapitest.Supervisor.Workers.{Holds, peakwork_daemon_proc-Holds}
use iexapitest.Supervisor.Restarts.{
  all_call_again, calls_again, forked_workers, peakwork_daemon_proc_restarts,
}

-- A worker that exits with the status.
abbrev worker : ℕ → ℕ → Answers
worker pid status = record { fork = in_parent pid; signal = sigchld; wait_status = status * 256 }

abbrev crash : List Answers
crash = worker 100 0 ∷ record { fork = fork_failed; signal = sigchld; wait_status = 0 } ∷ []

runs_to_its_end :
    elim (peakwork_daemon_proc true (crash ++ worker 101 1 ∷ [])) [
      | waiting s ↦ none
      | returned status s ↦ status
      | child ↦ none
    ]
    ≡ some 1
unfolding peakwork_daemon_proc loop loop_body
runs_to_its_end = refl

peakwork_daemon_proc-Holds_example :
    Holds false (peakwork_daemon_proc false (crash ++ worker 101 1 ∷ []))
peakwork_daemon_proc-Holds_example = peakwork_daemon_proc-Holds false (crash ++ worker 101 1 ∷ [])

peakwork_daemon_proc_restarts_example :
    (s : Supervisor) × (peakwork_daemon_proc true crash ≡ waiting s)
    × (s.started ≡ forked_workers crash)
unfolding calls_again all_call_again
peakwork_daemon_proc_restarts_example = peakwork_daemon_proc_restarts true crash refl

-- A crash in a worker whose Controller is running
abbrev running : Process
running = record {
  dmn = some (record new_controller { update_prices_thr = true });
  on_updates = false;
  syslog = [];
}

abbrev segv : Signaled
segv = record {
  name = codes "Segmentation fault";
  address = codes "0";
  frames = 10 ∷ 20 ∷ 30 ∷ [];
  error_addr = 25;
  symbols = λ addresses. some (map (λ address. to_decimal address) addresses);
}

six_entries : length (crash_entries segv) ≡ 6
unfolding crash_entries
six_entries = refl

signal_error_restarts_example :
    (status : ℕ) × ((signal_error segv running).0 ≡ ok status)
    × (t : Supervisor) × (peakwork_daemon_proc true (crash ++ exited_with 102 status ∷ [])
        ≡ waiting t)
    × (t.started ≡ suc (forked_workers crash))
unfolding calls_again all_call_again
signal_error_restarts_example =
    signal_error_restarts segv running (record new_controller { update_prices_thr = true }) true
      crash 102 refl refl refl refl

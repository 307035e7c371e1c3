-- ===== src/Supervisor/Workers.antt =====
-- How many workers there are at a time, and when the process ends.
use iexapitest.Base.{
  ==_iff, Bool, Bool-cases, List, [], ap, false, inl, inr, refl, some, suc, true, ℕ, ◌==◌, ◌∷◌, ◌≡◌,
  ◌⊎◌,
}
use iexapitest.Supervisor.{
  Answers, Forked, Next, Outcome, Signal, Supervisor, again, child, finish, fork_failed,
  handle_signal, in_child, in_parent, left, loop, loop_body, need_to_terminate,
  peakwork_daemon_proc, returned, sigabrt, sigchld, sigint, sigquit, sigterm, started_up, waiting,
  wexitstatus, works,
}

-- At the head of the loop: every worker that was started has been waited for.
abbrev pub Between : Bool → Supervisor → Type 0
Between opened s =
    (s.need_start ≡ true)
    × (s.started ≡ s.reaped)
    × (s.terminated_pids ≡ [])
    × (s.pid_file ≡ opened)

-- Behind the loop: the last worker said that the work is over, or a signal came, and the one worker
-- that runs was sent SIGTERM.
abbrev pub Over : Supervisor → Type 0
Over s =
    ((s.status ≡ some need_to_terminate) × (s.started ≡ s.reaped) × (s.terminated_pids ≡ []))
    ⊎ ((s.status ≡ some 0)
        × (s.started ≡ suc s.reaped)
        × ((pid : ℕ) × (s.pid ≡ some (in_parent pid)) × (s.terminated_pids ≡ pid ∷ [])))

abbrev pub Follows : Bool → Next → Type 0
Follows opened (again s) = Between opened s
Follows opened (left s) = Over s
Follows opened works = Unit {0}

-- Inside a round, when a worker runs.
abbrev Working : Bool → ℕ → Supervisor → Type 0
Working opened pid s =
    (s.need_start ≡ true)
    × (s.pid ≡ some (in_parent pid))
    × (s.started ≡ suc s.reaped)
    × (s.terminated_pids ≡ [])
    × (s.pid_file ≡ opened)

handle_signal-Follows :
    (opened : Bool) (signal : Signal) (pid wait_status : ℕ) (s : Supervisor)
    → Working opened pid s
    → Follows opened (handle_signal signal pid wait_status s)
unfolding handle_signal
handle_signal-Follows opened sigchld pid w s (needs, held, one, calm, file) =
    elim (Bool-cases (wexitstatus w == need_to_terminate)) [
      | inl e ↦
          rw e (inl (ap (λ n. some n) ((==_iff (wexitstatus w) need_to_terminate).0 e), one, calm))
      | inr e ↦ rw e (needs, one, calm, file)
    ]
handle_signal-Follows opened sigquit pid w s (needs, held, one, calm, file) =
    inr (refl, one, (pid, held, ap (λ ps. pid ∷ ps) calm))
handle_signal-Follows opened sigint pid w s (needs, held, one, calm, file) =
    inr (refl, one, (pid, held, ap (λ ps. pid ∷ ps) calm))
handle_signal-Follows opened sigterm pid w s (needs, held, one, calm, file) =
    inr (refl, one, (pid, held, ap (λ ps. pid ∷ ps) calm))
handle_signal-Follows opened sigabrt pid w s (needs, held, one, calm, file) =
    inr (refl, one, (pid, held, ap (λ ps. pid ∷ ps) calm))

pub loop_body-Follows :
    (opened : Bool) (f : Forked) (signal : Signal) (w : ℕ) (s : Supervisor)
    → Between opened s
    → Follows opened (loop_body (record { fork = f; signal = signal; wait_status = w }) s)
unfolding loop_body
loop_body-Follows opened fork_failed signal w s (needs, even, calm, file) =
    rw needs (refl, even, calm, file)
loop_body-Follows opened in_child signal w s (needs, even, calm, file) = rw needs tt
loop_body-Follows opened (in_parent pid) signal w s (needs, even, calm, file) = rw needs (
    handle_signal-Follows opened signal pid w
      (record s { need_start = true; pid = some (in_parent pid); started = suc s.started })
      (refl, refl, ap (λ n. suc n) even, calm, file))

abbrev pub Holds : Bool → Outcome → Type 0
Holds opened (waiting s) = Between opened s
Holds opened (returned status s) = (status ≡ s.status) × (s.pid_file ≡ false) × Over s
Holds opened child = Unit {0}

finish-Holds : (opened : Bool) (s : Supervisor) → Over s → Holds opened (finish s)
unfolding finish
finish-Holds opened s over = (refl, refl, over)

loop-Holds :
    (opened : Bool) (answers : List Answers) (s : Supervisor)
    → Between opened s
    → Holds opened (loop answers s)
unfolding loop
loop-Holds opened [] s between = between
loop-Holds opened (a ∷ answers) s between =
    elim (loop_body a s)
        as (λ n.
          Follows opened n
          → Holds opened
              (elim n [ again s' ↦ loop answers s' | left s' ↦ finish s' | works ↦ child ])) [
                | again s' ↦ λ h. loop-Holds opened answers s' h
                | left s' ↦ λ h. finish-Holds opened s' h
                | works ↦ λ h. tt
              ]
      (loop_body-Follows opened a.fork a.signal a.wait_status s between)

-- Whatever forks, signals and statuses come, no two workers run at a time. Each time the process
-- comes to the head of its loop, it has waited for each worker that it started, and the pid file is
-- there exactly if it could be opened. When it returns the file is gone, and either the last worker
-- exited with NeedToTerminate, which is returned, and none runs, or a signal came, 0 is returned, and
-- the one worker that runs, and no other, was sent SIGTERM.
pub peakwork_daemon_proc-Holds :
    (opened : Bool) (answers : List Answers) → Holds opened (peakwork_daemon_proc opened answers)
unfolding peakwork_daemon_proc
peakwork_daemon_proc-Holds opened answers =
    loop-Holds opened answers (started_up opened) (refl, refl, refl, refl)

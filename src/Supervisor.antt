-- ===== src/Supervisor.antt =====
-- src/main.cpp in a release build: the process that starts the worker, and starts it again.
pub mod Signals
pub mod Workers
pub mod Restarts
use iexapitest.Base.{
  Bool, List, Option, Result, Text, [], codes, err, false, halt, if◌then◌else◌, negsuc, none, ok,
  pos, some, suc, terminated, to_decimal, true, ℕ, ℤ, ◌%◌, ◌/◌, ◌==◌, ◌∷◌,
}

-- What `fork` returns: -1, 0 or the process of the child.
pub data Forked : Type 0 where
  fork_failed in_child : Forked
  in_parent : ℕ → Forked

-- The signals that `sigwaitinfo` waits for.
pub data Signal : Type 0 where
  sigquit sigint sigterm sigchld sigabrt : Signal

-- What the system answers in one round of the loop: to `fork`, to `sigwaitinfo`, and the status
-- that `wait` stores.
pub record Answers : Type 0 where
  pub fork : Forked
  pub signal : Signal
  pub wait_status : ℕ

-- eDaemonStatus
abbrev pub need_to_work : ℕ
need_to_work = 0

abbrev pub need_to_terminate : ℕ
need_to_terminate = 1

-- The locals of PeakworkDaemonProc, and what it did to other processes and the pid file: how many
-- workers it forked, how many it waited for, and which were sent SIGTERM. A local that has no value
-- yet is `none`.
pub record Supervisor : Type 0 where
  pub need_start : Bool
  pub pid : Option Forked
  pub status : Option ℕ
  pub started : ℕ
  pub reaped : ℕ
  pub terminated_pids : List ℕ
  pub pid_file : Bool

-- How a round ends: the loop goes on, it is left by `break`, or this is the child, which works.
pub data Next : Type 0 where
  again : Supervisor → Next
  left : Supervisor → Next
  works : Next

-- WEXITSTATUS
abbrev pub wexitstatus : ℕ → ℕ
wexitstatus n = n / 256 % 256

abbrev pub started_by : Forked → ℕ → ℕ
started_by (in_parent pid) n = suc n
started_by _ n = n

-- `if (need_start) pid = fork();`
fork_worker : Answers → Supervisor → Supervisor
fork_worker a s =
    if s.need_start
    then record s { pid = some a.fork; started = started_by a.fork s.started }
    else s

-- `kill(pid, SIGTERM); status = 0; break;`
stop_worker : ℕ → Supervisor → Next
stop_worker pid s = left (record s { terminated_pids = pid ∷ s.terminated_pids; status = some 0 })

-- The parent, when a signal has come
handle_signal : Signal → ℕ → ℕ → Supervisor → Next
unfolding stop_worker
handle_signal sigchld pid wait_status s =
    let status = wexitstatus wait_status in
    let s' = record s { status = some status; reaped = suc s.reaped } in
    if status == need_to_terminate then left s' else again s'
handle_signal _ pid wait_status s = stop_worker pid s

-- The three branches on `pid`. It always has a value: need_start is never cleared.
after_fork : Option Forked → Answers → Supervisor → Next
unfolding handle_signal
after_fork none a s = again s
after_fork (some fork_failed) a s = again s
after_fork (some in_child) a s = works
after_fork (some (in_parent pid)) a s = handle_signal a.signal pid a.wait_status s

unfoldable pub loop_body : Answers → Supervisor → Next
unfolding fork_worker after_fork
loop_body a s = let s' = fork_worker a s in after_fork s'.pid a (record s' { need_start = true })

-- How far the process came: it still waits for answers, it returned from PeakworkDaemonProc with the
-- status, or it is a child.
pub data Outcome : Type 0 where
  waiting : Supervisor → Outcome
  returned : Option ℕ → Supervisor → Outcome
  child : Outcome

-- `unlink(kPidFile); return status;`
finish : Supervisor → Outcome
finish s = returned s.status (record s { pid_file = false })

-- The loop, on the answers that have come so far
unfoldable pub loop : List Answers → Supervisor → Outcome
unfolding finish
loop [] s = waiting s
loop (a ∷ answers) s = elim (loop_body a s) [
  | again s' ↦ loop answers s'
  | left s' ↦ finish s'
  | works ↦ child
]

-- The start, by whether `CreatePidFile` could open the file: where it could not, that is only logged.
abbrev pub started_up : Bool → Supervisor
started_up opened = record {
  need_start = true;
  pid = none;
  status = none;
  started = 0;
  reaped = 0;
  terminated_pids = [];
  pid_file = opened;
}

unfoldable pub peakwork_daemon_proc : Bool → List Answers → Outcome
unfolding loop
peakwork_daemon_proc opened answers = loop answers (started_up opened)

-- `WorkProc`, by what the constructor of Controller does and what the block behind it does: every
-- exception of the block is caught, one of the constructor is not.
unfoldable pub work_proc : Result (Unit {0}) → Result (Unit {0}) → Result ℕ
work_proc (ok made) (ok ran) = ok need_to_terminate
work_proc (ok made) (err e) = ok need_to_terminate
work_proc (ok made) (halt f) = halt f
work_proc (err e) ran = halt terminated
work_proc (halt f) ran = halt f

-- What the child of `main` does before it supervises. That `chdir` fails is only reported.
pub data SystemCall : Type 0 where
  umask : ℕ → SystemCall
  setsid : SystemCall
  chdir : Text → SystemCall
  close : ℕ → SystemCall

abbrev pub detaching : List SystemCall
detaching = umask 0 ∷ setsid ∷ chdir (codes "/") ∷ close 0 ∷ close 1 ∷ close 2 ∷ []

-- How the program ends or goes on: with an exit status, or as the supervising process, behind its
-- system calls.
pub data Run : Type 0 where
  exited : ℤ → Run
  supervises : List SystemCall → Outcome → Run

-- `main` of a release build, on what its own `fork` returns, and on whether the pid file can be opened
unfoldable pub main_proc : Forked → Bool → List Answers → Run
unfolding peakwork_daemon_proc
main_proc fork_failed opened answers = exited (negsuc 0)
main_proc in_child opened answers = supervises detaching (peakwork_daemon_proc opened answers)
main_proc (in_parent pid) opened answers = exited (pos 0)

-- `CreatePidFile`: the content of the file, where it could be opened, or else an entry in the log
unfoldable pub create_pid_file : Bool → ℕ → Option Text × List Text
create_pid_file opened pid =
    if opened
    then (some (to_decimal pid), [])
    else (none, codes "[PeakworkDaemon] Can't open pid file" ∷ [])

-- `SetFdLimit`, over the call of setrlimit, which gives a status
pub record Rlimit : Type 0 where
  pub rlim_cur : ℕ
  pub rlim_max : ℕ

abbrev pub fd_limit : ℕ
fd_limit = 2048

unfoldable pub set_fd_limit : (Rlimit → ℤ) → ℕ → ℤ
set_fd_limit setrlimit max_fd = setrlimit (record { rlim_cur = max_fd; rlim_max = max_fd })

-- ===== src/Supervisor/Signals.antt =====
-- src/main.cpp: the sets of signals of PeakworkDaemonProc and WorkProc, and what their waits make of
-- the signals that come.
pub mod Waits
use iexapitest.Base.{
  Bool, List, Option, [], false, if◌then◌else◌, none, some, ℕ, ◌++◌, ◌==◌, ◌||◌, ◌∷◌,
}
use iexapitest.Supervisor.{Signal, sigabrt, sigchld, sigint, sigquit, sigterm}

abbrev number_of : Signal → ℕ
number_of sigint = 2
number_of sigquit = 3
number_of sigabrt = 6
number_of sigterm = 15
number_of sigchld = 17

-- `sigismember`
unfoldable pub has_signal : Signal → List Signal → Bool
has_signal signal [] = false
has_signal signal (s ∷ set) = number_of s == number_of signal || has_signal signal set

-- The `sigset` of PeakworkDaemonProc, and that of WorkProc, to which nothing is added
abbrev pub daemon_sigset : List Signal
daemon_sigset = sigabrt ∷ sigchld ∷ sigterm ∷ sigint ∷ sigquit ∷ []

abbrev pub work_sigset : List Signal
work_sigset = []

-- What a process has blocked, and what was sent to it since and is blocked
pub record Masked : Type 0 where
  pub blocked : List Signal
  pub pending : List Signal

-- `sigprocmask(SIG_BLOCK, &sigset, …)`
block_signals : List Signal → Masked → Masked
block_signals set m = record m { blocked = set ++ m.blocked }

-- The child of `fork` keeps the mask, and nothing is pending for it.
forked : Masked → Masked
forked m = record m { pending = [] }

-- `sigwait` and `sigwaitinfo`: the first pending signal of the set
take_pending : List Signal → List Signal → Option Signal
unfolding has_signal
take_pending set [] = none
take_pending set (s ∷ pending) = if has_signal s set then some s else take_pending set pending

-- A process that waits goes on waiting, has taken a signal, or is ended by one.
pub data Waiting : Type 0 where
  waits : Masked → Waiting
  taken : Signal → Waiting
  ended_by : Signal → Waiting

-- A signal that is not blocked has its default action: SIGCHLD is ignored.
default_action : Signal → Masked → Waiting
default_action sigchld m = waits m
default_action signal m = ended_by signal

-- A signal that comes to a process that waits for a set
receive : List Signal → Signal → Masked → Waiting
unfolding take_pending default_action has_signal
receive set signal m =
    if has_signal signal m.blocked
    then elim (take_pending set (m.pending ++ signal ∷ [])) [
      | none ↦ waits (record m { pending = m.pending ++ signal ∷ [] })
      | some s ↦ taken s
    ]
    else default_action signal m

-- The signals that come, in their order, while the process waits for the set
unfoldable pub wait_for : List Signal → List Signal → Masked → Waiting
unfolding receive
wait_for set [] m = waits m
wait_for set (signal ∷ signals) m = elim (receive set signal m) [
  | waits m' ↦ wait_for set signals m'
  | taken s ↦ taken s
  | ended_by s ↦ ended_by s
]

-- The process of PeakworkDaemonProc behind its `sigprocmask`
unfoldable pub daemon_mask : Masked
unfolding block_signals
daemon_mask = block_signals daemon_sigset (record { blocked = []; pending = [] })

-- The worker that it forks, behind that of WorkProc
unfoldable pub work_mask : Masked
unfolding daemon_mask block_signals forked
work_mask = block_signals work_sigset (forked daemon_mask)

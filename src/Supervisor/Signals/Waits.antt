-- ===== src/Supervisor/Signals/Waits.antt =====
-- Which of the waits ever ends.
use iexapitest.Base.{List, [], none, refl, ◌++◌, ◌∷◌, ◌≡◌}
use iexapitest.Supervisor.{Signal, sigabrt, sigchld, sigint, sigquit, sigterm}
use iexapitest.Supervisor.Signals.{
  Masked, daemon_mask, daemon_sigset, has_signal, receive, take_pending, taken, wait_for, waits,
  work_mask, work_sigset,
}

-- Nothing is taken out of an empty set.
take_pending-none : (pending : List Signal) → take_pending work_sigset pending ≡ none
unfolding take_pending has_signal
take_pending-none [] = refl
take_pending-none (s ∷ pending) = take_pending-none pending

abbrev with_pending : List Signal → Masked
with_pending pending = record { blocked = daemon_sigset; pending = pending }

-- A signal that is blocked and not waited for stays pending.
receive-waits :
    (signal : Signal) (pending : List Signal)
    → receive work_sigset signal (with_pending pending)
      ≡ waits (with_pending (pending ++ signal ∷ []))
unfolding receive has_signal
receive-waits sigint pending = rw (take_pending-none (pending ++ sigint ∷ [])) refl
receive-waits sigquit pending = rw (take_pending-none (pending ++ sigquit ∷ [])) refl
receive-waits sigabrt pending = rw (take_pending-none (pending ++ sigabrt ∷ [])) refl
receive-waits sigterm pending = rw (take_pending-none (pending ++ sigterm ∷ [])) refl
receive-waits sigchld pending = rw (take_pending-none (pending ++ sigchld ∷ [])) refl

wait_for-waits :
    (signals pending : List Signal)
    → (m : Masked) × (wait_for work_sigset signals (with_pending pending) ≡ waits m)
unfolding wait_for
wait_for-waits [] pending = (with_pending pending, refl)
wait_for-waits (signal ∷ signals) pending =
    let (m, rest) = wait_for-waits signals (pending ++ signal ∷ []) in
    (m, rw (wait_for, receive-waits signal pending) rest)

daemon_takes : (signal : Signal) → receive daemon_sigset signal (with_pending []) ≡ taken signal
unfolding receive has_signal take_pending
daemon_takes sigint = refl
daemon_takes sigquit = refl
daemon_takes sigabrt = refl
daemon_takes sigterm = refl
daemon_takes sigchld = refl

-- Of the five signals that PeakworkDaemonProc blocks: its own process takes the first that comes. A
-- worker that it forks never gets past the wait in WorkProc, whichever of them come to it, SIGTERM
-- included, and is not ended by them either: the set it waits for is empty, and its mask is that of
-- its parent.
pub worker_waits_on :
    (signal : Signal) (signals : List Signal)
    → (wait_for daemon_sigset (signal ∷ signals) daemon_mask ≡ taken signal)
      × (m : Masked) × (wait_for work_sigset (signal ∷ signals) work_mask ≡ waits m)
unfolding wait_for daemon_mask work_mask
worker_waits_on signal signals =
    let (m, e) = wait_for-waits (signal ∷ signals) [] in
    (rw (wait_for, daemon_takes signal) refl, m, e)

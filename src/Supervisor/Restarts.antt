-- ===== src/Supervisor/Restarts.antt =====
-- A worker that ends for any other reason than NeedToTerminate is replaced.
use iexapitest.Base.{
  Bool, List, [], and_true, ap, arith, false, not, not_eq_true, refl, some, subst, suc, true, ℕ,
  ◌&&◌, ◌+◌, ◌==◌, ◌∙◌, ◌∷◌, ◌≡◌,
}
use iexapitest.Supervisor.{
  Answers, Forked, Signal, Supervisor, again, child, finish, fork_failed, handle_signal, in_child,
  in_parent, left, loop, loop_body, need_to_terminate, peakwork_daemon_proc, sigabrt, sigchld,
  sigint, sigquit, sigterm, started_by, started_up, waiting, wexitstatus, works,
}
use iexapitest.Supervisor.Workers.{Between, Follows, loop_body-Follows}

-- The answers after which a worker is started again: the fork failed, or the worker ended with
-- another status than NeedToTerminate.
unfoldable pub calls_again : Answers → Bool
calls_again a = elim a.fork [
  | fork_failed ↦ true
  | in_child ↦ false
  | in_parent pid ↦ elim a.signal [
    | sigchld ↦ not (wexitstatus a.wait_status == need_to_terminate)
    | _ ↦ false
  ]
]

unfoldable pub forked_workers : List Answers → ℕ
forked_workers [] = 0
forked_workers (a ∷ answers) = started_by a.fork (forked_workers answers)

unfoldable pub all_call_again : List Answers → Bool
unfolding calls_again
all_call_again [] = true
all_call_again (a ∷ answers) = calls_again a && all_call_again answers

abbrev GoesOn : Answers → Supervisor → Type 0
GoesOn a s =
    (s' : Supervisor) × (loop_body a s ≡ again s') × (s'.started ≡ started_by a.fork s.started)

loop_body-GoesOn :
    (opened : Bool) (f : Forked) (signal : Signal) (w : ℕ) (s : Supervisor)
    → Between opened s
    → calls_again (record { fork = f; signal = signal; wait_status = w }) ≡ true
    → GoesOn (record { fork = f; signal = signal; wait_status = w }) s
unfolding loop_body calls_again handle_signal
loop_body-GoesOn opened fork_failed signal w s (needs, _, _, _) h =
    (record s { need_start = true; pid = some fork_failed }, rw needs refl, refl)
loop_body-GoesOn opened in_child signal w s between h = cc
loop_body-GoesOn opened (in_parent pid) sigchld w s (needs, _, _, _) h = (
  record s {
    need_start = true;
    pid = some (in_parent pid);
    started = suc s.started;
    status = some (wexitstatus w);
    reaped = suc s.reaped;
  },
  rw (needs, not_eq_true (wexitstatus w == need_to_terminate) h) refl,
  refl,
)
loop_body-GoesOn opened (in_parent pid) sigquit w s between h = cc
loop_body-GoesOn opened (in_parent pid) sigint w s between h = cc
loop_body-GoesOn opened (in_parent pid) sigterm w s between h = cc
loop_body-GoesOn opened (in_parent pid) sigabrt w s between h = cc

started_by_comm : (f : Forked) (m n : ℕ) → m + started_by f n ≡ started_by f m + n
started_by_comm fork_failed m n = refl
started_by_comm in_child m n = refl
started_by_comm (in_parent pid) m n = omega arith

loop-again :
    (a : Answers) (answers : List Answers) (s s' : Supervisor)
    → loop_body a s ≡ again s'
    → loop (a ∷ answers) s ≡ loop answers s'
unfolding loop
loop-again a answers s s' e =
    ap (λ n. elim n [ again s2 ↦ loop answers s2 | left s2 ↦ finish s2 | works ↦ child ]) e

loop_restarts :
    (opened : Bool) (answers : List Answers) (s : Supervisor)
    → Between opened s
    → all_call_again answers ≡ true
    → (s' : Supervisor) × (loop answers s ≡ waiting s')
      × (s'.started ≡ forked_workers answers + s.started)
unfolding loop all_call_again forked_workers
loop_restarts opened [] s between h = (s, refl, omega arith)
loop_restarts opened (a ∷ answers) s between h =
    let (first, rest) = and_true (calls_again a) h in
    let (s1, e, count) = loop_body-GoesOn opened a.fork a.signal a.wait_status s between first in
    let between1 : Follows opened (again s1) =
      subst (Follows opened) e (loop_body-Follows opened a.fork a.signal a.wait_status s between) in
    let (s2, e2, count2) = loop_restarts opened answers s1 between1 rest in
    (
      s2,
      loop-again a answers s s1 e ∙ e2,
      count2
          ∙ ap (λ n. forked_workers answers + n) count
          ∙ started_by_comm a.fork (forked_workers answers) s.started,
    )

-- As long as every round's fork fails, or its worker ends with another status than NeedToTerminate,
-- the process does not return, and it has started one worker for each fork that succeeded.
pub peakwork_daemon_proc_restarts :
    (opened : Bool) (answers : List Answers)
    → all_call_again answers ≡ true
    → (s : Supervisor) × (peakwork_daemon_proc opened answers ≡ waiting s)
      × (s.started ≡ forked_workers answers)
unfolding peakwork_daemon_proc
peakwork_daemon_proc_restarts opened answers h =
    let (s, e, count) =
      loop_restarts opened answers (started_up opened) (refl, refl, refl, refl) h in
    (s, e, omega (arith, count))

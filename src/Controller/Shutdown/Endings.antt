-- ===== src/Controller/Shutdown/Endings.antt =====
-- Stop against UpdatePrices: what is never so, and that both come to their end.
use iexapitest.Base.{
  arith, false, inl, inr, not, refl, some, subst, suc, sym, true, zero, ℕ, ◌&&◌, ◌+◌, ◌<◌, ◌||◌,
  ◌∙◌, ◌≡◌, ◌≤◌, ◌⊎◌,
}
use iexapitest.Controller.Shutdown.{
  Shared, Step, Steps, StopPoint, UpdatePoint, at_config, at_join, at_lock, at_locker, at_notify,
  at_rpc_stop, at_scope_end, at_store, at_symbol, at_unlock, at_wait, at_while, ended, no_step,
  running, stop_step, stop_steps, stopped, then_step, update_step, update_steps, waiting,
}
use iexapitest.Controller.Shutdown.Invariant.{
  Falls, IsAllowed, Moves, has_ended, has_joined, has_stored, state_at, steps_left, stop_holds,
  stop_step-Moves, update_holds, update_step-Moves,
}

-- A state at two points that are allowed together
abbrev pub Placed : Shared → Type 0
Placed s = (p : StopPoint) × (u : UpdatePoint) × (s ≡ state_at p u) × IsAllowed p u

Step-Moves :
    (symbols : ℕ) (p : StopPoint) (u : UpdatePoint) (s' : Shared)
    → IsAllowed p u
    → Step symbols (state_at p u) s'
    → Moves p u (some s')
Step-Moves symbols p u s' h (stop_steps e) = subst (Moves p u) e (stop_step-Moves p u h)
Step-Moves symbols p u s' h (update_steps e) = subst (Moves p u) e (update_step-Moves symbols p u h)

Step-Placed : (symbols : ℕ) (s s' : Shared) → Placed s → Step symbols s s' → Placed s'
Step-Placed symbols s s' (p, u, e, h) step =
    let (p', u', e', h', falls) =
      Step-Moves symbols p u s' h (subst (λ x. Step symbols x s') e step) in
    (p', u', e', h')

Steps-Placed : (symbols k : ℕ) (s s' : Shared) → Placed s → Steps symbols s k s' → Placed s'
Steps-Placed symbols _ s _ h no_step = h
Steps-Placed symbols _ s s'' h (then_step steps step) =
    Step-Placed symbols _ s'' (Steps-Placed symbols _ s _ h steps) step

running-Placed : Placed running
running-Placed = (at_store, at_config, refl, (refl, refl))

-- In the states of two points some thread can go on, or both are through.
abbrev pub GoesOn : ℕ → Shared → Type 0
GoesOn symbols s =
    ((s.stopping ≡ stopped) × (s.updating ≡ ended)) ⊎ ((s' : Shared) × Step symbols s s')

through : (u : UpdatePoint) → has_ended u ≡ true → u ≡ ended
through at_config h = cc
through at_while h = cc
through (at_symbol k) h = cc
through at_locker h = cc
through at_wait h = cc
through waiting h = cc
through at_scope_end h = cc
through ended h = refl

state-GoesOn :
    (symbols : ℕ) (p : StopPoint) (u : UpdatePoint) → IsAllowed p u → GoesOn symbols (state_at p u)
unfolding stop_step update_step
state-GoesOn symbols at_store u h = inr (_, stop_steps refl)
state-GoesOn symbols at_lock at_wait h = inr (_, update_steps refl)
state-GoesOn symbols at_lock at_scope_end h = inr (_, update_steps refl)
state-GoesOn symbols at_lock at_config h = inr (_, stop_steps refl)
state-GoesOn symbols at_lock at_while h = inr (_, stop_steps refl)
state-GoesOn symbols at_lock (at_symbol k) h = inr (_, stop_steps refl)
state-GoesOn symbols at_lock at_locker h = inr (_, stop_steps refl)
state-GoesOn symbols at_lock waiting h = inr (_, stop_steps refl)
state-GoesOn symbols at_lock ended h = inr (_, stop_steps refl)
state-GoesOn symbols at_notify u h = inr (_, stop_steps refl)
state-GoesOn symbols at_unlock u h = inr (_, stop_steps refl)
state-GoesOn symbols at_join at_config h = inr (_, update_steps refl)
state-GoesOn symbols at_join at_while h = inr (_, update_steps refl)
state-GoesOn symbols at_join (at_symbol zero) h = inr (_, update_steps refl)
state-GoesOn symbols at_join (at_symbol (suc k)) h = inr (_, update_steps refl)
state-GoesOn symbols at_join at_locker h = inr (_, update_steps refl)
state-GoesOn symbols at_join at_wait h = inr (_, update_steps refl)
state-GoesOn symbols at_join waiting h = inr (_, update_steps refl)
state-GoesOn symbols at_join at_scope_end h = inr (_, update_steps refl)
state-GoesOn symbols at_join ended h = inr (_, stop_steps refl)
state-GoesOn symbols at_rpc_stop u h = inr (_, stop_steps refl)
state-GoesOn symbols stopped u (apart, joined) = inl (refl, through u joined)

-- Any number of steps of the two threads, in any order, from the call of Stop on: never do both hold
-- the mutex; Stop is behind its join only when UpdatePrices has ended; the flag is set exactly from
-- the first step of Stop on; and unless both threads are through, one of them can take a step.
pub shutdown_safe :
    (symbols k : ℕ) (s : Shared)
    → Steps symbols running k s
    → ((stop_holds s.stopping && update_holds s.updating) ≡ false)
      × ((not (has_joined s.stopping) || has_ended s.updating) ≡ true)
      × (s.stop_flag ≡ has_stored s.stopping)
      × GoesOn symbols s
shutdown_safe symbols k s steps =
    let (p, u, e, (apart, joined)) = Steps-Placed symbols k running s running-Placed steps in
    subst
      (λ x.
        ((stop_holds x.stopping && update_holds x.updating) ≡ false)
        × ((not (has_joined x.stopping) || has_ended x.updating) ≡ true)
        × (x.stop_flag ≡ has_stored x.stopping)
        × GoesOn symbols x)
      (sym e) (apart, joined, refl, state-GoesOn symbols p u (apart, joined))

-- A step behind the flag keeps it and leaves fewer steps.
Step-Falls :
    (symbols : ℕ) (p : StopPoint) (u : UpdatePoint) (s' : Shared)
    → IsAllowed p u
    → has_stored p ≡ true
    → Step symbols (state_at p u) s'
    → (has_stored s'.stopping ≡ true) × (steps_left s'.stopping s'.updating < steps_left p u)
Step-Falls symbols p u s' h stored step =
    let (p', u', e, h', falls) = Step-Moves symbols p u s' h step in
    subst
      (λ x. (has_stored x.stopping ≡ true) × (steps_left x.stopping x.updating < steps_left p u))
      (sym e)
      (subst (λ b. Falls b (has_stored p') (steps_left p u) (steps_left p' u')) stored falls)

abbrev pub left_of : Shared → ℕ
left_of s = steps_left s.stopping s.updating

Placed-Falls :
    (symbols : ℕ) (s s' : Shared)
    → Placed s
    → has_stored s.stopping ≡ true
    → Step symbols s s'
    → (has_stored s'.stopping ≡ true) × (left_of s' < left_of s)
Placed-Falls symbols s s' (p, u, e, h) =
    subst
      (λ x.
        has_stored x.stopping ≡ true
        → Step symbols x s'
        → (has_stored s'.stopping ≡ true) × (left_of s' < left_of x))
      (sym e) (Step-Falls symbols p u s' h)

Steps-Falls :
    (symbols k : ℕ) (s s' : Shared)
    → Placed s
    → has_stored s.stopping ≡ true
    → Steps symbols s k s'
    → (has_stored s'.stopping ≡ true) × (k + left_of s' ≤ left_of s)
Steps-Falls symbols _ s _ h stored no_step = (stored, omega arith)
Steps-Falls symbols _ s s'' h stored (then_step steps step) =
    let (stored', falls) = Steps-Falls symbols _ s _ h stored steps in
    let (stored'', less) =
      Placed-Falls symbols _ s'' (Steps-Placed symbols _ s _ h steps) stored' step in
    (stored'', omega arith)

-- From any state that the two threads reach once Stop has stored the flag: every run takes no more
-- steps than left_of counts for that state, and wherever it has come to, some thread can go on unless
-- Stop has returned and UpdatePrices has ended. So Stop returns, in whatever order the threads run, if
-- each request does.
pub stop_returns :
    (symbols j k : ℕ) (s s' : Shared)
    → Steps symbols running j s
    → s.stop_flag ≡ true
    → Steps symbols s k s'
    → (k + left_of s' ≤ left_of s) × GoesOn symbols s'
stop_returns symbols j k s s' reached set steps =
    let (apart, joined, flag, on) = shutdown_safe symbols j s reached in
    let h = Steps-Placed symbols j running s running-Placed reached in
    let (stored, bound) = Steps-Falls symbols k s s' h (sym flag ∙ set) steps in
    let (p, u, e, h') = Steps-Placed symbols k s s' h steps in
    (bound, subst (GoesOn symbols) (sym e) (state-GoesOn symbols p u h'))

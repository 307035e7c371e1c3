-- ===== src/Controller/Shutdown/Invariant.antt =====
-- What holds in every state that the two threads can reach.
use iexapitest.Base.{
  Bool, Bool-cases, Option, arith, false, inl, inr, none, not, refl, some, suc, true, zero, ℕ, ◌&&◌,
  ◌+◌, ◌<◌, ◌==◌, ◌||◌, ◌≡◌,
}
use iexapitest.Controller.Shutdown.{
  Shared, StopPoint, Thread, UpdatePoint, at_config, at_join, at_lock, at_locker, at_notify,
  at_rpc_stop, at_scope_end, at_store, at_symbol, at_unlock, at_wait, at_while, ended, stop_step,
  stopped, stopper, update_step, updater, waiting,
}

abbrev pub has_stored : StopPoint → Bool
has_stored at_store = false
has_stored _ = true

abbrev pub has_joined : StopPoint → Bool
has_joined at_rpc_stop = true
has_joined stopped = true
has_joined _ = false

abbrev pub stop_holds : StopPoint → Bool
stop_holds at_notify = true
stop_holds at_unlock = true
stop_holds _ = false

abbrev pub update_holds : UpdatePoint → Bool
update_holds at_wait = true
update_holds at_scope_end = true
update_holds _ = false

abbrev pub has_ended : UpdatePoint → Bool
has_ended ended = true
has_ended _ = false

abbrev holder_of : Bool → Bool → Option Thread
holder_of true u = some stopper
holder_of false true = some updater
holder_of false false = none

-- The state, by where the two threads are
abbrev pub state_at : StopPoint → UpdatePoint → Shared
state_at p u = record {
  stop_flag = has_stored p;
  mtx = holder_of (stop_holds p) (update_holds u);
  stopping = p;
  updating = u;
}

-- Not both hold the mutex, and who has joined has waited for the end.
abbrev pub IsAllowed : StopPoint → UpdatePoint → Type 0
IsAllowed p u =
    ((stop_holds p && update_holds u) ≡ false) × ((not (has_joined p) || has_ended u) ≡ true)

-- How many steps each thread has left at most, once the flag is stored
abbrev pub stop_left : StopPoint → ℕ
stop_left at_store = 6
stop_left at_lock = 5
stop_left at_notify = 4
stop_left at_unlock = 3
stop_left at_join = 2
stop_left at_rpc_stop = 1
stop_left stopped = 0

abbrev pub update_left : UpdatePoint → ℕ
update_left at_config = 2
update_left at_while = 1
update_left (at_symbol k) = 5 + k
update_left at_locker = 4
update_left at_wait = 3
update_left waiting = 3
update_left at_scope_end = 2
update_left ended = 0

abbrev pub steps_left : StopPoint → UpdatePoint → ℕ
steps_left p u = stop_left p + update_left u

-- With the flag stored, it stays, and fewer steps are left.
abbrev pub Falls : Bool → Bool → ℕ → ℕ → Type 0
Falls false b n m = Unit {0}
Falls true b n m = (b ≡ true) × (m < n)

-- From the state at two points, a step leads to a state at two such points.
abbrev pub Moves : StopPoint → UpdatePoint → Option Shared → Type 0
Moves p u none = Unit {0}
Moves p u (some s') =
    (p' : StopPoint) × (u' : UpdatePoint) × (s' ≡ state_at p' u')
    × IsAllowed p' u'
    × Falls (has_stored p) (has_stored p') (steps_left p u) (steps_left p' u')

pub stop_step-Moves :
    (p : StopPoint) (u : UpdatePoint) → IsAllowed p u → Moves p u (stop_step (state_at p u))
unfolding stop_step
stop_step-Moves at_store u h = (at_lock, u, refl, (refl, refl), tt)
stop_step-Moves at_lock u h = elim (Bool-cases (update_holds u)) [
  | inl e ↦ rw e tt
  | inr e ↦ rw e (at_notify, u, refl, (e, refl), (refl, omega arith))
]
stop_step-Moves at_notify u (apart, joined) =
    (at_unlock, u, refl, (apart, refl), (refl, omega arith))
stop_step-Moves at_unlock u (apart, joined) =
    (at_join, u, rw apart refl, (refl, refl), (refl, omega arith))
stop_step-Moves at_join at_config h = tt
stop_step-Moves at_join at_while h = tt
stop_step-Moves at_join (at_symbol k) h = tt
stop_step-Moves at_join at_locker h = tt
stop_step-Moves at_join at_wait h = tt
stop_step-Moves at_join waiting h = tt
stop_step-Moves at_join at_scope_end h = tt
stop_step-Moves at_join ended h = (at_rpc_stop, ended, refl, (refl, refl), (refl, omega arith))
stop_step-Moves at_rpc_stop u (apart, joined) =
    (stopped, u, refl, (refl, joined), (refl, omega arith))
stop_step-Moves stopped u h = tt

Falls-same : (p : StopPoint) (n m : ℕ) → m < n → Falls (has_stored p) (has_stored p) n m
Falls-same p n m less = elim (Bool-cases (has_stored p)) [
  | inl e ↦ rw e (refl, less)
  | inr e ↦ rw e tt
]

-- Where the updater goes on without the mutex
quiet :
    (p : StopPoint) (u u' : UpdatePoint)
    → has_ended u ≡ false
    → update_holds u' ≡ false
    → update_left u' < update_left u
    → IsAllowed p u
    → IsAllowed p u' × Falls (has_stored p) (has_stored p) (steps_left p u) (steps_left p u')
quiet p u u' going free less (apart, joined) = (
  (
    elim (Bool-cases (stop_holds p)) [ inl e ↦ rw (e, free) refl | inr e ↦ rw e refl ],
    elim (Bool-cases (has_joined p)) [
      | inl e ↦
          let stays : (not (has_joined p) || has_ended u) ≡ false = rw (e, going) refl in absurd cc
      | inr e ↦ rw e refl
    ],
  ),
  Falls-same p (steps_left p u) (steps_left p u') (omega arith),
)

not_both : (b : Bool) → (b && true) ≡ false → b ≡ false
not_both true h = h
not_both false h = h

pub update_step-Moves :
    (symbols : ℕ) (p : StopPoint) (u : UpdatePoint)
    → IsAllowed p u
    → Moves p u (update_step symbols (state_at p u))
unfolding update_step
update_step-Moves symbols p at_config h = elim (Bool-cases (symbols == 0)) [
  | inl e ↦
      (let (allowed, falls) = quiet p at_config ended refl refl (omega arith) h in
        (p, ended, rw e refl, allowed, falls))
  | inr e ↦
      (let (allowed, falls) = quiet p at_config at_while refl refl (omega arith) h in
        (p, at_while, rw e refl, allowed, falls))
]
update_step-Moves symbols p at_while h = elim (Bool-cases (has_stored p)) [
  | inl e ↦
      (let (allowed, falls) = quiet p at_while ended refl refl (omega arith) h in
        (p, ended, rw e refl, allowed, falls))
  | inr e ↦ (p, at_symbol symbols, rw e refl, h, rw e tt)
]
update_step-Moves symbols p (at_symbol zero) h =
    (let (allowed, falls) = quiet p (at_symbol zero) at_locker refl refl (omega arith) h in
      (p, at_locker, refl, allowed, falls))
update_step-Moves symbols p (at_symbol (suc k)) h =
    (let (allowed, falls) = quiet p (at_symbol (suc k)) (at_symbol k) refl refl (omega arith) h in
      (p, at_symbol k, refl, allowed, falls))
update_step-Moves symbols p at_locker h = elim (Bool-cases (stop_holds p)) [
  | inl e ↦ rw e tt
  | inr e ↦ rw e (
    p,
    at_wait,
    rw e refl,
    (rw e refl, h.1),
    Falls-same p (steps_left p at_locker) (steps_left p at_wait) (omega arith),
  )
]
update_step-Moves symbols p at_wait h = elim (Bool-cases (has_stored p)) [
  | inl e ↦ (
    p,
    at_scope_end,
    rw e refl,
    h,
    Falls-same p (steps_left p at_wait) (steps_left p at_scope_end) (omega arith),
  )
  | inr e ↦ (
    p,
    waiting,
    rw (e, not_both (stop_holds p) h.0) refl,
    (rw (not_both (stop_holds p) h.0) refl, h.1),
    rw e tt,
  )
]
update_step-Moves symbols p waiting h = elim (Bool-cases (stop_holds p)) [
  | inl e ↦ rw e tt
  | inr e ↦ rw e (
    p,
    at_scope_end,
    rw e refl,
    (rw e refl, h.1),
    Falls-same p (steps_left p waiting) (steps_left p at_scope_end) (omega arith),
  )
]
update_step-Moves symbols p at_scope_end h =
    (let (allowed, falls) = quiet p at_scope_end at_while refl refl (omega arith) h in
      (p, at_while, rw (not_both (stop_holds p) h.0) refl, allowed, falls))
update_step-Moves symbols p ended h = tt

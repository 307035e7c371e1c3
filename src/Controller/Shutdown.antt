-- ===== src/Controller/Shutdown.antt =====
-- src/controller.cpp: Stop in one thread against UpdatePrices in its own, step by step: the atomic
-- stopFlag, the mutex, the wait of no time on the condition variable, and join. A request about a
-- symbol is one step, which returns.
pub mod Invariant
pub mod Endings
use iexapitest.Base.{Bool, Option, false, if◌then◌else◌, none, some, suc, true, zero, ℕ, ◌==◌, ◌≡◌}

-- Where Stop is. `at_notify` and `at_unlock` hold the mutex.
pub data StopPoint : Type 0 where
  at_store at_lock at_notify at_unlock at_join at_rpc_stop stopped : StopPoint

-- Where UpdatePrices is: `at_symbol k` has k symbols of the round before it. `at_wait`, with the test
-- of the predicate, and `at_scope_end` hold the mutex; `waiting` has released it.
pub data UpdatePoint : Type 0 where
  at_config at_while : UpdatePoint
  at_symbol : ℕ → UpdatePoint
  at_locker at_wait waiting at_scope_end ended : UpdatePoint

pub data Thread : Type 0 where
  stopper updater : Thread

-- `mtx` is who holds the mutex.
pub record Shared : Type 0 where
  pub stop_flag : Bool
  pub mtx : Option Thread
  pub stopping : StopPoint
  pub updating : UpdatePoint

-- Right behind Start, when Stop is called
abbrev pub running : Shared
running = record { stop_flag = false; mtx = none; stopping = at_store; updating = at_config }

-- Locking the mutex waits until nobody holds it.
when_free : Option Thread → Shared → Option Shared
when_free none s = some s
when_free (some thread) s = none

-- `join` waits until the thread has ended.
when_ended : UpdatePoint → Shared → Option Shared
when_ended ended s = some s
when_ended _ s = none

-- The next step of Stop; `none` where it has to wait or has returned. Who waits on the condition
-- variable goes on by itself, so `notify_one` changes nothing.
stop_from : StopPoint → Shared → Option Shared
unfolding when_free when_ended
stop_from at_store s = some (record s { stop_flag = true; stopping = at_lock })
stop_from at_lock s = when_free s.mtx (record s { mtx = some stopper; stopping = at_notify })
stop_from at_notify s = some (record s { stopping = at_unlock })
stop_from at_unlock s = some (record s { mtx = none; stopping = at_join })
stop_from at_join s = when_ended s.updating (record s { stopping = at_rpc_stop })
stop_from at_rpc_stop s = some (record s { stopping = stopped })
stop_from stopped s = none

unfoldable pub stop_step : Shared → Option Shared
unfolding stop_from
stop_step s = stop_from s.stopping s

-- The next step of UpdatePrices, for a number of symbols
update_from : ℕ → UpdatePoint → Shared → Option Shared
unfolding when_free
update_from symbols at_config s =
    some (record s { updating = if symbols == 0 then ended else at_while })
update_from symbols at_while s =
    some (record s { updating = if s.stop_flag then ended else at_symbol symbols })
update_from symbols (at_symbol zero) s = some (record s { updating = at_locker })
update_from symbols (at_symbol (suc k)) s = some (record s { updating = at_symbol k })
update_from symbols at_locker s =
    when_free s.mtx (record s { mtx = some updater; updating = at_wait })
update_from symbols at_wait s = some (
    if s.stop_flag
    then record s { updating = at_scope_end }
    else record s { mtx = none; updating = waiting })
update_from symbols waiting s =
    when_free s.mtx (record s { mtx = some updater; updating = at_scope_end })
update_from symbols at_scope_end s = some (record s { mtx = none; updating = at_while })
update_from symbols ended s = none

unfoldable pub update_step : ℕ → Shared → Option Shared
unfolding update_from
update_step symbols s = update_from symbols s.updating s

-- One step of either thread
pub data Step (symbols : ℕ) (s s' : Shared) : Type 0 where
  stop_steps : stop_step s ≡ some s' → Step symbols s s'
  update_steps : update_step symbols s ≡ some s' → Step symbols s s'

-- A run of so many steps
pub data Steps (symbols : ℕ) : Shared → ℕ → Shared → Type 0 where
  no_step : {s : Shared} → Steps symbols s 0 s
  then_step :
      {s s' s'' : Shared} {k : ℕ}
      → Steps symbols s k s'
      → Step symbols s' s''
      → Steps symbols s (suc k) s''

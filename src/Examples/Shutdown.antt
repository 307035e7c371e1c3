-- ===== src/Examples/Shutdown.antt =====
-- src/controller.cpp: Stop during a round of UpdatePrices.
use iexapitest.Base.{false, none, not, refl, some, true, ◌&&◌, ◌+◌, ◌||◌, ◌≡◌, ◌≤◌}
use iexapitest.Controller.Shutdown.{
  Shared, Steps, at_lock, at_notify, at_symbol, no_step, running, stop_step, stop_steps, stopper,
  then_step, update_step, update_steps,
}
use iexapitest.Controller.Shutdown.Endings.{GoesOn, left_of, shutdown_safe, stop_returns}
use iexapitest.Controller.Shutdown.Invariant.{
  has_ended, has_joined, has_stored, stop_holds, update_holds,
}

-- The flag is stored when one symbol is still to come.
abbrev flagged : Shared
flagged = record { stop_flag = true; mtx = none; stopping = at_lock; updating = at_symbol 1 }

abbrev locked : Shared
locked = record {
  stop_flag = true;
  mtx = some stopper;
  stopping = at_notify;
  updating = at_symbol 0;
}

flagged_reached : Steps 1 running 3 flagged
unfolding stop_step update_step
flagged_reached =
    then_step (then_step (then_step no_step (update_steps refl)) (update_steps refl))
      (stop_steps refl)

locked_reached : Steps 1 flagged 2 locked
unfolding stop_step update_step
locked_reached = then_step (then_step no_step (stop_steps refl)) (update_steps refl)

shutdown_safe_example :
    ((stop_holds flagged.stopping && update_holds flagged.updating) ≡ false)
    × ((not (has_joined flagged.stopping) || has_ended flagged.updating) ≡ true)
    × (flagged.stop_flag ≡ has_stored flagged.stopping)
    × GoesOn 1 flagged
shutdown_safe_example = shutdown_safe 1 3 flagged flagged_reached

stop_returns_example : (2 + left_of locked ≤ left_of flagged) × GoesOn 1 locked
stop_returns_example = stop_returns 1 3 2 flagged locked flagged_reached refl locked_reached

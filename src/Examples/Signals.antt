-- ===== src/Examples/Signals.antt =====
-- src/main.cpp when the daemon is told to stop.
use iexapitest.Base.{[], ◌∷◌, ◌≡◌}
use iexapitest.Supervisor.{sigint, sigterm}
use iexapitest.Supervisor.Signals.{
  Masked, daemon_mask, daemon_sigset, taken, wait_for, waits, work_mask, work_sigset,
}
use iexapitest.Supervisor.Signals.Waits.{worker_waits_on}

worker_waits_on_example :
    (wait_for daemon_sigset (sigterm ∷ sigint ∷ []) daemon_mask ≡ taken sigterm)
    × (m : Masked) × (wait_for work_sigset (sigterm ∷ sigint ∷ []) work_mask ≡ waits m)
worker_waits_on_example = worker_waits_on sigterm (sigint ∷ [])

-- ===== src/Controller/Life.antt =====
-- src/controller.cpp: Start, Stop and the destructor. Joining the thread of UpdatePrices waits for it; how that comes to its end is
-- a matter of Controller/Shutdown.
pub mod Calls
use iexapitest.Base.{
  Bool, Exception, Exec, List, Option, [], codes, err, false, foreign, halt, if◌then◌else◌, ok,
  pure, some, terminated, true, uncaught, ℕ, ◌>>◌, ◌∷◌,
}
use iexapitest.Rpc.Service.{RpcService, new_service, start_rpc, stop_rpc}

-- `update_prices_thr` says whether that thread is joinable.
pub record Controller : Type 0 where
  pub rpc_service : RpcService
  pub update_prices_thr : Bool
  pub stop_flag : Bool

abbrev pub new_controller : Controller
new_controller = record { rpc_service = new_service; update_prices_thr = false; stop_flag = false }

-- The std::system_error of joining a thread that is none
abbrev pub no_thread : Exception
no_thread = foreign (codes "Invalid argument")

on_rpc : Exec RpcService (Unit {0}) → Exec Controller (Unit {0})
on_rpc m c = let (r, s) = m c.rpc_service in (r, record c { rpc_service = s })

set_stop_flag : Bool → Exec Controller (Unit {0})
set_stop_flag b c = (ok tt, record c { stop_flag = b })

-- `updatePricesThr = thread(…)`: assigning to a thread that still runs ends the process.
make_thread : Exec Controller (Unit {0})
make_thread c =
    if c.update_prices_thr
    then (halt terminated, c)
    else (ok tt, record c { update_prices_thr = true })

-- `updatePricesThr.join()`
join_thread : Exec Controller (Unit {0})
join_thread c =
    if c.update_prices_thr
    then (ok tt, record c { update_prices_thr = false })
    else (err no_thread, c)

-- `Start`; `self` is the handler, and `built` what gRPC builds.
unfoldable pub start_controller : ℕ → Option ℕ → Exec Controller (Unit {0})
unfolding on_rpc set_stop_flag make_thread
start_controller self built =
    set_stop_flag false >> on_rpc (start_rpc (some self) built) >> make_thread

unfoldable pub stop_controller : Exec Controller (Unit {0})
unfolding on_rpc set_stop_flag join_thread
stop_controller = set_stop_flag true >> join_thread >> on_rpc stop_rpc

-- `~Controller`
unfoldable pub destroy_controller : Exec Controller (Unit {0})
unfolding stop_controller
destroy_controller = uncaught stop_controller

-- A call from outside
pub data LifeCall : Type 0 where
  opened : Option ℕ → LifeCall
  closed : LifeCall

unfoldable pub drive : ℕ → List LifeCall → Exec Controller (Unit {0})
unfolding start_controller stop_controller
drive self [] = pure tt
drive self (opened built ∷ calls) = start_controller self built >> drive self calls
drive self (closed ∷ calls) = stop_controller >> drive self calls

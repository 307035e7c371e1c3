-- ===== src/Controller/Life/Calls.antt =====
-- Which sequences of Start and Stop the Controller bears.
use iexapitest.Base.{
  Bool, List, Option, Result, [], err, false, halt, ok, refl, subst, sym, terminated, true, ℕ, ◌∷◌,
  ◌≡◌,
}
use iexapitest.Controller.Life.{
  Controller, LifeCall, closed, drive, no_thread, opened, start_controller, stop_controller,
}
use iexapitest.Rpc.Service.{PeakworkServiceImpl, start_rpc, stop_rpc}

-- What becomes of the calls, from a Controller that does or does not run: they must alternate.
unfoldable pub verdict : Bool → List LifeCall → Result (Unit {0}) × Bool
verdict running [] = (ok tt, running)
verdict false (opened built ∷ calls) = verdict true calls
verdict true (opened built ∷ calls) = (halt terminated, true)
verdict true (closed ∷ calls) = verdict false calls
verdict false (closed ∷ calls) = (err no_thread, false)

-- What the verdict says of a run
abbrev Follows : Result (Unit {0}) × Controller → Result (Unit {0}) × Bool → Type 0
Follows (r, c) (r', running) =
    (r ≡ r') × (c.update_prices_thr ≡ running) × (c.rpc_service.is_started ≡ running)

abbrev controller_at :
    Option ℕ
    → Option PeakworkServiceImpl
    → List PeakworkServiceImpl
    → List ℕ
    → Bool
    → Bool
    → Bool
    → Controller
controller_at user server leaked shut_down flag on running = record {
  rpc_service = record {
    user_handler = user;
    grpc_server = server;
    is_started = on;
    leaked = leaked;
    shut_down = shut_down;
  };
  update_prices_thr = running;
  stop_flag = flag;
}

drive-Follows :
    (self : ℕ) (calls : List LifeCall) (user : Option ℕ) (server : Option PeakworkServiceImpl)
    (leaked : List PeakworkServiceImpl) (shut_down : List ℕ) (flag running : Bool)
    → Follows
        (drive self calls (controller_at user server leaked shut_down flag running running))
        (verdict running calls)
unfolding drive verdict start_controller stop_controller start_rpc stop_rpc
drive-Follows self [] user server leaked shut_down flag running = (refl, refl, refl)
drive-Follows self (opened built ∷ calls) user server leaked shut_down flag true =
    (refl, refl, refl)
drive-Follows self (opened built ∷ calls) user server leaked shut_down flag false =
    drive-Follows self calls _ _ _ _ _ true
drive-Follows self (closed ∷ calls) user server leaked shut_down flag true =
    drive-Follows self calls _ _ _ _ _ false
drive-Follows self (closed ∷ calls) user server leaked shut_down flag false = (refl, refl, refl)

-- Over any sequence of Start and Stop on a Controller whose gRPC service is on exactly if its thread
-- runs: as long as they alternate all return; the first Start of a running Controller ends the process,
-- and the first Stop of one that does not run throws. At the end the service is on exactly if the
-- thread runs.
pub drive_lem :
    (self : ℕ) (calls : List LifeCall) (c : Controller)
    → c.rpc_service.is_started ≡ c.update_prices_thr
    → let (r, c') = drive self calls c in
      let (r', running) = verdict c.update_prices_thr calls in
      (r ≡ r') × (c'.update_prices_thr ≡ running) × (c'.rpc_service.is_started ≡ running)
drive_lem self calls c e =
    let s = c.rpc_service in
    subst
      (λ on.
        Follows
          (drive self calls (
            controller_at s.user_handler s.grpc_server s.leaked s.shut_down c.stop_flag on
              c.update_prices_thr))
          (verdict c.update_prices_thr calls))
      (sym e)
      (drive-Follows self calls s.user_handler s.grpc_server s.leaked s.shut_down c.stop_flag
        c.update_prices_thr)

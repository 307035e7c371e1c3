-- ===== src/Rpc/Service/Calls.antt =====
-- What becomes of the servers over any sequence of calls.
use iexapitest.Base.{
  Bool, List, Option, Result, [], arith, false, if◌then◌else◌, length, none, ok, refl, some, suc,
  true, ℕ, ◌+◌, ◌∷◌, ◌≡◌,
}
use iexapitest.Rpc.Service.{
  Call, PeakworkServiceImpl, RpcService, call_all, new_service, released, starts, stopped_servers,
  stops,
}

abbrev pub owned : Option PeakworkServiceImpl → ℕ
owned none = 0
owned (some impl) = 1

-- The calls that made a server object, from a state where one is or is not started.
unfoldable pub starts_made : Bool → List Call → ℕ
starts_made on [] = 0
starts_made true (starts handler built ∷ calls) = starts_made true calls
starts_made false (starts handler built ∷ calls) = suc (starts_made true calls)
starts_made on (stops ∷ calls) = starts_made false calls

-- The flag says whether there is a server object, and none was shut down.
abbrev pub Consistent : RpcService → Type 0
Consistent s = (owned s.grpc_server ≡ (if s.is_started then 1 else 0)) × (s.shut_down ≡ [])

abbrev pub Kept : RpcService → ℕ → Result (Unit {0}) × RpcService → Type 0
Kept s n (r, s') =
    (r ≡ ok tt)
    × Consistent s'
    × (length s'.leaked + owned s'.grpc_server ≡ n + (length s.leaked + owned s.grpc_server))

length-released :
    (g : Option PeakworkServiceImpl) (leaked : List PeakworkServiceImpl)
    → length (released g leaked) + 0 ≡ length leaked + owned g
unfolding released
length-released none leaked = refl
length-released (some impl) leaked = omega arith

call_all-Kept :
    (calls : List Call) (u : Option ℕ) (g : Option PeakworkServiceImpl) (on : Bool)
    (leaked : List PeakworkServiceImpl)
    → owned g ≡ (if on then 1 else 0)
    → let s : RpcService = record {
      user_handler = u;
      grpc_server = g;
      is_started = on;
      leaked = leaked;
      shut_down = [];
    } in
      Kept s (starts_made on calls) (call_all calls s)
unfolding call_all starts_made stopped_servers
call_all-Kept [] u g on leaked flag = (refl, (flag, refl), omega arith)
call_all-Kept (starts handler built ∷ calls) u g true leaked flag =
    call_all-Kept calls u g true leaked flag
call_all-Kept (starts handler built ∷ calls) u none false leaked flag =
    let (ran, good, count) =
      call_all-Kept calls (some handler) (some (record { server = built; handler = handler })) true
        leaked refl in
    (ran, good, omega (arith, count))
call_all-Kept (starts handler built ∷ calls) u (some impl) false leaked flag = absurd (omega arith)
call_all-Kept (stops ∷ calls) u g on leaked flag =
    let (ran, good, count) = call_all-Kept calls none none false (released g leaked) refl in
    (ran, good, omega (arith, count, length-released g leaked))

-- Whatever calls of Start, with a handler, and of Stop come: every call returns, the flag says whether
-- there is a server object, and there are as many objects as calls of Start while none was started:
-- the present one, and those that nothing points to any more. No server is shut down, not by Stop
-- either.
pub call_all_lem :
    (calls : List Call)
    → let (r, s) = call_all calls new_service in
      (r ≡ ok tt) × Consistent s × (length s.leaked + owned s.grpc_server ≡ starts_made false calls)
call_all_lem calls =
    let (ran, good, count) = call_all-Kept calls none none false [] refl in
    (ran, good, omega (arith, count))

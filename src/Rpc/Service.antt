-- ===== src/Rpc/Service.antt =====
-- rpc/rpc.cpp, Start and Stop, and the same of rpc/grpc/peakwork_server.cpp. Handlers and gRPC
-- servers are numbers; a pointer that may be null is an Option.
pub mod Calls
use iexapitest.Base.{
  Bool, Exec, List, Option, [], assertion, false, halt, if◌then◌else◌, none, ok, pure, some, true,
  ℕ, ◌++◌, ◌>>◌, ◌∷◌,
}

pub record PeakworkServiceImpl : Type 0 where
  pub server : Option ℕ
  pub handler : ℕ

-- The members of RPCService, the service objects that no pointer owns any more, and the servers that
-- were shut down.
pub record RpcService : Type 0 where
  pub user_handler : Option ℕ
  pub grpc_server : Option PeakworkServiceImpl
  pub is_started : Bool
  pub leaked : List PeakworkServiceImpl
  pub shut_down : List ℕ

-- `PeakworkServiceImpl::Stop`, which its destructor calls: the servers that it shuts down
stopped_servers : Option PeakworkServiceImpl → List ℕ
stopped_servers none = []
stopped_servers (some impl) = elim impl.server [ none ↦ [] | some server ↦ server ∷ [] ]

-- `grpcServer.reset(new PeakworkServiceImpl(userHandler))` and `grpcServer->Start()`, where `built` is
-- the result of `BuildAndStart`
start_server : Option ℕ → Option ℕ → Exec RpcService (Unit {0})
unfolding stopped_servers
start_server none built s = (halt assertion, record s { user_handler = none })
start_server (some handler) built s = (
  ok tt,
  record s {
    user_handler = some handler;
    grpc_server = some (record { server = built; handler = handler });
    is_started = true;
    shut_down = stopped_servers s.grpc_server ++ s.shut_down;
  },
)

-- `RPCService::Start`
unfoldable pub start_rpc : Option ℕ → Option ℕ → Exec RpcService (Unit {0})
unfolding start_server
start_rpc peakwork_service_handler built s =
    if s.is_started then (ok tt, s) else start_server peakwork_service_handler built s

-- What `release` gives up
released : Option PeakworkServiceImpl → List PeakworkServiceImpl → List PeakworkServiceImpl
released none leaked = leaked
released (some impl) leaked = impl ∷ leaked

-- `RPCService::Stop`
unfoldable pub stop_rpc : Exec RpcService (Unit {0})
unfolding released
stop_rpc s = (
  ok tt,
  record s {
    leaked = released s.grpc_server s.leaked;
    grpc_server = none;
    user_handler = none;
    is_started = false;
  },
)

abbrev pub new_service : RpcService
new_service = record {
  user_handler = none;
  grpc_server = none;
  is_started = false;
  leaked = [];
  shut_down = [];
}

-- A call of the service, with what gRPC answers.
pub data Call : Type 0 where
  starts : ℕ → Option ℕ → Call
  stops : Call

unfoldable pub call_all : List Call → Exec RpcService (Unit {0})
unfolding start_rpc stop_rpc
call_all [] = pure tt
call_all (starts handler built ∷ calls) = start_rpc (some handler) built >> call_all calls
call_all (stops ∷ calls) = stop_rpc >> call_all calls

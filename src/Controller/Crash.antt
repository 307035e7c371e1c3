-- ===== src/Controller/Crash.antt =====
-- src/main.cpp: SignalError, which WorkProc makes the handler of SIGFPE, SIGSEGV and SIGBUS.
pub mod Exits
use iexapitest.Base.{
  Bool, Exec, List, Option, Result, Text, [], codes, drop, err, false, halt, map, none, ok, pure,
  some, true, undefined, ℕ, ◌++◌, ◌>>◌, ◌∷◌,
}
use iexapitest.Supervisor.{need_to_work}
use iexapitest.Controller.Life.{Controller, stop_controller}

pub data Level : Type 0 where
  log_err log_info log_debug : Level

abbrev pub LogEntry : Type 0
LogEntry = Level × Text

-- What the system says of the signal: its name and address, the frames that `backtrace` finds (16 at
-- most), the address of the error, and `backtrace_symbols`, `none` for a null pointer.
pub record Signaled : Type 0 where
  pub name : Text
  pub address : Text
  pub frames : List ℕ
  pub error_addr : ℕ
  pub symbols : List ℕ → Option (List Text)

-- The globals of the worker. `on_updates` says that the signal came to the thread of UpdatePrices.
pub record Process : Type 0 where
  pub dmn : Option Controller
  pub on_updates : Bool
  pub syslog : List LogEntry

-- `trace[1] = errorAddr`
replace_second : ℕ → List ℕ → List ℕ
replace_second a (first ∷ second ∷ rest) = first ∷ a ∷ rest
replace_second a trace = trace

-- `for (x = 1; x < traceSize; x++)`
backtrace_entries : Option (List Text) → List LogEntry
backtrace_entries none = []
backtrace_entries (some messages) =
    (log_debug, codes "== Backtrace ==\n")
    ∷ (map (λ message. (log_debug, message ++ codes "\n")) (drop 1 messages)
        ++ (log_debug, codes "== End Backtrace ==\n") ∷ [])

-- The entries of the log, in their order
unfoldable pub crash_entries : Signaled → List LogEntry
unfolding replace_second backtrace_entries
crash_entries s =
    (
      log_err,
      codes "[PeakworkDaemon] Signal: "
          ++ (s.name ++ (codes ", Addr: " ++ (s.address ++ codes "\n"))),
    )
    ∷ (backtrace_entries (s.symbols (replace_second s.error_addr s.frames))
        ++ (log_info, codes "[PeakworkDaemon] Stopped\n") ∷ [])

write_log : List LogEntry → Exec Process (Unit {0})
write_log entries p = (ok tt, record p { syslog = p.syslog ++ entries })

-- An exception that leaves the handler
unless_thrown : Result (Unit {0}) → Result (Unit {0})
unless_thrown (ok a) = ok a
unless_thrown (err e) = halt undefined
unless_thrown (halt f) = halt f

-- `dmn->Stop()`, where `join` throws in the thread that it would wait for
stop_dmn : Option Controller → Bool → Exec Process (Unit {0})
unfolding unless_thrown
stop_dmn none on_updates p = (halt undefined, p)
stop_dmn (some c) true p = (halt undefined, record p { dmn = some (record c { stop_flag = true }) })
stop_dmn (some c) false p =
    let (r, c') = stop_controller c in (unless_thrown r, record p { dmn = some c' })

-- `dmn.release()`
release_dmn : Exec Process (Unit {0})
release_dmn p = (ok tt, record p { dmn = none })

-- `SignalError`: the status that it exits with. `exit` destroys `dmn`, which holds nothing then.
unfoldable pub signal_error : Signaled → Exec Process ℕ
unfolding crash_entries write_log stop_dmn release_dmn
signal_error s =
    write_log (crash_entries s)
    >> (λ p. stop_dmn p.dmn p.on_updates p)
    >> release_dmn
    >> pure need_to_work

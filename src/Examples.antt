-- ===== src/Examples.antt =====
-- Runs of the model, and each result at an input that meets its hypotheses.
mod Calls
mod Common
mod Config
mod Controller
mod Memory
mod Database
mod Disk
mod Trees
mod Filesystem
mod Requests
mod Rpc
mod Server
mod Shutdown
mod Signals
mod Supervisor
mod Http

-- ===== src/Config/Daemon/Startup.antt =====
-- What the daemon's configuration holds after start-up, where the trees that it writes can be written.
use iexapitest.Config.PropertyTree.{PropertyTree}
use iexapitest.Config.Store.{Config}

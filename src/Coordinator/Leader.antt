-- ===== src/Coordinator/Leader.antt =====
-- coordinator/service.go, CreateDKGSession: the session and the node that is told to start.
use go_mpc_wallet.Storage.World.{World}
use go_mpc_wallet.Session.Types.{Session}
use go_mpc_wallet.Session.Manager.{Manager}

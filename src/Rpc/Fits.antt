-- ===== src/Rpc/Fits.antt =====
-- grpc/server.go, StartSign: the number of nodes of a signing.
use go_mpc_wallet.Base.{◌≤◌, ◌≡◌, ◌⊎◌, ◌↔◌, true, false, length, arith}
use go_mpc_wallet.Storage.World.{Redis}
use go_mpc_wallet.Signing.Types.{StartSign}
use go_mpc_wallet.Rpc.Types.{Engines, Config, Server}
use go_mpc_wallet.Rpc.Server.{start_sign, too_few, too_many}

-- At least the threshold, and no more than the total number, where one is given.
unfoldable pub IsFitting : StartSign → Type 0
IsFitting req =
    (req.threshold ≤ length req.node_ids)
    × ((req.total_nodes ≡ 0) ⊎ (length req.node_ids ≤ req.total_nodes))

guards-IsFitting : (req : StartSign) → too_few req ≡ false → too_many req ≡ false → IsFitting req
unfolding IsFitting too_few too_many
guards-IsFitting req few many = ground arith

IsFitting-guards :
    (req : StartSign) → IsFitting req → (too_few req ≡ false) × (too_many req ≡ false)
unfolding IsFitting too_few too_many
IsFitting-guards req fits = ground arith

module _ {R : Redis} {E : Engines R} (c : Config E) where
  -- StartSign answers that the signing is started just when the request names at least the
  -- threshold of nodes, and no more than the total number, if it gives one; else it changes
  -- nothing.
  pub start_sign-started :
      (req : StartSign) (s : Server E)
      → (((start_sign c req s).0.started ≡ true) ↔ IsFitting req)
        × ((start_sign c req s).0.started ≡ false → (start_sign c req s).1 ≡ s)
  unfolding start_sign
  start_sign-started req s = (
    (
      λ begun. guards-IsFitting req (ground arith) (ground arith),
      λ fits. ground (arith, IsFitting-guards req fits),
    ),
    λ refused. ground arith,
  )

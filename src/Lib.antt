-- ===== src/Lib.antt =====
-- go-mpc-wallet: the services of a wallet whose keys are shared among nodes.
--
-- Keys, nodes and sessions are rows of a PostgreSQL database; Redis caches the sessions. The session
-- manager opens, joins, completes, cancels and times out the sessions of key generation and signing;
-- the key service keeps the keys' metadata; the nodes are found in the database and in Consul; the
-- signing service ties these together. At a node, the gRPC server starts the protocol engines, which
-- run key generation and signing with the tss-lib library; the coordinator opens the sessions and tells
-- the first node to start. The key shares lie in encrypted files.
--
-- Files, with the code that they are about (paths from the repository's root):
--   Base/*              shared helpers: Boolean tests, lists, maps, integers, sorting, hexadecimal text
--   Storage/Types       internal/mpc/storage/interface.go: the records of the stores
--   Storage/World       the state that all operations pass on: the tables, the cache, the clock, and
--                       the fates of the calls to come; the monad of the operations
--   Storage/Postgres    internal/mpc/storage/postgresql.go: the statements on rows, and the store
--   Storage/Cache       internal/mpc/storage/redis.go: the cache of sessions, and the locks
--   Storage/Laws, Rows  what a call does when it succeeds, and what it leaves alone
--   Session/Types       internal/mpc/session/types.go
--   Session/Manager     internal/mpc/session/manager.go: CreateSession is create_session, and so on
--   Session/Progress    internal/mpc/session/store.go: SaveRoundProgress, LoadRoundProgress
--   Session/Log         internal/mpc/session/store.go: AppendWAL, ReplayWAL
--   Session/*           the proofs about them, one file for each operation
--   Key/Types, Service  internal/mpc/key/types.go, service.go; the other files of Key are proofs
--   Node/Types          internal/mpc/node/types.go, internal/mpc/discovery/types.go
--   Node/Consul         internal/mpc/discovery/consul.go, service.go
--   Node/Manager        internal/mpc/node/manager.go, registry.go
--   Node/Discovery      internal/mpc/node/discovery.go
--   Node/*              the proofs about them
--   Signing/Types       internal/mpc/signing/types.go
--   Signing/Protocol, Service, Batch
--                       internal/mpc/signing/service.go; Polling and Verified are proofs
--   Signing/Signer      internal/mpc/signing/threshold_sign.go
--   Protocol/Types, Registry
--                       internal/mpc/protocol/types.go, engine.go
--   Protocol/Bytes, Encoding
--                       internal/mpc/protocol/tss_adapter.go: keys, shares and signatures as bytes;
--                       Widths and Der are proofs, Der with a reader of the encoding
--   Protocol/Requests, Gg18, Frost, Verify
--                       internal/mpc/protocol/gg18.go, gg20.go, frost.go; Run is the monad of the
--                       engines' operations; Restart, Supported, FrostKeys and
--                       Judged are proofs
--   Protocol/Parties, Keygen
--                       internal/mpc/protocol/tss_adapter.go: setupPartyIDs, getPartyIDs,
--                       executeKeygen, ProcessIncomingKeygenMessage; Queues and Stuck are proofs
--   Rpc/Types, Tasks, Server, Steps
--                       internal/mpc/grpc/server.go: the handlers, their goroutines, and what
--                       happens at a server in any order; Effect, Once, Again, Fits and Endings
--                       are proofs
--   Coordinator/Service internal/mpc/coordinator/service.go; Leader is a proof
--   Chain/Address       internal/mpc/chain/ethereum.go, bitcoin.go: GenerateAddress
--   Participant         internal/mpc/participant/service.go, protocol_participant.go
--   Shares/Files        internal/mpc/storage/key_share_storage.go; RoundTrip is a proof
--   Shares/Distribute   internal/mpc/key/dkg.go: DistributeKeyShares, RecoverKeyShare; Spread is a
--                       proof
--   Key/Dkg             internal/mpc/key/dkg.go: ExecuteDKG
--   Tests/*             a Redis server as a list, concrete states, and the theorems applied to them
--
-- An operation takes a state and gives an outcome and a state, after an error too. A part of a Go
-- function that follows a lookup or a check is a definition of its own. Other processes, the leader's
-- RPC and Consul are parameters; so are, for the services that call them, the engines, the store of key
-- shares and the chains' adapters, which have models of their own. tss-lib, the ciphers, the hashes and
-- the curves are parameters throughout. Any database call may be refused, or take effect without an answer. Two
-- operations do not interleave, but for the goroutines of a batch, and for what happens while the
-- signing service sleeps.
--
-- A goroutine of the gRPC server runs as one step, between other steps in any order. A key generation in
-- the party manager is a sequence of steps between its critical sections: it finds no instance, gets its
-- party, registers its instance, makes its queue, takes messages, and ends or is given up. Other steps
-- come in between, but no second key generation of the same key, which the sync.Once of StartDKG keeps
-- away. The log of a session keeps pointers, as numbers, into a heap of the callers' records.
--
-- Bounds: a session is saved in at most 3 attempts, as in the source. The polling loop has fuel for 151
-- turns: it waits 2 seconds in each but the last, and the deadline is 5 minutes away. Times and counts
-- are natural numbers; a duration that may be negative is an integer. A time is counted in
-- microseconds, what the columns of the tables keep; Go's clock, and the copies in Redis, also have
-- nanoseconds, so that a time read back from a row may differ from the one in memory or in Redis. A port is printed with up to 19
-- digits, enough for 64 bits. A coordinate or a share of the curve is written with at most 64 bytes, twice
-- what the curve needs.
--
-- Not modelled: the rounds of tss-lib and the routing of its messages, the signing runs of the party
-- manager, the client of the gRPC transport, the HTTP API, Redis channels, logging and metrics.
pub mod Base
pub mod Storage
pub mod Session
pub mod Key
pub mod Node
pub mod Signing
pub mod Protocol
pub mod Rpc
pub mod Coordinator
pub mod Chain
pub mod Participant
pub mod Shares
pub mod Tests

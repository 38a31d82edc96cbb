-- ===== src/Lib.antt =====
-- architect-networking: the daemon that keeps the NAT state of two conduit instances in step and
-- moves the network from one to the other.
--
-- The parts. A node is primary or secondary. A primary serves its NAT state over fRPC; a secondary
-- fetches it and writes it to its own conduit. Three loops run on a node: the election loop asks EC2
-- who has the shared IP, the role management loop makes the transitions, and a secondary's heartbeat
-- monitor asks for the promotion when it hears nothing. A promotion takes the IP over, moves floating
-- IPs and points route tables at the new network interface.
--
-- Which file models what:
--   Config: `LeaderConfig.Validate` of pkg/failover/leader.go and `Config.Validate` of
--     pkg/failover/failover.go.
--   Message: the NAT state of pkg/client/client.go and the messages of pkg/failover/failover.frpc.go;
--     Message/Codec: their `Encode` and `decode`, and the server's and the client's side of the call.
--   Sync: `SyncState`, `syncFromPrimary` and `applySyncedState` of pkg/failover/leader.go;
--     Sync/Mirror: `syncNATState` of pkg/failover/failover.go; Sync/Loop: `secondarySyncLoop`;
--     Sync/Wire: a whole synchronisation with its bytes.
--   Node: the struct `LeaderFailover`, one operation or one round of a loop at a time. Node/Heartbeat:
--     `Heartbeat`, `HealthCheck`, `heartbeatMonitorLoop`; Node/Roles: `cleanup`, `becomePrimary`,
--     `becomeSecondary`, `transitionToRole`, `roleManagementLoop`; Node/Election:
--     `leaderElectionLoop`; Node/Shutdown: `NewLeaderFailover`, `Start`, `Stop` and
--     `runLeaderFailoverCmd` of cmd/failover/failover.go.
--   Calls: the tables of waiting calls of the client in pkg/failover/failover.frpc.go, as a step
--     relation.
--   Api: the data of pkg/client/client.go beside the NAT state; Api/Rules: the JSON of the firewall
--     rules. Http: the client of pkg/client/client.go; Http/Build and Http/Requests: the `New…Request`
--     functions; Http/Calls: the methods of `Client`; Http/Answers and Http/Responses: the parsers and
--     the methods of `ClientWithResponses`; Http/Conduit: the client as Sync sees it.
--   Mirror: `New` and the loop of `Start` of pkg/failover/failover.go.
--   System: the goroutines of one node in any order of their steps, as a step relation;
--     System/Refinement: the role and connection that a node shows, as a small machine.
--   Aws: pkg/failover/aws.go, and in Aws/Actions `executeFailoverActions` of pkg/failover/leader.go.
--   Base: tests, lists, integers and texts that the rest shares. Tests: concrete data and runs.
--
-- State and effects. A Go pointer is an `Option`; a nil dereference or a second close of a channel
-- is the result `panic`. Errors are values. uint16, uint32 and uint8 are numbers with the bounds
-- written out where they matter; durations are integers of nanoseconds, and `time.Since` stops at
-- the largest one. The polyglot buffers, the frisbee connection, the conduit behind its socket,
-- EC2, the clock and `net.ParseIP` are parameters; so are the libraries of the HTTP client, the
-- record `Web`; the laws assumed of polyglot are those of `IsLawful`.
--
-- Bounds. The poll of `WaitForENIOwnership` runs for as many rounds as its context leaves it, which is
-- an argument; nothing else needs fuel. A decimal number has at most twenty digits, enough for a Go
-- `int`.
--
-- Not modelled: logging; the goroutine manager of pkg/failover/failover.go, another package's;
-- net/url, net/http, encoding/json and the oapi-codegen runtime below the client of
-- pkg/client/client.go; flags and configuration files.
pub mod Base
pub mod Config
pub mod Message
pub mod Sync
pub mod Node
pub mod System
pub mod Aws
pub mod Calls
pub mod Api
pub mod Http
pub mod Mirror
mod Tests

-- ===== src/Lib.antt =====
-- gordion-vpn: a mesh VPN of three gRPC services and an agent. The identity service registers nodes
-- and issues tokens, the config service hands out VPN addresses and network settings, the discovery
-- service keeps the peers that are online, and the agent on each node talks to the three through
-- circuit breakers and relays WireGuard packets to its peers.
--
-- Base, Base/Tests, Base/Lists, Base/Bytes, Base/Int, Base/Decimal: shared names; Go strings as
--   lists of bytes; the wrap-around of `int32`; numbers in decimal. `digits` has fuel for ten
--   rounds where it prints an `int32`, which has at most ten digits, and for twenty elsewhere, as
--   many as 64 bits take.
-- Grpc: status codes, errors as the tree of the calls that built them, results.
-- Redis: the interface of the Redis commands that the services use, with the laws of their
--   documented behaviour over a connection that may lose commands or answers; Redis/Store is a
--   server in memory, which Redis/Memory shows to meet them. Redis is a parameter of all that uses
--   it.
-- Breaker: pkg/circuitbreaker/circuitbreaker.go. `allow` is `Allow`, split into `allow_begin` and
--   `allow_end` at the point where `transition` releases the mutex; Breaker/Race interleaves
--   goroutines there.
-- Limiter: pkg/ratelimit/ratelimit.go.
-- Allocator: services/config/internal/allocator/allocator.go over IPv4; Allocator/Ip has the bytes
--   of addresses, Allocator/Search the loop of `findAvailableIP`. The loop runs on fuel, one round
--   for each address of the network and one to see its end; that is enough for every prefix but /0.
--   Allocator/Long is about networks whose first address tried lies outside.
-- Auth: pkg/auth/client.go and interceptor.go, and `resolveNodeID` of the two handlers that ask the
--   identity service about a token. That call is a parameter.
-- ConfigService: services/config/internal/grpc/handler.go, over Allocator and Auth;
--   ConfigService/Server is the loop of cmd/server/main.go that reloads the configuration.
-- Registry: services/discovery/internal/registry/registry.go over Redis. `register`, `heartbeat`
--   and the others are the methods; `list_members` is the loop of `ListOnlinePeers`, `exist_all`
--   and `sweep` the two phases of `CleanupStale`; Registry/Cleaner is the loop of
--   services/discovery/cmd/server/main.go that calls it.
-- Discovery: services/discovery/internal/grpc/handler.go, over Registry and Auth;
--   Discovery/Matcher is internal/matcher/matcher.go, with the random choice a parameter.
-- Identity: services/identity/internal/service/identity.go and internal/storage/postgres.go, with
--   the tables as lists and each query as its SQL; Identity/Handler is internal/grpc/handler.go.
--   The JWT library is a parameter.
-- Bridge: services/agent/internal/p2p/bridge.go, the table of relays; Bridge/Table has the
--   invariant of the table, Bridge/Relays the calls in any sequence; Bridge/Framing has the
--   packets on a stream. A reader that has more fuel than bytes on the stream reads to its end,
--   since each packet takes the two bytes of its header.
-- WireGuard: services/agent/internal/wireguard/wireguard.go, the text of the configuration and the
--   commands; WireGuard/Keys is keygen.go.
-- Agent: services/agent/internal/agent/agent.go, `syncPeers`, `retryRegister` and the back-off of
--   `heartbeatLoop`; Agent/Start has `Start` and `Stop` as the list of what they do, Agent/Ends what
--   that leaves open where calls fail, Agent/Beat `heartbeatLoop` over the discovery service that it
--   calls, and Agent/Refresh `tokenRefreshLoop`.
--   The calls of the services, WireGuard and libp2p are parameters elsewhere.
-- Server: the chain of interceptors that every call of a service goes through, that is
--   pkg/tracing, pkg/middleware, the `MetricsInterceptor` of services/*/internal/grpc and the
--   Limiter; Server/Trace has the contexts, Server/Health pkg/healthcheck and pkg/grpcutil,
--   Server/Startup the start of services/*/cmd/server/main.go with pkg/tlsutil and `NewClient` of
--   pkg/auth, and Server/Stop their end.
-- P2p: services/agent/internal/p2p/host.go over libp2p.
-- Client: services/agent/internal/client/client.go, each call through the breaker of its service;
--   Client/Through has the way of one call through `Execute`, and of several, and Client/Dial the
--   connections.
-- Gateway: services/agent/internal/gateway/gateway.go, and the texts that cli/cmd/peers.go and
--   cli/cmd/status.go make of times; Gateway/Linux is linux.go, over the rules of the kernel, and
--   Gateway/Systems the commands of darwin.go and windows.go.
-- Settings: services/agent/internal/config/config.go; Settings/Cli is cli/internal/cliconfig, and
--   Settings/Servers the services/*/internal/config and pkg/config. YAML and the environment are
--   parameters.
-- Cli: cli/internal/state and the commands up, down, restart, status and exit-node over the state
--   file and the processes that run, with the agent's updateCLIState; `up` is `up_begin` and
--   `up_end`, since the agent runs between them. Cli/Commands has those but up. Cli/Text and
--   Cli/Follow have cli/cmd/logs.go, Cli/Paths what up looks for, Cli/Peers cli/cmd/peers.go, the
--   list of exit nodes and cli/internal/grpcclient, Cli/Doctor cli/cmd/doctor.go, Cli/Status the
--   output of cli/cmd/status.go, and Cli/Init cli/cmd/init.go.
--
-- Bounds: `int` and `int32` counters are natural numbers where they stay far below their limit, and
-- the text at the top of a file says why. Instants and durations are natural numbers.
-- Not modelled: the loops of the agent as goroutines that share it, and the product of a duration and
-- 0.8 in floating point, which is a parameter; libp2p; what the commands of the gateway do on macOS
-- and Windows; the generated protobuf code; the logger, which passes texts on; and the help and the
-- styles of the command line, which only print.
pub mod Agent
pub mod Allocator
pub mod Auth
pub mod Base
pub mod Breaker
pub mod Bridge
pub mod Cli
pub mod Client
pub mod ConfigService
pub mod Discovery
pub mod Gateway
pub mod Grpc
pub mod Identity
pub mod Limiter
pub mod P2p
pub mod Redis
pub mod Registry
pub mod Server
pub mod Settings
pub mod WireGuard

-- ===== src/Lib.antt =====
-- The codo Go SDK: configuration, error codes, transports, clients, logging and network helpers.
--
-- Go strings and byte slices are lists of bytes, and `utf8` gives the bytes of a literal. Numbers
-- are natural numbers or integers with the width written out. `Go` has what is used of Go's standard
-- library: package strings on bytes (the tables of Unicode are a parameter, read only where a text
-- is not ASCII), the queries of package net/url, the encoding base 64, package strconv in base ten
-- with its values beside errors, and maps as association lists, with `Go/Order` for what is left of
-- one when the order is forgotten. Third-party libraries, the clock, the environment and the network
-- are arguments.
--
-- The parts and their files:
--   config/config.go: `Config/Value` is what reflection sees (kinds, tags, structs, pointers,
--     slices); `Config/Env` is LoadEnv with parseEnv, setField and setSliceField, `Config/Flags`
--     is parseFlagStruct and `Config/Flags/Pflag` parsePFlagStruct, over a flag set that is a
--     parameter, `Config/Flags/Either` has what they share, `Config/SliceValue` is sliceValue.Set,
--     `Config/Load` is LoadConfig and LoadYaml, `Config/Load/Flags` LoadFlag and LoadPFlag, and
--     `Config/Json` is Marshal and Unmarshal. A walk returns the fields as they stand when it
--     ends, also beside an error. All fields are exported, and two pointers are never shared.
--   cerr/cerr.go: `Cerr/Code` has the codes and tables, `Cerr/Registry` the registry, and
--     `Cerr/Errors` CodeError and the errors around it.
--   transport/chttp/http.go and transport/cgrpc/grpc.go: `Transport/Chttp`, `Transport/Cgrpc`.
--     They carry a CodeError between processes.
--   xnet/xip/ip.go: `Xip`. The interfaces of the host are arguments.
--   logger/*.go: `Logger/Level`, `Logger/Std`, `Logger/Zap`, `Logger/Helper`, `Logger/Global`. A
--     panic is `none`.
--   mysql/mysql.go, redis/redis.go, kafka/kafka.go: `Defaults` has the closure emptyOr, the
--     numeric settings and durations, and a child for each package with its settings and what it
--     hands to its library.
--   tools/cascmd: `Cas` has MemoryImpl.CAS and RedisImpl.CAS, the latter as steps on a store
--     that is a parameter; `Cas/Alone` compares them, `Cas/Race` has two calls at once,
--     `Cas/Command` is the interface that both fill, and `Cas/Clients` and `Cas/Lock` have clients
--     that use it as a lock.
--   middleware/xsign.middleware.go, tools/xsgin/sign.v3.go: `Xsign` signs requests and checks
--     them; MD5 and the clock are parameters.
--   client/xvm: `Xvm` has the results, `Xvm/Query` the options of QueryRange and the reading of
--     a response, `Xvm/Request` the whole of QueryRange and Query, up to the client that sends.
--   client/xhttp: `Xhttp` has ParseProxy, headerToMap and strLimit, `Xhttp/Do` has Do, and
--     `Xhttp/Client` has NewClient.
--   k2/k2.go, idip, xnet/xtls/ssl_pinning.go: `K2` with `K2/OverHttp`, where its client is that
--     of `Xhttp/Do`, and `Idip`, `Xtls`.
--   consts/consts.go: `Consts` has the type ErrorCode.
--   adapter/kratos/transport/websocket: `Websocket` has the read loop over what the connection
--     answers, `Websocket/Chain` the middleware chain, `Websocket/Write` the write loop,
--     `Websocket/Connection` handleConnections, `Websocket/Session` its two loops side by side,
--     with what happens at the same time and the panics of the connection in
--     `Websocket/Session/Run`, `Websocket/Options` the options, `Websocket/Json` unmarshalJSON,
--     and `Websocket/Server` is server.go.
--   adapter/kratos/discovery/etcd: `Discovery` has the values of etcd, `Discovery/Registry`
--     Register and Deregister, `Discovery/Heartbeat` heartBeat one step at a time,
--     `Discovery/Watcher` the watcher, `Discovery/Prefix` what a lookup by prefix finds,
--     `Discovery/Undiscovered` what becomes of a value that is no JSON, `Discovery/Options` the
--     options of New, and `Discovery/Cluster` a Registry with its heartbeats and the store of etcd
--     as a step relation. adapter/kratos/discovery/dummy is `Discovery/Dummy`.
--
-- Loops are recursions on lists, on the structure of a value, or on the list of what a loop
-- meets; what runs side by side is a step relation or a list of turns. The decimal print has as fuel
-- n + 1 for the number n, which `Go/Number/Decimal` shows to be enough by reading the print back.
--
-- Not modelled: the Parse methods of the flag packages, of which a load takes what they write;
-- the YAML, JSON and protobuf libraries, zap and the instruments of OpenTelemetry, which are
-- parameters where a result depends on them; adapter/kratos/middleware/ktracing, a copy of the
-- middleware of go-kratos; generated code; and named constants that no code of the SDK reads.
mod Common
pub mod Go
pub mod Config
pub mod Cerr
pub mod Transport
pub mod Xip
pub mod Defaults
pub mod Logger
pub mod Cas
pub mod Xsign
pub mod Xvm
pub mod Xhttp
pub mod Websocket
pub mod Discovery
pub mod K2
pub mod Idip
pub mod Xtls
pub mod Consts
pub mod Examples

-- ===== src/Lib.antt =====
-- A model of the QuakeMesh hub, of the core packages it stands on and of the monitor's accounts,
-- events, logins and bans, with the theorems about them.
--
-- Hubs flood originator messages over UDP, learn routes and neighbours from them, keep what they
-- learn in an SQLite database, gossip parts of it to peer hubs, and hold bundles for nodes that are
-- away. Nodes on a hub's local network report to it by HTTP and by beacons, apps on the hub's node
-- talk to its daemon, and monitors follow its events. The files follow the packages:
--   Storage   core/storage: the rows, statements that may fail, and transactions; Migrations (migrate,
--             applyMigration)
--   Registry  hub/internal/registry: Nodes (UpsertSeen, UpdateProfile, UpdateLocation,
--             MarkStaleBefore, Nodes, MergeGossipNode), Routes (UpsertRoute, Routes, GetRoute,
--             DeleteRoutesViaNextHop), Hubs (UpsertHubSeen, MarkHubsStaleBefore,
--             Hubs, SetHubManualLocation), Relays (ListRelayHubs, UpsertGossipRelay)
--   Routing   core/routing: ComputeTQ, Cost, Better, PathTQ
--   Trust     core/trust: Score (Compute) and Store
--   Metrics   core/metrics: Record
--   Ogm       hub/internal/ogmengine: State (Config, Engine, messages), Flood (sending),
--             Choice (maybeUpsertRoute, storeAlternate), Receive (handlePacket and what it calls),
--             Stale (staleSweepLoop, staleProbeLoop, failoverRoutes)
--   Dtn       core/dtn (Queue) and hub/internal/dtnengine (Engine)
--   Bans      core/banlist
--   Apps      core/apppresence
--   Sync      hub/internal/syncengine: Wire (messages, Config, Engine), Outgoing (buildMessage),
--             Incoming (apply and the body of receiveLoop)
--   Settings  hub/internal/configstore (Get, Set, GetBool, SetBool) and hub/internal/fallback (poll,
--             Enabled)
--   Daemon    hub/internal/daemonapi: Apps (handleRegister, handleDiscoverPeers), Mail (DeliverLocal,
--             handleSend, handleReceive), Topics (handlePublish, handleSubscribe), Calls (the routes)
--   Lan       core/lancontext, with Location (core/location), Segments (core/lansegments), Heartbeat
--             (hub/internal/nodeheartbeat), Beacon (core/lanbeacon) and Discovery
--             (hub/internal/landiscovery)
--   Management hub/internal/managementapi
--   Hub       hub/internal/hubapp: Start, Close, registerSelfHub, signPendingProposals, portFromAddr
--   Monitor   monitor/internal: Auth (auth), Client (hubclient), Feed (sosfeed),
--             Server (server: logins and the guard of the pages), Banning (the
--             ban list of datastore)
--   Base      lists, texts, numbers, maps and tables that all of them share
--   Tests     the theorems at concrete inputs
-- A module below one of these holds theorems about it.
--
-- A function of the source is a function of the model with the same name in lower case. Where the
-- source goes on after a call that may fail, the continuation is a function of its own (record_seen,
-- node_seen, merge_found). A store's method is a function from a database to a result and a database;
-- an engine's handler is a function from its state to its state, where the state has the database
-- and the list of what was sent and of the calls of handlers. The engines share the database by
-- passing it on. Handlers hold a mutex or run on one connection, so that each is one step; steps of
-- several engines that interleave are not modelled.
--
-- A database is its tables with a schedule that says which of its statements fail, so that a theorem
-- without a Healthy hypothesis holds whatever fails. A statement that fails changes nothing, and a
-- transaction that fails is rolled back. A table is the list of its rows; a listing without ORDER BY
-- has the order of the list, and rows that tie in an ORDER BY stand in some order. A nil slice is a
-- NULL to database/sql, and a NaN that is stored as a position seen, gossiped or estimated a NULL to
-- SQLite. Ids are the numbers that their bytes spell; a byte slice is its length and
-- such a number; a text is the list of its bytes. Times in milliseconds are counted from the least
-- int64, times in an engine are nanoseconds; a handler reads the clock once. uint32 and uint64
-- counters wrap around; int is not bounded. A float64 is its bit pattern, with the operations of the
-- language and of package math as a record FloatOps: a theorem names the laws it uses (Comparisons,
-- Shares), and Base.Float gives a stand-in, fixed-point thousandths, in which they hold. The iteration
-- order of a Go map is that of the list that models it, so a theorem holds of every order.
-- net.ResolveUDPAddr (Config.resolves), strconv (Conversion), protobuf (Codec), JSON, hex, base64,
-- sha256 and bcrypt are parameters too. All recursion is on lists, so there is no fuel.
--
-- An HTTP handler is a function from the server and a request to a response and the server, where the
-- request holds its body as the decoder gives it, or, in Monitor.Server, the decoder is a parameter.
-- What the source does in several steps of its own
-- that other steps can come between is several functions: a subscription to a topic begins and ends,
-- and a login reads the clock twice. A channel with a buffer is the list of what waits in it. A map
-- without an entry for a topic and one with an empty entry are not told apart. Part of the daemon's
-- state is the DTN engine that it sends with, and the database of both.
--
-- Not modelled: sockets, WebSockets, tickers, logs, SQLite itself, generated code, the scripts of the
-- migrations, the detection of the network, the handlers that print the configuration (sniff), and
-- the packages simnet, noise, identity, hubdb and relayprobe, the monitor's datastore but its bans, the
-- pages of its server, which read tables, sdk, apps and android.
pub mod Base
pub mod Storage
pub mod Registry
pub mod Routing
pub mod Trust
pub mod Metrics
pub mod Ogm
pub mod Dtn
pub mod Bans
pub mod Apps
pub mod Sync
pub mod Settings
pub mod Daemon
pub mod Lan
pub mod Management
pub mod Hub
pub mod Monitor
pub mod Tests

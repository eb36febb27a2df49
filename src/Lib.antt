-- ===== src/Lib.antt =====
-- efir is a messenger of Go services. This library models their handlers, services, repositories and
-- the traffic between them, and shows what makes them correct.
--
-- The parts. A client's requests reach the services through the gateway (services/gateway), which
-- checks who asks and calls them over gRPC. The room service (services/room) keeps rooms and their
-- members in a database and publishes events about them. The message service (services/message)
-- asks it who is a member, and keeps the messages. The auth service (services/auth) keeps accounts
-- in a database, and refresh tokens and rate limits in Valkey. The user service (services/user)
-- keeps profiles, created from the auth service's events. The WebSocket service
-- (services/websocket) reads the events of the message and room services from the bus and passes
-- them on to the connections of its hub; a connection is admitted by a ticket of the gateway.
--
-- The files.
-- - Prelude and its children: the names of the libraries, tests, lists, searches and maps.
-- - Exec: how a method runs. Each of its calls to the database, the cache, another service or the
--   bus is served, or refused, or carried out with the reply lost, as a list of outcomes says; Exec/Ends
--   has the rules for what holds however a method ends, Exec/Returns for what holds if it returns.
-- - WsConn: services/websocket/internal/handler/ws.go, the buffer of wsConnWrapper.
-- - Hub: services/websocket/internal/hub/hub.go. `add_conn`, `remove_conn`, `disconnect_all`,
--   `send_to_room` and `get_room_user_count` are addConn and so on; Hub/Actor has the requests and
--   Run, whose history is the list of the requests in the order in which the loop takes them.
-- - Ws/Session, Ws/Admission and Ws/System: the rest of services/websocket/internal/handler/ws.go, with
--   the hub's channels. HandleWS is `handle_ws` and `accept_conn`; the pumps are cut into atomic
--   steps, and a list of actions is one interleaving of all goroutines. Ws/Events:
--   services/websocket/internal/subscriber/events.go. `through_proxy` is the location of
--   infra/nginx/nginx.conf for WebSocket connections.
-- - Room/Types, Room/Repository and Room/Service: services/room/internal/repository/room.go and
--   service/room.go, a definition for each method. The service copies the repository's records field
--   by field (toRoom, toMember), so they are one type here. Room/Handler: the gRPC methods of
--   services/room/internal/handler. Room/Publisher: services/room/internal/nats/publisher.go.
-- - Message/Types, Content, Repository, Mapper and Service: the same for services/message/internal,
--   where Mapper has the copies of service/mapper.go. Its
--   handler is Message/Handler, for a request's content and the codes of errors, and Message/Methods,
--   for the gRPC methods; Message/Client is client/room.go, where `with_retry` is withRetry, and
--   Message/Publisher is nats/publisher.go.
-- - Auth/Types, Repository, Service and Handler: services/auth/internal, with
--   services/shared/pkg/valkey/scripts.go.
-- - User/Types, Repository, Service and Handler: services/user/internal; User/Subscriber is its
--   nats/subscriber.go, and Auth/Publisher the auth service's nats/publisher.go.
-- - Gateway: services/gateway/internal. Gateway/Http is handler/handler.go and the way of a gRPC call;
--   Gateway/Access is middleware, and Gateway/Limiter its rate limiter on the counters of Valkey;
--   Tickets, Sessions, Rooms, Messages and Users are the endpoints of handler/wsauth, auth, room,
--   message and user. An endpoint is a function of the request's parts and of its service's tables, so
--   the services' own methods run behind it.
-- - Shared/Errors, Json, Tickets and Nats: services/shared/pkg/errors/errors.go, the objects on the bus,
--   the tickets' keys (valkey/keys.go), and nats/nats.go. Shared/Interceptors: middleware/middleware.go.
-- - Ws/Delivery and User/Registration: several services and the bus between them.
-- - Startup/Lifecycle: the function run of services/*/cmd/main.go, a definition for each service over
--   the list of the calls of its start. Startup/Config: services/shared/pkg/config/environment.go and
--   the Load of services/auth and services/gateway (internal/config/config.go), Startup/Unchecked: the
--   Load of the other four.
-- The other files of each folder hold its lemmas and theorems, and Examples its tests, as
-- do Gateway/Traffic, Ws/Chat and Shared/Calls.
--
-- What is chosen. UUIDs, connections, refresh tokens and times are natural numbers, and uuid.Nil is 0;
-- where a handler parses or prints them, the two functions are parameters. Nothing
-- is computed on the integer fields of contents. What a generator or a clock gives (a new row's id,
-- now(), a new token) is an argument; in the auth service the clock stands beside the tables, and
-- generateTokenPair reads it once for its two time stamps. SQL statements are functions of the tables
-- that the migrations declare, their keys included. A SELECT without ORDER BY gives the rows in the
-- order of insertion, and a Go map is iterated in the order of its entries: each is one of the orders
-- that may occur. A repository's error that a service wraps is told from the service's own errors. An
-- error that is logged and dropped has no other effect. Loops recur on a list or on the attempts
-- that are left; only the loop of ProvisionConsumerWithRetry, which may run for ever, takes fuel,
-- and any fuel above the number of the attempt that ends it is enough. A send on a channel of the hub
-- that would block is a step that cannot be taken. UUIDs of tickets do not repeat.
--
-- What is not modelled. Calls of one service run one after the other; CreateRoom's transaction is
-- serializable, and what a conflict of two of them does is a failed call. Each method's calls may
-- fail at any point, and a transaction rolls back. Protocol buffers with their validation rules,
-- JSON, bcrypt, JWT, NATS and Valkey's own behaviour beyond the commands used are parameters or
-- outcomes. Length limits of text columns are left out, and so are deadlines, cancelled contexts
-- outside of the two retry loops, panics but those of a gRPC method's handler, the overflow of
-- counters, and the random choice of a user's name from two lists of words. The hub's loop runs on:
-- its end when the service is stopped is left out, and so are channels of size 0, which Load
-- accepts: a sender then waits for the hub itself. A page of GetMessages has a positive limit. The
-- set-up of the log, health checks and the sidecar's placeholder are not modelled, and times and
-- stacks are left out of the log's entries; of the start of a service the libraries' calls are
-- arguments, and only their order and what follows each is modelled.
pub mod Prelude
pub mod Exec
pub mod WsConn
pub mod Hub
pub mod Room
pub mod Message
pub mod Auth
pub mod User
pub mod Startup
pub mod Shared
pub mod Ws
pub mod Gateway

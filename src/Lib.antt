-- ===== src/Lib.antt =====
-- Event Gateway: the core of an event router, as a library of models and theorems.
--
-- The program keeps functions, event types, subscriptions and CORS configurations in a key-value store
-- (libkv/), which a configuration API writes (httpapi/). Each gateway watches the store and keeps caches
-- of it (internal/cache/), from which the router (router/) looks up who is to be called for an event.
-- Sync subscriptions and CORS configurations are found by their path in a tree of path segments
-- (internal/pathtree/).
--
-- PathTree: internal/pathtree/tree.go. `add_route`, `delete_route` and `resolve` are the methods of
-- `Node`, with one definition per part of their loops; a tree is a value that an operation returns
-- changed, also where it fails half-way. Go iterates the map of children in an arbitrary order: where the
-- source takes an arbitrary child, an argument `choice` says which one in each round. `stored` is the tree
-- as a map of routes, `Matches` when a route is for a path, and `IsWellFormed` what the tree relies on.
-- Store: github.com/serverless/libkv/store, which is not part of the repository, as a record of
-- operations, with the laws that the program relies on in `IsKvStore`, where a write that has returned an
-- error may have been made or not; internal/store/prefixed.go in Store/Prefixed;
-- a store in memory that has the laws in Store/Memory.
-- Resource: function/, event/type.go, subscription/, metadata/ and the errors of the services.
-- Service: libkv/. The four stores of `Service` are explicit state, and an operation is its checks
-- (`create_function_checks` for `CreateFunction`, and so on), a sequence in the order of the source that
-- ends with an error or with what is written, and then at most one write (`if_passed`). The JSON of
-- the resources (encoding/json) and `validate.Struct` (gopkg.in/go-playground/validator.v9) are
-- parameters, with what the services rely on in `IsCodec` and `IsValidating`. Service/Integrity is
-- about the references between the resources, and Service/Reading about reading what was created.
-- Cache: internal/cache/. Cache/Watcher makes events of the updates of the store (`processEvents`) and
-- passes them to a reactor (`React`); Cache/Keyed, Cache/Subscribers and Cache/Origins are the four
-- reactors, and Cache/Target the lookups of the router. A reactor that panics leaves no state. The
-- batches of updates that arrive are a list, so that a theorem on all lists is one on every order.
-- Event: event/ and internal/http/headers.go. `from_request` is `FromRequest`, with `parse_binary`, `parse_json`
-- and `new_event` for its modes. A map that the router may write to, and the parameters of an HTTP request, stand
-- at addresses of a heap, since copies of an event share them; a panic is a result of its own. Media types,
-- JSON, times, identifiers and `validate.Struct` are the parameter `Formats`.
-- Router: router/router.go and plugin/manager.go. Router/Backlog is the queue of async events with its workers: what
-- the goroutines do is a list of actions, so that a theorem on all lists is one on every interleaving. Whether
-- a worker is waiting for an event is left to the list. Router/Plugins is `Manager.React`. Router/Calls is the
-- handling of one event (`callFunction`, `authorizeEventType`, `handleAsyncSubscriptions` and the system
-- events) and Router/Serving is `ServeHTTP`, with router/path.go and router/path_hosted.go. They read and write
-- a `World`: the heap, the state of the functions outside, and the list of the effects, in their order; a call of
-- a function is a parameter that reads and changes the state outside. The caches do not change while an
-- event is handled. github.com/rs/cors is a parameter, and writing to the client does not fail.
-- Router/Settling puts a worker, the backlog and the handling of events together.
-- Api: httpapi/httpapi.go. A handler takes a request (its parameters, raw path, query and body) and the
-- stores, and replies with a status, a body and the changes of the metrics; the decoding of a body by
-- encoding/json is a parameter. `routes` is the table of `RegisterRoutes`, and `handle` the handler of each
-- of its endpoints; github.com/julienschmidt/httprouter, which finds the endpoint, is not modelled.
-- Providers: providers/, function/function.go and function/provider.go. `unmarshal_function` is `UnmarshalJSON`, and
-- `loaders` the table that the `init` functions fill. The four AWS providers share `AwsConfig`, `load_aws` and
-- `log_fields`, and those for Kinesis, SQS and Firehose also `record_call`; Providers/Kinds has each of them
-- with its messages and names of fields. The AWS SDK, the HTTP client, encoding/json and the validator are
-- parameters. The router and the stores take what a provider does as a parameter of their own. A refusal of
-- `UnmarshalJSON` leaves nothing of the function in the model, where the source has set some of its fields.
--
-- Every loop is structural recursion on the segments, entries or updates that it goes over, so no
-- fuel is used, but for the worker in Router/Settling: it is given the number of rounds that it may make, which
-- the number of events in its backlog and of subscribers bounds. Text is a sequence of code points;
-- `strings.ToUpper` is modelled where its result is in ASCII, as all is that the validator accepts in a method.
-- Locks, logs and the metrics of the router are left out: the methods of a cache hold its lock from
-- beginning to end. The retry loop of the watcher around its connection, the start of the plugins' processes
-- and the command are not modelled.
pub mod Common
pub mod PathTree
pub mod Store
pub mod Resource
pub mod Service
pub mod Cache
pub mod Router
pub mod Api
pub mod Event
pub mod Providers

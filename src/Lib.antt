-- ===== src/Lib.antt =====
-- rosetta-casper
--
-- rosetta-casper is a server that speaks the Rosetta API for the Casper network. The command line
-- (cmd/run.go) loads the configuration, makes a client of a Casper node unless it is to work offline,
-- and hands both to the services, which answer the requests of the API.
--
-- Common        names of the library passed on, tests on numbers, text as a list of bytes, integers
-- Go            what the program uses of Go: an error value and its wrapping, results that may also be
--               a panic, calls of a remote service as functions on its state (Go/Outcome), strings,
--               hex, decimal numbers, maps as association lists, machine integers
-- Rosetta       the data of rosetta-sdk-go that the program builds and reads
-- Casper        casper/: the client. Types holds the constants of casper/types.go and the errors of
--               casper/errors.go; Sdk is the interface to casper-golang-sdk and blake2b. The rest is
--               casper/client.go: Operations and Transaction are CreateOperation and
--               CreateRosTransaction, Purse is GetMainPurseFromPublicKey, Block is Status,
--               GetBlockResponse, Block and BlockTransaction, Balance is Balance. Ledger is the
--               specification of its methods, as functions of one state of the chain without calls
--               and orders (lists up to order in Ledger/Unordered), with what relates them; in Growth,
--               Stable and Live the chain grows between and during the calls of a method. Serving
--               is about how the methods end, Calls about the number of their calls of the node
-- ClientSdk     casper/casper_client_sdk/casper_client_sdk.go: the data of a deploy
-- Configuration configuration/configuration.go: LoadConfiguration
-- Services      services/: Errors is errors.go, Client the interface of types.go, Endpoints the
--               account, block, call, mempool and network services, Construction the service of
--               construction_service.go (Derive joins it with Balance), Router the collection of
--               router.go with the constructors of the services, JsonMap is utils.go; each endpoint
--               is a function of its name in snake_case
-- Command       cmd/run.go and cmd/root.go: the set-up of runRunCmd, and in Life its goroutines and the
--               one of handleSignals as interleaved steps on a shared state; Main is the command line
--               of cmd/root.go and main.go
-- Tests         runs on a small node, and the theorems at concrete data
--
-- How the code corresponds. A Go function that returns `(T, error)` is a function into `Outcome T`,
-- whose third constructor is a panic (a nil pointer, an index out of range, a failed type assertion);
-- a method that calls the node has type `M State T`, a function from a state to an outcome and the
-- next state, so the calls and their order are part of the model. A pointer that may be nil is an
-- `Option`. `balance_pointer`, `derive_pointer` and `preprocess_pointer` read the account, the key, the
-- network and the operations of a request through their pointers, and `balance`, `construction_derive` and
-- `construction_preprocess` are the same methods for one that is there. A string is the list of its bytes. Texts of error messages are kept; `fmt.Errorf` with %w
-- is `wrap`, and `errors.Is` reads through it.
--
-- Parameters. The RPC client of casper-golang-sdk, its key functions, blake2b, the JSON codec, the
-- environment and the current time are arguments, with any function admitted; so is the order in which
-- Go walks a map. The state behind the RPC client is any type. Where a theorem needs something of them
-- it is a hypothesis with a name: VisitsOnce, MeetsEntries and IsWalk of a walk over a map, IsKeypair of
-- the key functions, ReportsDecimals, IsHealthy, IsServing, IsLive and Answers (of a ledger) of a
-- node, Extends of two states of the chain, IsLossless of a codec, Dispatches of cobra's Execute.
--
-- Bounds. Heights are uint64 and become int64 by wrapping around at 2^64; the conversion is written
-- out, and where a theorem needs a height below 2^63 it says so. A parsed port or transfer id is
-- checked against the range of int64. All loops run over lists and are structural recursion, so there
-- is no fuel.
--
-- Concurrency. The command has three goroutines besides the one that waits. Their actions are events,
-- `step` says which event is possible in a state and what it leaves, and a reachable state is one that
-- some sequence of events leads to, so every interleaving is covered. http.Server is taken at its
-- documentation: ListenAndServe always returns an error, which is ErrServerClosed once Shutdown is
-- called, and may fail at any time before; Shutdown returns with or without an error.
--
-- Not modelled: HTTP and the routing of requests by the Rosetta SDK, the inside of cobra, what the
-- middlewares of the server and its timeouts do, and what is logged; the type Block of rosetta-sdk-go
-- and its kin beyond the fields that the program uses. Code that is commented out is no code.
pub mod Common
pub mod Go
pub mod Rosetta
pub mod Casper
pub mod Configuration
pub mod ClientSdk
pub mod Services
pub mod Command
pub mod Tests

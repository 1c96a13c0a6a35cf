-- ===== src/Lib.antt =====
-- A model of a system of containers that find each other: a bootstrap server and clients keep a
-- manager of known clients, ask each other for random subsets of them, and check which of them are
-- alive. The bootstrap server also runs the containers of the clients, and a load generator puts it
-- to the test.
--
-- The parts, bottom up:
--   Prelude            helpers: runs that may panic, integers, lists, Go maps as lists of bindings
--   Index              a slice and a map from its elements to their positions, which both structures
--                      below are built on
--   HashMap            shared/hashset.go: HashMap and its iterator; HashMap/Persist its snapshots
--                      and the worker that writes them
--   PriorityQueue      shared/priority_queue.go: the binary heap with its index map; Validate, Stats
--                      and GetRandomSubset in its child modules
--   ClientManager      shared/client_manager.go: the map of known clients and the queue of those
--                      alive lately, with the callbacks and the ticks of the two workers;
--                      ClientManager/Workers the locks over which the workers and their callers wait
--   Handlers           shared/client_manager_handlers.go: the HTTP endpoints of a manager
--   Client             client/main.go: the callbacks of a client, its query queue, and the exchange
--                      of contacts; Client/Chat and Client/Contacts the chat with its tables of
--                      client/db.go; Client/Control the connection, its worker and the settings
--   Environment        the values of environment variables, in bootstrap and benchmark
--   Bootstrap          bootstrap/main.go: what a client is answered that connects; its child Docker
--                      is bootstrap/docker_client.go, and Containers the handlers over it
--   Benchmark          benchmark/main.go and benchmark/handlers.go: the ring buffer of latencies
--                      (Ring), the metrics (Metrics), the operations with start and stop (Tool), the
--                      workers and their condition variable (Pool), its two locks (Locks), and the
--                      handlers (Panel)
--   Tests              concrete maps, queues, managers, servers, loads and chats
--
-- A definition has the name of the Go function in snake case, in the module of its type; a name
-- that ends in _loop or _from is a loop of it. State is a record that an operation takes and returns.
-- `Run` has the outcomes of a Go call: a value, a panic (an index out of range, a closed channel
-- closed again), or fuel used up, which only the model has. `(v, true)` is `some v`, `(zero, false)`
-- is `none`. Go's int64 and durations are integers without a bound, since timestamps in microseconds
-- and counters stay far below 2 ^ 63.
--
-- Fuel: the sifting loops get the length of the heap, the cleanup loop one more than the length of
-- the queue, the height loop the number of elements; these are enough by the theorems. The rejection
-- sampling of GetRandomSubset ends for some draws only: its theorem says that from some fuel on it
-- returns, if each place of the queue comes up again and again, as for random draws.
--
-- Each operation is one step: it holds its mutex to the end. How goroutines interleave within an
-- operation of the manager, which holds no mutex over both structures, or of the load generator is
-- not modelled, but for ClientManager/Workers, Benchmark/Pool and Benchmark/Locks, where each step
-- is one operation on a lock, a counter, a channel or a condition variable. A panic of a goroutine
-- that an operation starts is the outcome of that operation. The random generator, the clock, the
-- network, the file system, the JSON decoder, the parsers of `time` and `strconv`, the Docker
-- library, sort.Slice and the arithmetic of float64 are arguments; of the file system, IsDisk of
-- HashMap/Persist/Atomic says what is assumed, and of sort.Slice, SortsBy of Prelude/Sorting or
-- Rearranges of Prelude/Counting.
-- Of SQLite, the statements of client/db.go are modelled over lists of rows; an error of it and
-- the ORDER BY, which Rearranges is about as well, are arguments. Logs, and rendered pages with
-- their texts, are left out.
pub mod Prelude
pub mod Index
pub mod HashMap
pub mod PriorityQueue
pub mod ClientManager
pub mod Handlers
pub mod Environment
pub mod Client
pub mod Bootstrap
pub mod Benchmark
pub mod Tests

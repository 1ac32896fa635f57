-- ===== src/Lib.antt =====
-- Models of the core of the Scrutiny debugger's server: the sparse memory snapshots, the frames of the
-- device protocol, the queue of requests, the handler that exchanges frames with a device, the state
-- machines that keep the connection, those that read and write the device's memory, and the datastore.
--
-- The parts and how they interact. The device handler (scrutiny/server/device/device_handler.py, not
-- modelled) registers requests with the dispatcher, takes the next one from its queue, gives it to the
-- communication handler, and there polls for a response or a timeout. Requests and responses become
-- bytes by the protocol classes. The memory reader merges the ranges that it reads in a memory content,
-- gives its requests to the dispatcher, and updates the entries of the datastore from the answers. The
-- memory writer sends raw memory and the updates of entries, which wait in the datastore, to the device by
-- the same dispatcher. The emulated device keeps its memory in a memory content too.
--
-- - Prelude: the names of the libraries that all files share, Boolean tests on numbers, lists,
--   exceptions as values (`Result`), and Python's dict with integer keys behind the laws of its lookups.
-- - Memory (scrutiny/core/memory_content.py): `Memory.Cluster` is the class `Cluster`, and
--   `Memory.Content` the class `MemoryContent`, one function per method; the body of the loop of
--   `delete` is `delete_round` and what it calls, that of `agglomerate` is `touching` and `merge_next`.
--   `Memory.Blocks` views the dict and the sorted keys as one list of clusters, and
--   `Memory.Contract` states what the operations do to the bytes. `Memory.Delete`,
--   `Memory.Agglomerate`, `Memory.Write` and `Memory.Read` hold the proofs.
-- - Protocol (scrutiny/server/protocol): `Protocol.Crc` is crc32.py, `Protocol.Commands` the classes of
--   commands/, `Protocol.Request` request.py and `Protocol.Response` response.py; `Protocol.Pack` is
--   what they use of Python's struct. `Protocol.CommControl` is commands/comm_control.py and the payloads
--   of that command in protocol.py; a name is the bytes that it is decoded from.
--   `Protocol.MemoryControl` has the address formats and the payloads of memory blocks of protocol.py,
--   `Protocol.MemoryControl.Ranges` those with addresses and sizes only, `Protocol.MemoryControl.Rpv`
--   those of published values, where a value stands for its bytes, and `Protocol.MemoryControl.Masked` the
--   masked writes and the parsers for a write of published values.
-- - Dispatch (scrutiny/server/device/request_dispatcher.py): `Dispatch.Queue` is `RequestQueue` with
--   `RequestRecord`, and `Dispatch.Dispatcher` is `RequestDispatcher`. Callbacks are values: an
--   operation returns the calls it makes.
-- - Comm: `Comm.Timer` is scrutiny/tools/timer.py, `Comm.Throttler` scrutiny/tools/throttler.py and
--   `Comm.Handler` scrutiny/server/protocol/comm_handler.py. `_process_rx` is `process_rx` with
--   `expire`, `receive`, `feed`, `complete`, `accept` and `match_request`; `_process_tx` is `process_tx`
--   with `try_send` and `transmit`. `Comm.Handler.Reach` has the runs of the handler as a relation.
-- - Connect (scrutiny/server/device/submodules): `Connect.Heartbeat` is heartbeat_generator.py,
--   `Connect.Session` session_initializer.py and `Connect.Searcher` device_searcher.py. `Connect.Submit`
--   is how they give a request to the dispatcher, which may call their failure callback at once.
--   `Connect.Liveness` and `Connect.Granted` hold the proofs.
-- - Reader (scrutiny/server/device/submodules/memory_reader.py): `Reader.State` is the state of
--   `MemoryReader` with its configuration, `Reader.Variables`, `Reader.Published` and `Reader.Raw` are the
--   three methods `make_next_..._request`, `Reader.Callbacks` the callbacks and `Reader.Process` is
--   `process`. `Reader.Loop` is the loop of the first two with its proof rule, and `Reader.Device` is a
--   device that answers from its memory. The other modules hold the proofs.
-- - Writer (scrutiny/server/device/submodules/memory_writer.py): `Writer.State` is the state of
--   `MemoryWriter` with its configuration, `Writer.Raw` and `Writer.Entries` are the two methods
--   `make_next_..._request`, `Writer.Callbacks` the callbacks and `Writer.Process` is `process`.
--   `Writer.Device` is a device that stores what it is sent. The other modules hold the proofs. The values
--   of the entries are of any type, with the interface `Codec` for what makes them valid and encodes them.
-- - Datastore (scrutiny/server/datastore): `Datastore.Entry` is what datastore.py uses of the entries of
--   datastore_entry.py, with the names of the watchers, `Datastore.State` the state of `Datastore` with
--   what adds and finds entries, `Datastore.Watching` who watches them, and `Datastore.Updating` the queue
--   of updates. The sets of watchers are lists without repetition. `Datastore.Hidden` and
--   `Datastore.Aliases` hold the proofs.
-- - Values: `Values.DataType` and `Values.Region` are scrutiny/core/basic_types.py, and
--   `Values.Saturation` is the branch of `Codecs.make_value_valid` for integers (scrutiny/core/codecs.py)
--   over the integers of `Values.Int`.
--
-- How the source is read. Addresses, sizes and bytes are natural numbers. Exceptions are the errors of
-- `Result`; where one leaves a changed state behind, the state is returned beside it. Times are whole
-- microseconds of the clock that the caller reads; the floats of the throttler are a parameter. The
-- link and its thread are an environment: what a call sees of them is `Env`, and what the thread
-- receives comes in steps of its own.
--
-- Fuel. The loop of `delete` runs on as many rounds as the range has bytes, and one: each round takes
-- at least one byte of the range away. The loop of `agglomerate` runs on the number of keys and one:
-- each round drops a key or passes one. Running out of fuel is an error of its own, and the theorems on
-- `delete` and `write` say that they return a state. The loop that parses memory blocks runs on the
-- length of the payload and one: a block takes three bytes at least. Those that parse published values run
-- on the length of the payload: a value takes two bytes at least.
--
-- A loop of the memory reader takes in or skips a watched entry in each round but the last, so it runs on
-- the number of the watched entries and one; the loop of `process` considers one of three kinds in each
-- round but the last, so it runs on four.
--
-- The datastore starts and stops to watch what an alias refers to by a call of itself. What an alias
-- refers to is no alias, so two rounds are enough.
--
-- Not modelled: loading a memory dump and the listing of clusters by size, the watch callbacks of the
-- memory reader, the values in the datastore and the callbacks on their change, the choice and the
-- opening of links, the bit rate measurements and the log, and the other parts of the server, the clients
-- and the tools.
pub mod Prelude
pub mod Memory
pub mod Protocol
pub mod Dispatch
pub mod Comm
pub mod Connect
pub mod Reader
pub mod Writer
pub mod Datastore
pub mod Values

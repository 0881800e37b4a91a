-- ===== src/Lib.antt =====
-- Melibea: an attention and minimization companion of the niri compositor.
--
-- The daemon reads niri's events, decides by configured rules how wide each window is to be while it
-- is focused and while it is not, and sends the widths to niri one at a time. Beside that it mirrors
-- niri's minimized windows and publishes them to shells over a local socket. A configuration is read
-- at the start and again when its file changes, and gives the rules; the adapter turns events into calls
-- of the engine; the engine's transitions fill a queue of resizes that the controller empties; the
-- broker owns what is published, and its clients follow it by snapshots and changes.
--
-- Base: numbers, lists, options, results, decidable equality (`Eq`), a `BTreeMap` as a list in
--   ascending order (Base/OrdMap), a `Vec` by index (Base/Vec, where `none` is a panic) and lists whose
--   entries a number identifies (Base/Vec/Keyed, Base/Vec/Search), texts, and floats by their bits.
--   `Base.Float.Arithmetic` has the sums, quotients and decimal reading of floats that the program calls
--   and does not define; every theorem holds for whatever they are.
--   Base/Json stands for serde_json: a value is known by the shape that the code matches on. Base/Decimal
--   is `str::parse::<u64>`.
-- Attention: src/attention.rs. `WidthPolicy::proportion` is `new_proportion`, `FromStr` is `from_str`.
-- Config: src/config.rs. The regex compiler and the TOML reader are the record `Platform`. Messages are
--   the data that they are formatted from. Config/Resolve and Config/Validate are about `Config::resolve`
--   and `Config::from_raw`; Config/Load is the path, the file and `configured` of src/main.rs, over the
--   process's environment as the record `Host`.
-- Transition: src/transition.rs. `AttentionEngine` and its operations under their own names, each a
--   function from the engine to the engine and what it returns. Transition/Decisions, Focus and Registry
--   are about the outcomes, the sequence of focuses and the registered windows.
-- Executor: src/executor.rs. `PendingResizes` with `ingest`, `pop_next`, `forget_window` and `reset`.
--   `pop_all` of Executor/Pop is the loop of src/main.rs over `pop_next` without the messages that
--   arrive between two pops; its fuel is the number of queued actions.
-- Minimization: src/minimization.rs. `MinimizedRegistry::apply` and its helpers; a result is the
--   registry and what is returned, or `none` for a panic. Minimization/Accounts and Reference describe
--   the windows without positions.
-- Protocol: src/protocol.rs. Protocol/Anchor, Request and Message are the data and its validation,
--   Protocol/Diff is `diff_windows` and a client's reading of changes, `apply_change`.
-- Service: src/service.rs. Service/Reader is `read_client_request` on the line that a connection
--   gives, Service/Accept is `accept_loop` on the answers of `accept`, Service/Broker is the thread that
--   runs `broker_loop`. A stream is a number; what writes, clones, reads and the action executor answer
--   while one message is handled is the record `Io`; what reaches the outside is a list of effects in
--   order. Service/Broker/Mirror is the client's end, and Service/Broker/Asked tells from the messages of
--   a session alone what its clients are to know and in which version.
--   Service/Socket is `socket_path`, `Service::start` and `Drop for Service` as effects in order over the
--   answers of the operating system (`SocketIo`), Service/Ownership is about them, and Service/Client is
--   `ServiceClient` and `Subscription`.
-- Niri: src/niri.rs. `NiriAdapter::apply`, which keeps the engine and the windows it knows. Niri/Parse is
--   `parse_event_line`; what serde derives for the payloads is the record `Payloads`.
-- NiriIpc: src/niri_ipc.rs. What a connection answers is the record `Transport`. NiriIpc/Reply reads
--   niri's replies, NiriIpc/Stream is `NiriEventStream`, NiriIpc/Action is `NiriActionClient`.
-- Health: src/health.rs. `HealthReport::from_windows`: its loop and its report.
-- Controller: src/main.rs. `ingest_stream_message`, which hands each event to the registry, the broker,
--   the adapter and the queue in turn. Whether the service takes what is published is an argument.
--   Controller/Execute is `execute_protocol_action`, Controller/Watcher is `ConfigWatcher`,
--   Controller/Run, Connection and Daemon are the loops of `drain_stream_messages`,
--   `run_controller_connection` and `run_controller_inner`. Each loop takes a list with one entry for each
--   time that it asks: a message of the reader thread, a poll of the file, niri's answer to an action. It
--   recurs on that list, so every finite part of a run is one, and a list that ends first is a run that
--   is still going. Controller/Lawful, Guarded, Kept, Alive, Served and Drained are about these runs.
-- Cli: src/main.rs. `parse_args` and its helpers, with errors as data. Cli/Status is the search of
--   `status_inner` for niri's windows, over the 64 reads that the code allows, Cli/Exit the exit codes of
--   the commands, and Cli/Loops `observe` and `service_subscribe` with what they print.
-- Tests: the inputs of the repository's unit tests, and each theorem at a concrete input.
--
-- Observation numbers and revisions are 64-bit and saturate, as `saturating_add` does. Window and
-- stream ids, lengths and indices are natural numbers: the program only compares the former, and adds
-- to the latter only within the length of a list in memory.
--
-- Not modelled: the text of most errors and of all output; encoding and decoding by serde; what the
-- operating system does on a socket, a file or a thread, and the time that passes.
pub mod Base
pub mod Attention
pub mod Config
pub mod Transition
pub mod Executor
pub mod Minimization
pub mod Protocol
pub mod Service
pub mod Niri
pub mod NiriIpc
pub mod Health
pub mod Controller
pub mod Cli
mod Tests

-- ===== src/Lib.antt =====
-- A model of xshm, a library for messages between two processes over shared memory.
--
-- The parts of the program and the files that model them:
--
--   * src/ring.rs, the ring buffer of one direction: Ring.antt has one definition for each method, on
--     a header of 32-bit words (positions wrap at 2^32) and bytes by offset. Ring/Copy and Ring/Frame
--     are about bytes and frames, Ring/Queue is the queue that a ring stands for, Ring/Rep says when
--     it does, Ring/Steps and Ring/Refine relate the steps, Ring/Runs and Ring/Order whole sequences
--     of calls, Ring/Bounds the ends of the buffer. Ring/Atomic cuts the methods at their atomic
--     stores, Ring/Threads lets a writer and a reader take these steps in any order; Ring/Flow and
--     Ring/Race are about what they then see.
--   * src/layout.rs, src/shared.rs, src/constants.rs, src/error.rs: Layout.antt (with Layout/Parts),
--     Constants.antt, Error.antt. Word.antt has the machine words and their bytes.
--   * src/server.rs and src/client.rs, the two ends of a connection: Server.antt and Client.antt, on
--     the segment of Segment.antt. A server owns its segment; a client is given the same one.
--     Session.antt runs both on one segment: Session/Handshake for the way to a connection,
--     Session/Duplex for the traffic, Session/Signals for the events (src/events.rs) that wake the
--     other side.
--   * src/multi/mod.rs, a server with up to 31 slots that clients claim: Multi/Slots has what happens
--     to one slot under its lock, Multi/Calls the methods of `MultiServer`, Multi/Worker its worker,
--     Multi/Claim the claims of the clients, Multi/Client the worker of `MultiClient`. Multi/Moves to
--     Multi/Runs are the invariant of all slots and what the handler is told; Multi/Claims,
--     Multi/Reclaim and Multi/Sweep are about claims and slots that are left, Multi/Queue and
--     Multi/Delivery about the client.
--   * src/auto/mod.rs, workers that serve one connection and connect again: Auto.antt has the send
--     queue and the passes over both rings, Auto/Worker the worker of `AutoServer`, Auto/Reconnect that
--     of `AutoClient`, Auto/Handle what their owners call; Auto/Queue, Auto/Link, Auto/Traffic,
--     Auto/Quiet, Auto/Balance and Auto/Attempts are about them.
--   * src/naming.rs and src/events.rs: Naming.antt, with Naming/Distinct on the names.
--   * src/win.rs and src/ntapi/helpers.rs: Win.antt, what is made of the answers of the kernel to
--     waits and questions about processes, with Win/Waits; Win/Objects the names and paths of kernel
--     objects and the calls on events and sections, with Win/Paths. src/lib.rs: Delay.antt.
--   * src/dispatch/protocol.rs, the registration messages: Protocol.antt with Protocol/Roundtrip and
--     Protocol/Refusals; Utf8.antt is the decoding of `String::from_utf8_lossy`.
--   * src/dispatch/mod.rs, a server with a lobby in which each client is given a channel of its own:
--     Dispatch.antt has the map of clients and the calls on it (Dispatch/ClientMap, Dispatch/Registry),
--     Dispatch/Lobby the worker of the lobby and its answers, with Dispatch/Ids on the ids that it
--     gives, Dispatch/Register the client, Dispatch/Assigned both together. Dispatch/Threads has the
--     threads of a server as a step relation: the worker of the lobby, a thread and an `AutoServer`
--     for each client, and the callers; Dispatch/Ledger, Dispatch/Stuck, Dispatch/Drain and
--     Dispatch/Late are about these.
--   * src/ffi.rs, src/multi/ffi.rs and src/dispatch/ffi.rs, the C interfaces: Ffi.antt with
--     Ffi/Automatic for the plain and the automatic endpoints, Ffi/Slots and Ffi/Dispatched for the two
--     servers of many clients, Ffi/Strings for C strings. Ffi/Receive and Ffi/Cached are about the
--     cache of a receive, Ffi/Poll and Ffi/Refused about polls and sends.
--   * Tests.antt applies the theorems at concrete inputs. Prelude.antt has the shared list lemmas and
--     the tests on numbers.
--
-- State is passed explicitly: an operation takes the state and gives its result, the new state and the
-- events that it sets. What the operating system answers (whether a mapping or an event could be made
-- or set, how a wait ends, which processes live, the time) is an argument.
--
-- A call is one step, but for Ring/Atomic and Dispatch/Threads: the two sides of a ring take turns, and
-- what the other side does during a wait is a function on the segment. So the retries of the
-- compare-exchange loops of `discard_oldest` and `read_message`, which only another thread can cause,
-- do not occur. In Ring/Threads the steps of a writer and a reader come in any order; a copy of bytes is
-- one step, and the writer does not overwrite. In Dispatch/Threads a step is what a thread does while it
-- holds the lock on the map, or one call of the handler. The loop of `write_message` runs on the message
-- count of the header plus one final round: each round before the last discards a message. The search of
-- `claim_free_slot` has its bound of 31 ids from the code. Worker loops run over a list of rounds, a
-- loop that waits for a message over the rounds up to the one in which its time is over.
--
-- A pointer of the C interfaces is an option, its target a list of bytes; a handle that is not null is
-- taken to be valid, as the interfaces demand.
--
-- Not modelled: the declarations of src/ntapi/funcs.rs and src/ntapi/types.rs, which describe the
-- calls and structures of the operating system, and what these calls do; the join of threads but
-- for the one in Dispatch/Threads, and channels between threads but for the commands in them; bytes
-- torn by a writer that overwrites a message while it is read; handlers that call the server from
-- inside a callback.
pub mod Prelude
pub mod Error
pub mod Word
pub mod Constants
pub mod Layout
pub mod Ring
pub mod Segment
pub mod Server
pub mod Client
pub mod Session
pub mod Multi
pub mod Utf8
pub mod Protocol
pub mod Naming
pub mod Delay
pub mod Win
pub mod Auto
pub mod Dispatch
pub mod Ffi
pub mod Tests

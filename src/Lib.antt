-- ===== src/Lib.antt =====
-- A model of the relay in backend/wealdrelay: its canonical CBOR codec, the envelope, the frames
-- and their error taxonomy, the queue of push wakes, the per-device send budget, the session of a
-- connection, the hub of subscriptions, the registry of calls, the signed access sets and the
-- range-based set reconciliation, and of backend/weald-mls the reader of agent records, with the
-- theorems that make them correct.
--
-- The parts and their files:
--   * Base: shared names, Boolean tests, lists measured by native numbers, big-endian bytes, maps
--     keyed by byte strings, and `Method S E A`, a step on a state that answers a result and keeps
--     the state on an error too, as a Rust method with `&mut self` does. `do` blocks stand for `?`
--     chains.
--   * Cbor: backend/wealdrelay/src/cbor.rs. Encode has the encoders, Reader the cursor and
--     `read_head`, Typed the typed reads, Utf8 the check of `String::from_utf8`. Head, Argument
--     and Canonical are about heads, RoundTrip and Accept about the typed reads; Compose and Takes
--     have rules for decoders built on them.
--   * Envelope: backend/wealdrelay/src/envelope/mod.rs, with `MinEncryption` of config.rs.
--   * Frame: backend/wealdrelay/src/frame.rs: the error taxonomy (Code, Names), the tags (Tag),
--     the frames and their encoding (Body) and the decoder (Decode, its bodies in Decode/Read),
--     with `is_acceptable_register_url` of push/mod.rs. Fits has the ranges of the fields; Bodies,
--     Fields, Forms and Wake are about single bodies, RoundTrip about whole frames.
--   * Push: the categories of backend/wealdrelay/src/push/mod.rs (Category) and the queue of
--     backend/wealdrelay/src/push/queue.rs (Queue).
--   * SendBudget: backend/wealdrelay/src/send_budget.rs.
--   * Session: backend/wealdrelay/src/session.rs. FrameBudget is the window on one kind of frame,
--     Limits the constants and modes, Work the deferred work, its policy (`WorkPolicy`) and the
--     reactions, Meter the `Session` itself with its budgets, Arms one function for each arm of
--     `Session::handle` and Handle the dispatch. Spec is the diagram of the protocol and the reading
--     of the policy; Protocol, Charges, Rate, WellFormed and Runs are about the handler and about
--     runs of calls.
--   * Hub: backend/wealdrelay/src/hub.rs, with the end of a replay, the eviction of a principal and
--     the notices in Release. Fanout is about outcomes, Members and Refine about the relation
--     between groups and connections.
--   * Calls: backend/wealdrelay/src/calls/mod.rs: the media budget (Media) and the registry
--     (Registry, with Members and Sound).
--   * Access: backend/wealdrelay/src/access/mod.rs: the codec (Codec), the checks of shape (Shape)
--     and `judge` (Judge, with Quorum, Follows, Ordinary and Rotation).
--   * AgentCbor: backend/weald-mls/src/agent_cbor.rs: heads and the walk over an item, with the
--     record reads in Slots. Bound is about the walk.
--   * Negentropy: backend/wealdrelay/src/negentropy/mod.rs (Items, Message) and reconcile.rs
--     (Split, Reconcile). Ids, Slices, Message/Valid, Message/RoundTrip, Split/Cover,
--     Split/Ranges, Reconcile/Spans and Reconcile/Replies are about them.
--   * Tests: concrete inputs that the theorems are applied to.
--
-- How they interact: a Session takes the frames of Frame.Body, answers its error codes and charges
-- the media budget of Calls; the Hub and the registry of calls queue the same frames and share
-- what `try_queue` answers; Access encodes and decodes with Cbor; Envelope and Negentropy.Message
-- encode with Cbor.Encode and decode with the reads of Cbor.Typed; Envelope and SendBudget answer
-- with the error codes of Frame.Code; Negentropy.Reconcile divides with Negentropy.Split and
-- answers messages of Negentropy.Message.
--
-- How the code is written here. A byte and a w-bit integer are numbers of ℕ; where the source
-- shifts, narrows or saturates, so do the definitions. A `Vec<u8>` is a list of numbers, a
-- `VecDeque` a list from its front, a `HashMap` a list of pairs with each key once, a `BTreeSet`
-- an ascending list. The index of a loop over a slice is the list from that index on. A lock that
-- makes a method atomic is left out, and the time it reads is an argument. BLAKE3 is a parameter
-- `blake3` of the definitions that use it (a hasher that is fed in steps hashes what it was fed in
-- one), the url crate a parameter `parse_url`, which answers a scheme and perhaps a host, the
-- strict ed25519 check a parameter `strict`, and the sender of a connection a parameter with
-- `try_queue`, `evict` and `close`; of these the theorems on replies assume that a digest has 32
-- bytes, and nothing else is assumed. An array of fixed width is a list, and what `try_into` tests
-- is a test of its length. Static texts of an error are constructors.
--
-- Recursion: loops recurse on a count or a list. The loop that divides a range has the number of
-- its items as fuel, which is enough because each round takes an item at least. The walk over an
-- agent record recurses on the levels below its bound on depth.
--
-- Not modelled: the asynchronous shells of the push worker, the socket and the call handlers, the
-- accept path, invites, media, lifecycle records, most of the configuration, the stores on SQL and
-- object storage, and the MLS client core and the rest of the agent protocol in backend/weald-mls.
-- These are input and output around SQL, HTTP and sockets, or parts that stand on their own.
pub mod Base
pub mod Cbor
pub mod Frame
pub mod Envelope
pub mod Push
pub mod SendBudget
pub mod Calls
pub mod Hub
pub mod Session
pub mod Access
pub mod AgentCbor
pub mod Negentropy
pub mod Tests

-- ===== src/Lib.antt =====
-- Wirekrak is a market-data client for the Kraken exchange, written in C++. This library models
-- the core of its protocol and transport layers, and the matching engine Flashstrike that comes
-- with it.
--
-- A session subscribes to channels for symbols over one logical connection. The subscription
-- controller routes each request to the manager of its channel, which decides which symbols have
-- to be sent, remembers them as pending under the identifier of the request, and moves them when
-- the exchange acknowledges or rejects. The replay database keeps the acknowledged requests, so
-- that they can be sent again after a reconnection, and knows the request that owns each symbol.
-- The connection drives one WebSocket transport at a time: it connects, watches the liveness of
-- the traffic, closes, and reconnects with a growing delay. Hysteresis and consecutive-frame
-- counters decide when backpressure starts and ends.
--
-- Subscription.Pending, Subscription.Manager and Subscription.Controller model
-- include/wirekrak/core/protocol/subscription/pending_requests.hpp, manager.hpp and
-- controller.hpp. A record holds the fields of each class, and a function stands for each method,
-- under its name; `remove_any` is the overload `remove(sid)`. Subscription.Manager.Status gives
-- the specification: the status of each symbol (idle, subscribing under a request, active,
-- unsubscribing under a request). The other child modules prove that each operation moves the
-- statuses as specified, and History runs sequences of calls.
--
-- Replay.Table and Replay.Database model include/wirekrak/core/protocol/replay/subscription.hpp,
-- table.hpp and database.hpp. The specification is the owner of each symbol. Replay.Table.Sizes
-- models the check `assert_consistency` of debug builds.
--
-- Transport.Policy and Transport.State model the policies and enumerations of
-- include/wirekrak/core/policy/transport, include/wirekrak/core/policy/retry_mode.hpp and
-- include/wirekrak/core/transport. Transport.Connection and Transport.Connection.Operations model
-- include/wirekrak/core/transport/connection.hpp: `transition` is `transition_` with its rows as
-- functions, and `open_connection`, `close`, `send` and `poll` are the public operations.
-- Transport.Connection.Observers holds what an owner can read. Transport.Url models
-- include/wirekrak/core/transport/parse_url.hpp on lists of bytes.
--
-- Session models include/wirekrak/core/protocol/session.hpp: its fields and the interface of the
-- protocol model, Session.Requests what `subscribe`, `unsubscribe` and the replay send,
-- Session.Signals what happens on the signals of the connection and the reports of the message
-- handler, Session.Polling `poll` with its loops, the backpressure policy and the observers. A
-- subscription type of the model is its position in the list of types. The message handler is a
-- function from a text and the data plane to the new data plane, the reports that it makes to its
-- context, and its result; the reports are carried out in order. Session.Invariant, Subscribing,
-- Handling, Total and Draining are about the invariants of the parts under these operations. The
-- writers of the protocol model are functions to texts. Sending asserts that a text is no longer
-- than the writer states, and a text that is longer than the slot of the scheduler overruns it; an
-- operation returns none in both cases. `IsSized` says of the writers that neither happens.
--
-- Request.Scheduler models include/wirekrak/core/protocol/request/scheduler.hpp, and Local.Ring
-- the rings include/lcr/local/ring.hpp and queue.hpp that it stands on. The specification of a
-- ring is the bounded queue of its elements.
--
-- Lockfree.Spsc models include/lcr/lockfree/spsc_core.hpp and spsc_queue.hpp, the queue between a
-- producer and a consumer thread. Lockfree.Spsc.Threads takes `push` and `pop` apart into steps,
-- which a schedule interleaves; each call takes effect where it returns. Memory is sequentially
-- consistent: the acquiring loads and the releasing stores of the two indices order all that the
-- model shares. Lockfree.Ring models spsc_ring.hpp, whose slots are acquired and committed in two
-- calls.
--
-- Flashstrike models parts of the matching engine of
-- integrations/include/flashstrike/matching_engine: Flashstrike.IdMap the hash table of
-- order_id_map.hpp, from the identifier of an order to its index, and Flashstrike.Pool the pool of
-- orders of order_pool.hpp with its list of free orders. Flashstrike.Partition models `Partition`
-- of partitions.hpp, the price levels of a range of prices with the bitmap of the active ones, and
-- Flashstrike.PartitionPool `PartitionPool` of the same file. Identifiers are neither 0 nor the
-- greatest number of 32 bits, which the table reserves. An index of an order has 32 bits with a
-- sign, so that a pool has at most 2 ^ 31 orders; quantities and their sums stay below 2 ^ 63.
--
-- Flashstrike.Store models `PriceLevelStore` of price_level_store.hpp, the levels of one side:
-- Store.Linking its doubly linked lists of orders, Store.Pricing the best price and the operations
-- that insert, remove, reprice and resize an order; Store.Segment and Store.Queue are about a
-- level as a queue, and Store.Stale about the best price of an emptied partition. Flashstrike.Book
-- models `OrderBook` of order_book.hpp, with Book.Removal about the identifiers, and
-- Flashstrike.Matching `Manager` of manager.hpp: the matching loop, and in Matching.Orders the
-- operations of a client. The incoming order is one of its own or a slot of the pool, since a
-- repriced order is matched in place. The loop runs on fuel: a round trades a positive quantity
-- where the resting order has one, so that one round more than the quantity of the incoming order
-- is enough. An assertion that fails is a result of none.
--
-- Symbol.Intern models `InternTable` of include/wirekrak/core/symbol/intern.hpp: texts get numbers
-- in the order in which they come. A text of more than 16 bytes has no identifier, since a
-- local::string of that capacity asserts its length.
--
-- Control.Hysteresis and Control.Consecutive model include/lcr/control/binary_hysteresis.hpp and
-- consecutive_state.hpp, Control.Sequence include/lcr/sequence.hpp and the reserved identifiers of
-- include/wirekrak/core/protocol/control/req_id.hpp.
--
-- Common holds the tests on numbers, lists, sets and association lists that the rest shares. Tests
-- runs the definitions at concrete inputs and instantiates each result.
--
-- Hash maps and sets are lists in the order of their entries, without duplicate keys; no result
-- depends on that order. A symbol is known by the number that `intern` gives it; `intern` is a
-- parameter, a total function, so that the trap of a full table of 4096 symbols is outside the
-- model of the manager and the session, and the replay table assumes that equal numbers come from
-- equal texts only. Counters of the source wrap around at their width: 32 bits in the control
-- primitives, 64 bits for the clock of the controller and for the epoch and the message counters.
-- An operation that can reach LCR_UNREACHABLE or a failing assertion returns none there. The clock
-- is read once in each operation and passed to it as `now`. The number of retry attempts, an int
-- in the source, does not wrap around.
--
-- The WebSocket transport is a record of functions, which may put control events on the ring that
-- they are given; the outcome of an attempt to connect is that of the transport passed in. Rings
-- are lists, oldest element first, and a full signal ring holds 63 signals. The loop of `poll`
-- over the control ring runs on fuel, of which a number that covers the events on the ring and
-- those that closing the transport can add, twice at most, is enough. The loop of a session over
-- the signals runs as often as there are signals after the poll of the connection; handling a
-- signal adds none; and the loop over the messages at most 128 times, as in the source. All other
-- loops are structural.
--
-- Not modelled: the JSON parsers and writers and the schemas, the WebSocket engine and its back
-- ends, the other lock-free rings, the telemetry, and the write-ahead log. They are input and
-- output, third-party code, threads, or parts to come.
pub mod Common
pub mod Control
pub mod Local
pub mod Lockfree
pub mod Symbol
pub mod Subscription
pub mod Replay
pub mod Transport
pub mod Request
pub mod Session
pub mod Flashstrike
mod Tests

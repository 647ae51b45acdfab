-- ===== src/Lib.antt =====
-- AntHocNet: the routing core of core/, which the adapters of the simulators drive.
--
-- A node keeps pheromone, a goodness for each (next hop, destination), and samples next hops from
-- it. Ants find and refresh the routes: reactive forward ants flood or follow pheromone, the
-- destination turns them into backward ants that retrace the path and reinforce it, hellos spread
-- virtual pheromone (diffusion), proactive ants test those hints, and link-failure notes and repair
-- ants answer losses. The core has no clock, radio or queue: an adapter calls its handlers, which
-- return decisions (send, queue, deliver, drop).
--
-- Parts, with the files of this library:
-- - Table: `PheromoneTable` (core/include/anthocnet/core/pheromone_table.h,
--   core/src/pheromone_table.cpp). Two maps of pheromone, the set of neighbours and the two sets of
--   destinations; Table/Entries has what each write changes, Table/Validity the invariant,
--   Table/Choice the sampling of next hops, Table/Refine the abstract view of a table.
-- - Engine: `PheromoneEngine` (core/src/pheromone_engine.cpp). Reinforcement, aging, diffusion and
--   the removal of a neighbour, as functions on the table; Engine/Aging, Engine/Loops,
--   Engine/Evaporation and Engine/Cleaning say what the loops leave, Engine/Validity keeps the
--   invariant.
-- - History, Generation: `AntHistoryTracker` and `GenerationTracker` (core/src/ant_history.cpp).
--   History/Fifo has the facts on the eviction that both share; History/Memory, Generation/Validity
--   and Generation/Flood are about the two trackers.
-- - Message, Address, Config, Metric: the data of core/include/anthocnet/core/{ant_message, types,
--   visited_path, config, link_metric, link_lifetime}.h.
-- - Codec: core/src/ant_message_codec.cpp over lists of bytes. Codec/Decode is the reader, which
--   fails with `none`; Codec/Size is about the length of a frame, Codec/Sections about reading back
--   the hops, Codec/RoundTrip about whole ants, Codec/Bounds about what any frame can bring in,
--   Codec/Spent and Codec/Exact about how long it is.
-- - Router: `AntRouterLogic` (core/src/ant_router_logic.cpp). Its members are the record `Router`;
--   a handler takes the router and the ports and gives the new router with its decisions. Links,
--   Churn, Ants, Sessions, Failure and Receive hold the operations; Budget and Retrace are about
--   the broadcast budget and the way back; Frame, Validity and Reception are about what the handlers
--   do to the table, Reachable is the relation of the states that a router gets to,
--   and Hello follows a hello onto the wire.
-- - ShortestPath: `ShortestPathGraph` (core/include/anthocnet/core/shortest_path.h,
--   core/src/shortest_path.cpp), which the oracle of the baselines asks. Weight has what the search
--   relies on of the numbers, Walk and Improve the notions, Sound, Measure, Progress and Loop the
--   invariant of the main loop and why it ends, Optimal, TieBreak and Answer what it finds, Build
--   the graphs that can be built.
-- - Adaptive: the forager store of BeeAdHoc and its rating of routes, in
--   ns3/baselines/adaptive/model/adaptive-tables.h, which is free of the simulator. Arrays is about
--   the arrays of foragers, Take about the loop of `Take`, Valid the invariant, Links `RemoveLink`;
--   Pick has the draw in proportion to weights that the file's protocols share. Bounded is Termite's
--   `BoundedPheromoneTable` of the same file: Inside is about the cells of a column, Loops about the
--   loops over the columns, Kept about the calls, Calls about the tables that they lead to. Trails is
--   the decaying `PheromoneTable` of ARA, with the formulas of one line.
-- - DecodeBudget: the decode radius of the oracle
--   (ns3/baselines/oracle/model/oracle-decode-budget.cc), with the search for the median radius in
--   Median.
-- - Registry: the metrics by name (core/src/link_metric_registry.cpp).
-- - World: the web simulator (web/include/ahn_web/sim.h, web/src/sim.cpp), an adapter that owns the
--   clock, the timers, the held packets and a radio, calls the handlers of Router and carries out
--   their decisions; ants travel as the bytes of Codec. World has the state, the event queue and the
--   log, Radio the transmitter, losses and batteries, Queue the held packets, Adapter what a frame
--   or a packet sets off, Clock the timers and the loop, Setup the building of a world. Places says
--   where a packet is, Moves, Handling, Events, Ticks and Outside what each operation does to that,
--   and Ledger adds it up over the states that a world reaches. Order is about the event queue.
-- - RequestQueue: the pending queue of the ns-3 adapter (ns3/anthocnet/model/anthocnet-rqueue.h and
--   anthocnet-rqueue.cc). Account is about what becomes of the packets, Waiting and Cap about how long
--   they stay.
-- - AntHeader: the header of an ant on ns-3 (ns3/anthocnet/model/anthocnet-packet.cc). Size is about
--   the bytes of what it writes, RoundTrip about reading them back.
-- - Collections: `std::set` and `std::map` as ascending lists, so that loops visit them in the order
--   of the code. Prelude: what all modules share.
--
-- Choices of the model:
-- - `double` is the interface Double; no theorem assumes more of it than its statement says.
--   Double/Fixed is a concrete instance, which runs the model on examples.
-- - An address is kept as its `int32_t` value plus 2 ^ 31, so that numbers order as addresses do.
--   Counters of `uint64_t` and sequence numbers of `uint32_t` wrap explicitly. The counters kept in
--   an `int` (transmission failures, quiet rounds) are numbers without a bound.
-- - A random draw reads the next value of a stream that the adapter's generator will give.
-- - The ports (time, MAC state, link quality, own position, battery) are what they answer during one
--   call of a handler. What an observer is told is appended to a list.
-- - A loop over a list that is fixed when it starts is structural recursion. Three loops have fuel.
--   The main loop of `computeFrom` spends one unit for each entry it takes from its queue; an entry is
--   pushed only where a label improves, and the ranks of the labels bound how often that can happen.
--   The loop of `Take` gets one unit more than its array has foragers, of which each round removes one
--   or is the last. The doubling of `NakagamiMedianRadius` spends one unit for each width, and ends at
--   the latest once the width is not below 10 ^ 7.
-- - `Take` of the forager store draws through its caller: the draws are a parameter, which gives the
--   k-th draw below n.
-- - A closure that the web simulator schedules is an `Action` with what it captures, and a node is
--   read by its id. An index that is none of `nodes_` has no behaviour in the source; the model then
--   reads a node that is switched off. The `sent` and `delivered` of a flow are numbers without a
--   bound. `advance_for` runs as many events as its fuel says, and nothing is claimed of when the loop
--   of `advanceTo` ends: the theorems are about every number of events.
-- - A `Time` of ns-3 is a count of nanoseconds that is not negative, and the seconds between two of
--   them are a parameter. The pending queue's packets are payloads with a destination.
-- - ns-3's `Buffer::Iterator` is the interface Buffer: what a write of so many bytes puts in, and what
--   a read of so many bytes takes out. The header's `GetDistanceFrom` is the count of bytes that are
--   no longer left. log10, log and lgamma are the interface Special.
--
-- Not modelled: in the web simulator the geometry of the radio, mobility and the seeding of the
-- random streams, which are parameters, and the trace format; the rest
-- of the ns-3 adapter and its helpers, the own baselines beyond the parts above and the
-- benchmark harness, which stand on ns-3; the AOMDV and GPSR baselines, which are copies of other
-- projects' protocols; tests, tools and documents.
pub mod Prelude
pub mod Collections
pub mod Double
pub mod Address
pub mod Config
pub mod Message
pub mod Table
pub mod Registry
pub mod World
pub mod RequestQueue
pub mod Engine
pub mod History
pub mod Generation
pub mod Metric
pub mod ShortestPath
pub mod Adaptive
pub mod DecodeBudget
pub mod Codec
pub mod AntHeader
pub mod Router

-- ===== src/Lib.antt =====
-- A limit order book with price-time priority, fed by NASDAQ ITCH 5.0 messages.
--
-- The book (include/orderbook.hpp, src/orderbook.cpp) keeps, for each side, an array of price
-- levels, a bitmap of the levels in use, the best index and a count; a map from ids to orders; and
-- a pool that the orders are allocated in. A level (include/price_level.hpp) is an intrusive list
-- of the pool's orders. BookReplay (include/book_replay.hpp) turns the messages that the parser
-- (include/itch_parser.hpp) decodes into calls of the book.
--
-- Beside the book runs a metrics pipeline (metrics/include). A recorder in the book's thread pushes
-- events into a ring between one producer and one consumer; the aggregator, a thread of its own,
-- drains the ring, and makes a snapshot in each cycle that carries the rates and latencies, the
-- alerts, a tape of trades and the depth of the book. The depth comes from the book's thread through
-- a seqlock. The snapshot is printed as JSON and sent as one datagram.
--
-- Files:
--   Types         include/types.hpp, include/order.hpp, and Trade of include/orderbook.hpp
--   PriceLevel    the list of a level: add_order is addOrder, remove_order is removeOrder
--   ObjectPool    include/object_pool.hpp: the free list, allocate and deallocate
--   Bitmap        setBit, clearBit, highestSetBit and lowestSetBit of the book
--   OrderBook     the state, addOrder, cancelOrder, modifyOrder and the getters; the loops of
--                 match and executeMarketOrder, submitLimit and submitMarket in OrderBook/Matching
--   ItchParser    the field readers, decode and parseBuffer; in ItchParser/Dump the walk of
--                 fpga/tools/itch_dump.cpp over the same messages
--   BookReplay    the handlers of BookReplay and its counters
--   Histogram     metrics/include/latency_histogram.hpp
--   Ring          metrics/include/spsc_ring.hpp: try_push and try_pop as functions; access by access,
--                 as the steps of two threads, in Ring/Interleave
--   BookView      metrics/include/book_view.hpp: publish and read access by access
--   Metrics       metrics/include/metrics_event.hpp and metrics_snapshot.hpp, with Recorder
--                 (metrics_recorder.hpp), Alerts (metrics_alerts.hpp), Json (writeJson and
--                 udp_publisher.hpp), Aggregator (aggregator.hpp), and Pipeline, which composes the
--                 recorder, the ring and the aggregator
--   Timer         include/rdtsc_timer.hpp
-- getDepth stands in OrderBook/Depth, and publishDepth of metrics/book_dashboard_demo.cpp, which
-- hands its levels to the seqlock, in Metrics/Published.
-- The child modules hold the proofs, and modules named Tests small concrete runs. Prelude has the
-- shared tests, lists, maps, integers and bits.
--
-- How the code is read: an order's address is the number of its slot, and the heap a function from
-- slots to orders that the operations hand on. Pointers and the index -1 are options. uint64_t and
-- size_t keep their wrap-around; prices are integers without a bound, since a price sum that leaves
-- int64_t is undefined. A branch that the source repeats for buy and sell takes the side as an
-- argument. A vector is a function of the index with its length beside it. unordered_map is a
-- function into options. Option results are `none` where the code would read through null.
--
-- A book is right, or sound (OrderBook.Shape.IsBook), when every level is the queue of its orders, bitmap,
-- best index and counters say what the queues say, slots are free or live and never both, and the
-- map holds exactly the orders of the queues.
--
-- Fuel: the loops of match and executeMarketOrder take as many rounds as the pool has slots, and
-- two more. Each round that does not end match's inner loop takes an order out of its level, and
-- each round of its outer loop that does not end it empties a level, so no more are needed. A
-- round of executeMarketOrder that leaves orders in its level leaves them without shares, and the
-- next one ends the loop.
-- parse_buffer takes as many rounds as the buffer has bytes, and one more.
-- The last drain of run asks for one event more than the ring can hold.
--
-- Threads: the accesses that the two threads of the ring and of the seqlock make of shared memory
-- happen one at a time, in any order, and both see them in that order. What the release and acquire
-- orderings allow beyond that is not modelled.
--
-- A double is a type given by the user of Metrics, with the operations that the code applies to it
-- (Metrics.Double), and what printf makes of a number a function (Metrics.Printer). The clock, the
-- time stamp counter and the result of sendto are arguments.
--
-- Not modelled: reading the time stamp counter (inline assembly in include/rdtsc_timer.hpp and
-- metrics/include/tsc.hpp), the aggregator's readout on the console, sockets and files, the
-- floating-point display of prices, the benchmarks and the other demos, the FPGA feed handler
-- (fpga/) and the dashboard. METRICS_SCOPE in the book is taken with no recorder attached.
pub mod Prelude
pub mod Types
pub mod PriceLevel
pub mod ObjectPool
pub mod Bitmap
pub mod OrderBook
pub mod ItchParser
pub mod BookReplay
pub mod Histogram
pub mod Ring
pub mod Timer
pub mod BookView
pub mod Metrics

-- ===== src/Lib.antt =====
-- TDMH, a time division MAC for wireless mesh networks: the parts of network_module that the
-- master's scheduler rests on, and the packets that the nodes exchange. The master collects the
-- topology of the network and the streams that nodes ask for, from messages that come up hop by
-- hop, computes a periodic schedule of transmissions in time slots, and tells the nodes by
-- schedule packets. A node opens and closes its streams by the schedule, for the applications
-- that use them.
--
-- The parts, and how the source stands in them:
--
-- * Queue (Queue/): network_module/util/updatable_queue.h. The map of values and the list of
--   keys are a record; dequeue returns, throws, or follows an iterator that is not there.
-- * Bitset (Bitset/): network_module/util/runtime_bitset.h and .cpp, in the build without bit
--   banding, byte by byte. An access out of range throws, and is `none`.
-- * Topology (Topology/Graph): network_module/uplink_phase/topology/network_graph.h and .cpp,
--   ImmediateRemovalNetworkGraph, on those bitsets. The walk from the master inserts into the set
--   that it iterates over; the model splits the set at the iterator. Snapshot is the interface
--   through which the router reads a graph. Collect is NetworkTopology, of network_topology.h and
--   .cpp beside it: what a received topology changes, and its checks for a new schedule.
-- * Stream (Stream/): network_module/stream. Params is stream_parameters.h. Collection is the
--   StreamCollection of stream_collection.h and .cpp, with the elements that it receives from the
--   uplink through an UpdatableQueue. Changes is StreamSnapshot, the copy that the scheduler works
--   on, getStreamChanges, which compares it with a new schedule, and applyChanges. Wakeup is
--   stream_queue.h and .cpp, and Wakeup/Scheduler is stream_wakeup_scheduler.h and .cpp, the
--   thread of a node that wakes streams up.
-- * Scheduler (Scheduler/): network_module/scheduler. Lcm, Slots and Conflicts are the checks
--   that a transmission at an offset passes, and Allocate is scheduleStreams, which calls them for
--   each offset of each transmission of each routed stream. Router is the class of that name,
--   which finds the paths of the streams (Router/Run is its loop over them). Reschedule is
--   reschedule, which puts these together with the streams, and one round of the loop of
--   ScheduleComputation::run. Element is schedule_element.h.
-- * Packet (Packet/): network_module/util/packet.h and .cpp, an array of 125 bytes with a start,
--   an end, and room for a tag, from which operations throw. View is what a packet holds as a list
--   of bytes, Buffer what it promises to its users, Codec the rules for code that writes and reads
--   packets, and Secure the tags and the encryption.
-- * Wire (Wire/): the bytes of identifiers and parameters (stream_parameters.h), and of the
--   schedule packets of network_module/scheduler/schedule_element.h and .cpp.
-- * Uplink (Uplink/): network_module/uplink_phase. Allocation is how the topologies and
--   management elements of an uplink message are spread over its packets, in uplink_message.h and
--   .cpp, at both ends.
-- * Downlink (Downlink/): network_module/downlink_phase, the distribution of a schedule. Master
--   is master_schedule_distribution.h and .cpp, with the choice of the tile of its activation
--   (Activation); Node is dynamic_schedule_distribution.h and .cpp: Node/Collect puts a schedule
--   together from its packets and Node/Run is the state machine. What a phase asks of other
--   components is a log of events (schedule_distribution.cpp). Network puts the two together, slot
--   by slot. Expansion is schedule_expansion.h and .cpp, in which a node turns a schedule into
--   what it does in each slot.
-- * Endpoint (Endpoint/): network_module/stream/stream.h and .cpp, the ends of streams at a
--   node. Machine is the states of a Stream and the events that it goes through them by, Server
--   those of a server, and Socket the data of a stream: write and read, and sendPacket,
--   receivePacket and missPacket of the data phase. A method returns what it asks of the stream
--   manager and the callbacks that it calls.
-- * Manager (Manager/): network_module/stream/stream_manager.h and .cpp. The objects are a store
--   that the three maps and the servers point into. Calls are the calls of the application; Phases
--   and Schedule are what the MAC calls: the first in the data phase and from time to time, the
--   second with a new schedule, setSchedule and applySchedule. Tables is the abstract view of the
--   maps, Invariant and Consistent what they have to do with each other; Removal and Awaited
--   follow the streams that a schedule leaves out, and those that it opens.
-- * Base (Base/): maps and sets in the order of their keys, lists and tests on native numbers.
--
-- Numbers. `unsigned` arithmetic of the scheduler wraps at 32 bits; the bit-fields of
-- identifiers, parameters and offsets are numbers, with their widths as hypotheses or written
-- out at the writes. The theorems on schedules are for periods of up to 100 tiles, the ones that
-- network_module/stream/stream_parameters.h calls supported, and tiles of up to 10000 slots:
-- then no sum of the loops wraps, and no offset overflows its 20 bits. lcm is an `int`: its
-- value wraps at 32 bits, and a size of the schedule that divides a number below 2 ^ 31, as the
-- periods do, never gets there.
--
-- Fuel. The walk over the graph expands each node once, so it has one step more than there are
-- nodes, and so does the search for a path; the path back has a step for each parent. The
-- depth-first search recurs on its own limit. The Euclidean loop has one round more than its
-- first number. The loops of checkSlotConflict have a round for each slot of the hyperperiod.
-- Each is proved to end within that. The search for the tile of an activation has the ten rounds
-- after which the code gives up, with a failed assertion.
--
-- Parameters. The two graphs of the scheduler, as the topology has copied and pruned them, the
-- superframe and the sizes of tiles are fields of its configuration. The key manager of
-- receiveSMEs is reached through one virtual method, an argument here. The cipher of AesOcb is a
-- pair of functions on bytes; what is relied on is that it keeps lengths and takes its own work
-- apart again (Packet.Secure.IsCipher).
--
-- Not modelled: the bytes of the uplink messages; the keys of streams, and their rekeying; the
-- making of the lists of wakeup times; the data phase; the radio, on which a packet is heard or
-- not; time synchronization; cryptography. Mutexes are left out: an operation that holds one
-- from its start to its end is one step. What other threads do to the streams while reschedule
-- computes, between its two calls of the collection, is a function on the collection. A call
-- that blocks until a condition holds is split there, so the signals have nothing to do.
-- Debugging output is left out.
pub mod Base
pub mod Queue
pub mod Bitset
pub mod Topology
pub mod Stream
pub mod Scheduler
pub mod Packet
pub mod Wire
pub mod Uplink
pub mod Downlink
pub mod Endpoint
pub mod Manager

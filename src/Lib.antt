-- ===== src/Lib.antt =====
-- MiniPlex, a UDP multiplexer, and ProtoConv, which converts between a byte stream and datagrams.
--
-- The parts, and the files that model them:
--   * src/TimeoutCache.h: keys that time out. TimeoutCache.antt has `Add`, `TimerHandler`, `Keys`
--     and the rest as functions on a record of the map `Cache` (an association list) and the list
--     `KeySequence` (nodes with identities, for the iterators that entries keep). Below it,
--     Invariant relates entries to nodes, Spec relates the cache to a list of keys with access
--     times, Expiry a timer that expires to it, Timers is about the running timers, and Maps has the lemmas on the two lists.
--   * src/MiniPlex.h and src/MiniPlex.cpp: MiniPlex.antt has the object's state as a record, and
--     `Branches`, `AddressBranches`, `GetSrcDst`, `Forward`, `Hub`, `Trunk`, `Prune` and `Switch`
--     as functions from a state to a state and the datagrams sent, in their order.
--     MiniPlex/Process.antt has the constructor, `RcvHandler` and what the timers start. Known,
--     Modes, Fixed, Pruned, Switched and Routes are about one invariant or mode each, Runs about
--     every interleaving of handlers, Start and Accepts about construction
--     (Accepts has the checks of src/CmdArgs.h, Given its options and their defaults), and Counts has
--     the lemmas that count how often an endpoint occurs. MiniPlex/Buffers.antt has `Rcv` and
--     `MakeSharedBuf`, with the buffers that the socket, the handlers and the sends hold.
--   * src/ProtoConv: ProtoConv.antt has frames, the interface of a frame checker and the checker
--     that checks nothing; ProtoConv/Crc.antt `crc_ccitt`; ProtoConv/Delim.antt `AddDelim` and
--     `DelimFrameChecker`; ProtoConv/Stream.antt `RcvStreamHandler`, over any frame checker, with its
--     loop in Loop and frames that arrive in any reads in Reads;
--     ProtoConv/Wire.antt `RcvUDPHandler`, for datagrams that reach a stream handler through a byte
--     stream, and ProtoConv/Through.antt the way on through the fragment handler;
--     ProtoConv/Dnp3.antt `DNP3FrameChecker`, with Starts about the start bytes, Lengths about the
--     lengths of frames, Table the table of the CRC, and Encode, Blocks, Transport, RoundTrip and
--     Arriving about the frames of a sender: how the standard makes them, and how they are found;
--     ProtoConv/Reorder.antt `DelimFragHandler`, with Conserved about which frames it writes,
--     Sequence about their order, Late about a frame that comes too late, and Circular, Runs,
--     InTime, Restoring and Restored about frames that arrive in any order;
--     ProtoConv/Flows.antt `DNP3FragHandler`, with Pending about which frames it writes,
--     Flags about its flows, Isolated about flows side by side, and Message, Numbered, Collecting and
--     Reassembled about the fragments of a message;
--     ProtoConv/Args.antt the options of the command line and their checks; ProtoConv/Construct.antt
--     the constructor, with Devices about the settings of serial devices and Streams about what it
--     makes and when it throws; ProtoConv/System.antt the frame checker and the fragment handler
--     that it chose, one behind the other, and `NopFragHandler`, with Conserved about all bytes and
--     Messages about the messages of DNP3, and Datagrams, Timed and Delivered about datagrams with
--     delimiters; ProtoConv/Receiving.antt `RcvUDP`
--     with its buffers and the two strands. ProtoConv/Serial.antt has the queue of
--     `SerialPortsManager::Write`, Queue the messages that arrive and the writes that end, Scheduled
--     and Live what holds of them, Settings the setters with PerPort about them, Opening `Start`,
--     `Read` and `Stop`, Lifetime the handlers that hold the tracker and the destructor that runs
--     them, and Returns when it returns.
--   * src/Examples/SwitchBytecode: SwitchBytecode.antt has `computeCRC` and `getAddrs` of the two
--     programs for Switch mode, Bits compares their CRC with the table of `DNP3FrameChecker`, and
--     Agrees the headers that they accept.
--   * src/main.cpp, src/LogSetup.cpp, src/ProtoConv/main.cpp and src/ProtoConv/LogSetup.cpp:
--     Programs.antt has `setup_logs` and `main` of both programs, Log is about the levels of the log
--     and Exit about the exit code.
--   * Base.antt passes on the shared names; Base/Tests.antt, Base/Lists.antt, Base/Options.antt,
--     Base/Sets.antt, Base/Placing.antt, Base/Every.antt and Base/Xor.antt have Boolean tests, lists
--     over native numbers, results that may be missing, sets as lists, lists in the order of a key,
--     predicates of all elements, and the bits of numbers.
--   * The modules named Tests, but for Base/Tests.antt, run examples.
--
-- How they interact: a received datagram goes through `Branches`, which adds its sender to the
-- cache of active branches, and then through the mode, which reads the keys of that cache. When an
-- entry of the cache expires on the process strand, its timeout handler is posted to the pool,
-- where it may run at any later time: `posted` holds such handlers, and a step of Runs runs one.
-- In ProtoConv the stream handler cuts the stream's bytes into frames with the frame checker, and
-- hands them in their order to the fragment handler, which writes them as datagrams. In the other
-- direction a datagram is received into a buffer on the socket strand, handled on the process
-- strand, which gives the buffer back, and written to the stream; on serial ports it goes to the
-- port that is idle the longest, or waits in a queue for the first write that ends.
--
-- Bounds and fuel: bytes and addresses are natural numbers, sequence numbers wrap at 2 ^ 32, and
-- the CRC is computed modulo 2 ^ 16. The loop of `RcvStreamHandler` has as fuel the length of the
-- buffer, which is enough since each turn takes a byte or more; the loop over the blocks of a DNP3
-- frame has the length of the frame, and takes 18 bytes a turn; a message of DNP3 has 2 to 34
-- fragments, since `FragCmp` does not order longer ones, whose numbers count modulo 64; the
-- destructor of the serial ports runs over a list of turns, and Returns has how many are enough.
-- The queue of `DelimFragHandler` is a list in the order in which its frames come out, those that
-- `FrameCmp` does not order in the order of arrival; the queue of `DNP3FragHandler` likewise.
-- Readings of the clock within one call are one instant, and times are natural numbers. Functions
-- posted by `DNP3FragHandler` run at once.
--
-- Parameters: an endpoint of the sockets library is a type with a decidable equality and an order;
-- the virtual machine of Switch mode (src/TinyRISCV64.h, third party) is a record of calls, each
-- of which may throw; parsing of addresses, opening the socket and loading of byte code are
-- functions. The constructor of ProtoConv takes what it calls outside as a record of functions:
-- addresses, the UDP socket, the times of the TCP stream, opening devices, the sizes of characters
-- that are accepted, and the settings that a port refuses. `main` takes the levels of the logging
-- library and whether a rotating file can be made, and how the runs of the context end. The
-- destructor of the serial ports takes which handler is ready in each turn.
--
-- Not modelled: the sockets themselves, the queue of the logging library (which drops the oldest
-- messages when it is full), a failure to start a thread of the pool, the text of the log and of
-- the command line, the benchmark, src/ProtoConv/TCPSocketManager.cpp (third party; a TCP stream
-- is its arguments), and the native calls of src/ProtoConv/NativeFlowCtrl.cpp and
-- src/ProtoConv/Platform.h (pure calls of the system).
mod Base
pub mod TimeoutCache
pub mod MiniPlex
pub mod ProtoConv
pub mod SwitchBytecode
pub mod Programs

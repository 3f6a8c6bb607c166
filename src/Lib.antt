-- ===== src/Lib.antt =====
-- A verification library for this repository: an echo server over UDT sockets with an event poll,
-- its clients, and the UDT library with a patched event poll.
--
-- The parts and how they interact. A client sends messages over a UDT socket; the server
-- (server_udt/udt_server.cpp, UDTServer) waits on an event poll, takes the messages of each socket
-- that is readable and queues them for the same socket in its sender (server_udt/send_msg_ctrl.cpp,
-- SendMsgCtrl), which keeps one queue for each socket (server_udt/send_msg_buf.cpp, SendMsgBuf) and
-- asks the poll for write events only while a queue has messages. The poll is CEPoll
-- (udt4/src/epoll.cpp), which the library's sockets tell when they become readable or writable
-- (udt4/src/api.cpp and core.cpp). A socket keeps the packets to send in a CSndBuffer and those
-- received in a CRcvBuffer (udt4/src/buffer.cpp). The queues of a UDP port (udt4/src/queue.cpp) serve the
-- sockets: CSndUList says which one sends next, CRcvQueue reads packets into the units of a CUnitQueue,
-- finds their sockets in a CHash and checks the timers of those on its CRcvUList.
--
-- The files.
--   Prelude, Std: numbers, lists, and the C++ containers std::set and std::map.
--   Udt: the library's calls as the programs make them, an interface over an abstract state; what
--     is assumed of it is named (SendsWhole, FillsBuffer), after
--     the library's documentation (udt4/doc/doc). Udt/Toy is a small instance.
--   SendMsgBuf: the class of that name; SendMsgBuf/Fifo compares it with independent FIFOs,
--     SendMsgBuf/Compact is about the entries of its map.
--   SendMsgCtrl: the class of that name; SendMsgCtrl/Drain is about one socket's send loop,
--     SendMsgCtrl/Armed about its set of watched sockets, SendMsgCtrl/Watch about sequences of calls
--     and what they ask of the poll.
--   UdtServer: the class UDTServer; UdtServer/Setup has CreateListenSocket and Run around its loop,
--     UdtServer/Echo one round of the read loop, UdtServer/ReadLoop the loop, UdtServer/Rounds the
--     loop of Run.
--   Epoll: CEPoll but for wait; Epoll/Lookup, Epoll/Watched and Epoll/Calls are about its
--     descriptors, Epoll/Wait is wait, with Epoll/Wait/Collect, Reports and Ends about it.
--   SockEpoll: epoll_add_usock and epoll_remove_usock of udt4/src/api.cpp, addEPoll, removeEPoll and
--     the non-blocking recvmsg of udt4/src/core.cpp; SockEpoll/Views says what a poll shows of a
--     socket, SockEpoll/Rearm and SockEpoll/Receive are about the two patched paths, SockEpoll/Ring
--     puts RcvBuffer behind recvmsg.
--   A file Tests below a component holds runs of it.
--   ThreadsafeQueue: client_epoll/threadsafe_queue.hpp; ThreadsafeQueue/History is about the steps of
--     several threads.
--   UdtClient: the class UDTClient of client_epoll; UdtClient/Setup has Start and Run. UdtClient/Ledger
--     and Logged say where its messages are, Sending, Turns and Receiving are about TrySendMsg and
--     TryRecvMsg, Moves and Rounds about the loop of Run.
--   PollClient: what the class UDTClient of client (without an event poll) does otherwise.
--   SeqNo: CSeqNo, CAckNo and CMsgNo of udt4/src/common.h; SeqNo/Wrap and SeqNo/Msg compare them with
--     counting.
--   TestStr: server_udt/test_util.cpp, the generator of test messages; TestStr/Size is about lengths.
--   RcvBuffer: CRcvBuffer of udt4/src/buffer.cpp, the packets that a socket has received.
--     RcvBuffer/Positions counts positions in its ring; Skip, Found, Search, Copying and Safe are about
--     scanMsg and readMsg over any contents, Message and Whole about a whole message, Pending, Stream
--     and Acked about a stream, Reach about sequences of calls.
--   SndBuffer: CSndBuffer of the same file, the packets that a socket sends. SndBuffer/Chunks, Growing
--     and Adding are about addBuffer, Reading about readData and ackData, Refines about sequences of
--     calls, Transfer, Delivery and RoundTrip about a message on its way to a CRcvBuffer.
--   AckWindow: CACKWindow of udt4/src/window.cpp, the acknowledgements under way. AckWindow/Entries lists
--     its entries, Refines is about acknowledge, Storing about store.
--   SockSend: the non-blocking sendmsg of udt4/src/core.cpp over SndBuffer and Epoll; SockSend/Room counts
--     packets for a number of bytes, Sent is about the call.
--   SndUList: CSndUList of udt4/src/queue.cpp, the heap of the sockets that have packets to send.
--     SndUList/Order states its order, Up and Down are about the two loops, Inserting, Removing,
--     Popping and Updating about the methods, Leaving about the order after remove, Room and
--     Overrun about the end of its array, Calls about sequences of calls.
--   UnitQueue: CUnitQueue of udt4/src/queue.cpp, the units for incoming packets. UnitQueue/Counting is
--     about its count and size, Finding about the search for a free unit, Calls about the calls.
--   Hash: CHash of udt4/src/queue.cpp; Hash/Stacks compares it with one stack for each id.
--   RcvUList: CRcvUList of udt4/src/queue.cpp, a list linked both ways. RcvUList/Line is the sequence that
--     it stands for, Linking and Unlinking are about its methods, Worker is the loop of
--     CRcvQueue::worker over new sockets and over those whose timers are due, over RcvUList and Hash.
--   RcvQueue: the rest of CRcvQueue and CRendezvousQueue of udt4/src/queue.cpp: listener, new entries,
--     connecting sockets and the packets kept for them. RcvQueue/Buffers follows the packets of each
--     socket, Bounds is about their number and what recvfrom gives.
--
-- How the source is read. Numbers are natural numbers. An int handle is its 32-bit pattern, so that
-- -1 is 2^32 - 1. A message is a list of bytes, and msg_ptr_t an optional one, none being the null
-- pointer. A method takes the object and the library's state and returns them anew. The library's
-- exceptions are error codes, as its API returns them.
--
-- Bounds and fuel. The send loop of one socket has one round more than the messages queued, which is
-- always enough. The do-while loop on a socket has no bound of its own: it goes on as long as
-- recvmsg says that messages are left. It takes any fuel, and the theorems about it say that it ends,
-- or that recvmsg said so as many times in a row as there is fuel (Spins in UdtServer/Echo). The
-- loops of Run are bounded by a number of rounds, for any number. The loop of CEPoll::wait runs over
-- the passes that it makes; other threads change the state between two of them. The loops over the
-- ring of a CRcvBuffer take one step more than its slots, and the growing of a CSndBuffer one step
-- more than the packets that it is to hold; a pass over an expired message takes any fuel, since on a
-- list whose blocks all have its number it does not end.
-- The heap of CSndUList is a function from positions; that a node was written behind the end of its array
-- is a field of the model (overrun), after which nothing is claimed of the program. Its loops go along one path of its heap, so that the number of nodes is enough; the search
-- of CUnitQueue passes each queue once and each unit of it at most once; the worker's loop over the
-- sockets to check takes one step more than those on the list.
--
-- Not modelled. Console output, clocks and counters that are only printed, sockaddr structures,
-- threads and locks (each method of CEPoll is one step under its lock), the branches for systems
-- other than Linux, the blocking paths of recvmsg and sendmsg, and the rest of the UDT library
-- (congestion control, loss lists, timers, file transfer), which the programs reach through the
-- interface only.
pub mod AckWindow
pub mod Epoll
pub mod Hash
pub mod PollClient
pub mod Prelude
pub mod RcvBuffer
pub mod RcvQueue
pub mod RcvUList
pub mod SendMsgBuf
pub mod SendMsgCtrl
pub mod SeqNo
pub mod SndBuffer
pub mod SndUList
pub mod SockEpoll
pub mod SockSend
pub mod Std
pub mod TestStr
pub mod ThreadsafeQueue
pub mod Udt
pub mod UdtClient
pub mod UdtServer
pub mod UnitQueue

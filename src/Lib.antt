-- ===== src/Lib.antt =====
-- A distributed file system: an RPC library with at-most-once calls (directory rpc), an extent server
-- that stores the contents of files and directories, a client of it with the operations of a file
-- system, and a lock server. Clients reach both servers by calls of the library.
--
-- The parts and their files:
--   Base       Boolean tests, the chain of fallible steps, lists, memory as a function from
--              addresses, std::map as an association list.
--   Rpc        rpc/marshall.h and rpc/rpc.h, rpc/rpc.cc.
--     Marshall, Unmarshall   the classes of these names: the buffer with its capacity and head, and
--              one function for each operator<< and operator>>. Marshall/Writes says what a writer
--              appends, Unmarshall/Reads what a reader takes.
--     Codec    the overloads for one type together, with vectors and maps; Codec/Laws and Codec/Maps:
--              lawful codecs.
--     Message  a message with header and body, and the readers of headers; Message/Packing: how one
--              is made.
--     Window   reply_window_ of rpcs: checkduplicate_and_update, add_reply, free_reply_window.
--              Window/Laws describes one request, Window/Trace sequences of events.
--     Server   rpcs: reg, dispatch (route, serve, execute, deliver and answer are its parts).
--              Server/Setup: the constructor; Server/Jobs: got_pdu and the jobs of the pool;
--              Server/Counting, Server/References: the reference counts of connections.
--     Client   rpcc: call1 before and behind its loop, got_pdu, bind; Client/Acks: update_xid_rep;
--              Client/Received: what its list stands for.
--              Client/Retry: the loop of call1 and get_refconn, for given clocks and connections.
--     Call     a call from the client through the server and back; Bind: the first of them.
--              Ending: the destructors of rpcc and rpcs.
--     Connection   class connection (rpc/connection.h, rpc/connection.cc): pdus over a stream of
--              bytes. Connection/Sends and Connection/Receives describe each direction,
--              Connection/Transport both ends together, for the messages of the RPC library.
--              Connection/Senders: several threads in send, step by step, with the callbacks and
--              closeconn: the stream (Whole, on Stream, Holders and Attempts), who is woken
--              (Wakeups, on Rousing), and who is not (Stranded). Connection/Accepting: class tcpsconn.
--     Pollmgr  SelectAIO and PollMgr (rpc/pollmgr.h, rpc/pollmgr.cc). Pollmgr/Loop: wait_loop and the
--              threads that register and remove callbacks, in any order; Pollmgr/Epoll: EPollAIO.
--     Pool     class fifo (rpc/fifo.h) and ThrPool (rpc/thr_pool.h, rpc/thr_pool.cc): the queue of
--              jobs and the threads on it, which run in any order.
--     Timespec cmp_timespec, add_timespec, diff_timespec.
--   Extent     extent_server.cc, extent_server.h, extent_protocol.h. Extent/Service: extent_smain.cc
--              and extent_client.cc; Extent/Calls and Extent/Remote: its operations as remote calls.
--   Yfs        yfs_client.cc, yfs_client.h; Yfs/Directory reads the text of a directory. The extent
--              client's operations are taken as those of the server.
--   Fuse       fuse.cc: the handlers on the operations of Yfs, with the replies that they send;
--              Fuse/Requests: the table of them, and one request after the other.
--   Lock       lock_server.cc, lock_server.h: one lock and the threads in acquire and release, which
--              run in any order, on a mutex and a condition variable of POSIX threads; Lock/Many: the
--              locks of all ids. Lock/Service: the map of locks with whole operations,
--              lock_smain.cc and lock_client.cc; Lock/Remote: remote calls.
--
-- How state and errors are modelled. An object is a record, and an operation returns the new one. A
-- byte is a number below 256 and a w-bit integer a number below 2 ^ w; a negative int is its bit
-- pattern. A failed assertion, a NULL pointer, a read beyond a buffer and a failed realloc are `none`.
-- What malloc returns is an argument; so are time(NULL), random() and the garbage in locals that are
-- read before they are assigned. The size of a message stays below 2 ^ 28 bytes where it is written
-- and below 2 ^ 31 where it is read, which is what keeps the ints of the code from overflowing.
--
-- Fuel: digits (Yfs) has twenty rounds, one for each digit of 64 bits; scan (Yfs/Directory) has a
-- round for each byte of the content and one more, and each round passes a colon; carry
-- (Rpc/Timespec) has two rounds, and one suffices for a time below a second plus less than one. The
-- loop of call1 (Rpc/Client/Retry) runs over a list of rounds, and eight are enough for to_max.
--
-- What the system does is an argument: what read, write, select, epoll_wait and epoll_ctl return, and
-- how FUSE lays out the entry of a directory. Of select it is taken that it only removes descriptors
-- from the sets. Where no file says otherwise, pthread_cond_wait does not wake up by itself.
--
-- Not modelled: the wrappers of threads and mutexes (rpc/method_thread.h, rpc/slock.h); logging; a
-- clock for another operating system; the testers. The order in which several dispatches run is
-- modelled for the window of replies only, in Rpc/Window/Trace; elsewhere one dispatch runs at a
-- time. The operations of Yfs use the extent server directly, where the source goes through the
-- calls of Extent/Remote.
mod Base
pub mod Rpc
pub mod Extent
pub mod Yfs
pub mod Fuse
pub mod Lock

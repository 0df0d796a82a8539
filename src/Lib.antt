-- ===== src/Lib.antt =====
-- A model of the library libmsrv, a small multithreaded TCP and UDP server framework in C++, and
-- theorems on it. The paths below are from the repository's root.
--
-- The parts. A ServerListener is a Listener: it keeps an array of descriptors, waits for events on
-- them, accepts connections on its server socket, reads the data that arrives, and makes a Request of
-- each event, which it gives to the RequestHandler of the application. A request is handled in the
-- listener's thread, or put into the queue of a WorkerPool. Every object that threads share carries a
-- ThreadLock; a LogFile takes the messages.
--
-- The files:
--   Errors               libmsrv/include/magicserver/msrverror.h: the error codes
--   Lock, Lock/Wait      libmsrv/src/msrvthread.cc, ThreadLock: lock, unlock, initCond (init_cond),
--                        wait, signal, broadcast
--   Lock/Thread          libmsrv/src/msrvthread.cc, Thread: start, join
--   Lock/Lifetime        the same file, ThreadLock and Thread: the calls of the threads library from the
--                        constructor to the destructor
--   Lock/Threads         threads that share an object which a ThreadLock guards: their steps, in any
--                        order
--   Memory               malloc, realloc, free, memcpy and reads, as the C standard describes them: an address
--                        names a block of cells, and a cell may be unwritten
--   Container/Array      libmsrv/include/magicserver/msrvcontainer.h, Array and its Iterator
--   Container/Queue      the same file, ListItem and Queue: list items in a heap of their own
--   Container/Queue/Steps  Queue::push and Queue::pull once more, statement by statement
--   Log, Log/Writing     libmsrv/src/msrvlog.cc, LogFile: the constructors, setFilename, open, close,
--                        the destructor; write and message
--   Listener             libmsrv/src/msrvlistener.cc: the state, startShutdown, setTimeout and
--                        removeDescriptor
--   Listener/Listen      Listener::listen, with a round of select in listen_loop: watch_loop fills the
--                        set, dispatch_loop reads it, close_loop closes what is open at the end
--   Request              libmsrv/src/msrvrequest.cc: the request classes and the switchboard
--                        RequestHandler::process
--   Request/Data         the same file, DataRequest: the buffer with a request's data
--   Request/Objects      the same file: the constructors of the request classes
--   Server               libmsrv/src/msrvserver.cc: the state of a ServerListener and its connections,
--                        Connection::close and ServerListener::close
--   Server/Bind          ServerListener::bind
--   Server/Events        ServerListener::accept, descriptorEvent and timeoutEvent
--   Server/Events/Buffer the read loop of descriptorEvent once more, with its buffer in storage
--   Server/Shutdown      ServerListener::ConnIter and ServerListener::shutdown
--   Worker               libmsrv/src/msrvworker.cc: WorkerPool::process and shutdown, Worker::execute,
--                        and the deletion of the workers
--   Worker/Handler       the same file: process, shutdown and the destructor once more, as the
--                        listener's thread sees them, on the state of the server
--   Sample/Handler       examples/libmsrvsample/src/samplehandler.cc: MyHandler, the sample handler
--   Sample/Text          what it does with text: the data that it cuts, the messages that it prints
--   Sample/Program       examples/msrvsample_listener/src/samplelistener.cc: serverMain
--   Sample/Pooled        examples/msrvsample_worker/src/sampleworker.cc: serverMain
--   Sample/Arguments     examples/libmsrvsample/src/samplemain.cc: parse_cmd and main
-- The theorems on a part stand in the modules below it, with their examples in a module Examples. The
-- modules of Prelude hold the helpers that the parts share.
--
-- How the code is modelled. An operation takes the state of its object and returns a new one. What
-- may go wrong in C++ (a NULL pointer, storage that was freed or never written, an access outside a
-- block) is the value `fault`. What an operating system call answers (socket, bind, select, read,
-- fopen, fprintf, the pthread calls, the time) is an argument. The methods of the application's
-- handler, its connection factory and the log of a listener are parameters too; the log's messages
-- are kept as a list, with their format strings, and so is what the sample handler passes to write ().
-- FD_SET and FD_ISSET are as POSIX documents them: outside 0 to FD_SETSIZE they reach beyond the set.
-- The sample's messages are lists of bytes; gethostbyaddr, atoi and serverMain are arguments. A lock
-- counts the calls of lock () that the running thread has not undone: the mutex is recursive. An
-- `int` is an integer without a bound where it counts descriptors or list positions; the size of the data
-- in Server/Events/Buffer is an `int` of 32 bits, and a sum that is none is the fault `overflow`.
--
-- Deletion. A list item's object that was deleted before is not deleted again without a fault. The
-- buffer of a request comes from malloc, and C++ leaves `delete` of it undefined: in Request/Data what
-- `delete` does is an argument, and the requests of Server, whose data are lists, are destroyed
-- without that step. ~WorkerPool deletes its array without the brackets of `delete[]`, which is taken
-- to free it. In Lock/Lifetime pthread_cond_init is allowed only from initialised attributes.
--
-- Fuel. removeDescriptor has a round for each descriptor and one more, which is enough for every
-- array. The destructor of a list item runs through the items behind it: two rounds are enough for
-- the item that pull takes out, and with fewer `pull` is `out_of_fuel`. A loop over an array's iterator
-- needs a round for each item and one more. The read loop takes the answers of read from a list,
-- and listen those of select; its loop over the descriptors that have changed takes fuel, since an
-- event may add descriptors. The loops of the sample handler over the connections need more fuel than
-- there are descriptors.
--
-- Threads. A pool of workers is modelled by the steps of its threads, one at a time, in any order:
-- what a thread does while it holds a lock is one step. A signal wakes one sleeping worker if there is
-- one, and a worker may wake without a signal.
--
-- For any object that a ThreadLock guards, Lock/Threads has the threads' steps inside an operation;
-- those of a queue are its statements, and a call of message is one step.
--
-- In Worker/Handler a worker's call of the handler is one step of the server's state, the calls that
-- come before the listener's thread goes on are counted by an argument, and the joins of the shutdown
-- are taken to return; Worker has the interleavings in which they do not. The phase of the worker that
-- the shutdown does not join, when ~WorkerPool deletes it, is an argument of Sample/Pooled.
--
-- Not modelled: the accesses of a handler in a worker's thread between the listener's own accesses to
-- the server; the messages of the pool in the log of Worker, which the steps leave out; accessors that
-- return a member.
pub mod Prelude
pub mod Errors
pub mod Lock
pub mod Memory
pub mod Container
pub mod Log
pub mod Listener
pub mod Request
pub mod Server
pub mod Worker
pub mod Sample

-- ===== src/Lib.antt =====
-- A Tiny Network Library: a C++ network library in the style of muduo, one loop per thread, with
-- an HTTP server, timers and an asynchronous logger.
--
-- How the parts interact. An EventLoop waits in its poller, handles the channels that are active
-- and then runs the functors that were queued. A Channel hands the events of a descriptor to the
-- callbacks of its owner. A TcpConnection owns a channel and two Buffers: it reads into the one,
-- calls the user, and sends what the user gives it, keeping in the other what the kernel does not
-- take yet. An HttpServer is the user of such a connection: it parses each message by an
-- HttpContext into an HttpRequest, asks a callback for the HttpResponse and sends it. A TimerQueue
-- is the owner of a channel on a timerfd. The logger formats a line into a FixedBuffer and hands
-- it to AsyncLogging, which passes it between threads by exchanging buffers and writes it to a
-- LogFile. A ThreadPool runs tasks in worker threads, and a ConnectionPool keeps connections to a
-- database. A MemoryPool cuts small pieces of memory from pages and keeps a list of large blocks.
--
-- What models what. Names are those of the source in snake case, in the module of their class.
--   Net.Buffer         src/net/Buffer.h, Buffer.cc: readFd, writeFd, append, makeSpace, retrieve...
--   Net.Channel        src/net/Channel.h, Channel.cc: handleEvent, the masks
--   Net.Poller         src/net/poller/EPollPoller.cc, Poller.cc: updateChannel, removeChannel, poll
--   Net.TcpConnection  src/net/TcpConnection.h, TcpConnection.cc: send, sendInLoop, handleRead,
--                      handleWrite, handleClose, shutdown, connectEstablished...
--   Net.EventLoop      src/net/EventLoop.h, EventLoop.cc: loop, queueInLoop, runInLoop, quit,
--                      doPendingFunctors, wakeup
--   Net.EventLoopThread  src/net/EventLoopThread.cc: startLoop, threadFunc
--   Net.TcpServer      src/net/TcpServer.cc, EventLoopThreadPool.cc: newConnection,
--                      removeConnection, getNextLoop; Net.TcpServer.Start: start and the destructor
--   Net.Acceptor       src/net/Acceptor.h, Acceptor.cc: listen, handleRead, the destructor
--   Net.InetAddress    src/net/InetAddress.h, InetAddress.cc: toIpPort, toPort
--   Http.Request       src/http/HttpRequest.h: setMethod, addHeader, getHeader...
--   Http.Context       src/http/HttpContext.h, HttpContext.cc: parseRequest, processRequestLine
--   Http.Response      src/http/HttpResponse.h, HttpResponse.cc: appendToBuffer
--   Http.Server        src/http/HttpServer.cc: onMessage, onRequest; Http.Server.Start: the constructor,
--                      start
--   Http.Example       src/http/main.cc: the callback of the example server
--   Timer, Timer.Queue src/timer/Timer.h, Timer.cc, TimerQueue.cc, src/base/Timestamp.h: addTimer,
--                      getExpired, reset, handleRead, resetTimerfd
--   Timer.Timestamp    src/base/Timestamp.cc: now, toFormattedString
--   Logger             src/logger/FixedBuffer.h, LogStream.cc, AsyncLogging.cc: append,
--                      formatInteger, threadFunc
--   Logger.Logging     src/logger/Logging.h, Logging.cc: the macros LOG_DEBUG..., Logger, SourceFile
--   Logger.LogFile     src/logger/LogFile.cc: append, rollFile; Logger.FileUtil: FileUtil.cc
--   ThreadPool         src/base/ThreadPool.h, ThreadPool.cc: add, stop, runInThread
--   Mysql              src/mysql/ConnectionPool.cc: getConnection, addConnection, recycleConnection;
--                      MysqlConn.cc: query, next, value, the destructor
--   Memory.Pool, Memory.Malloc, Memory.Free
--                      src/memory/MemoryPool.h, MemoryPool.cc: createPool, malloc, calloc,
--                      freeMemory, resetPool, destroyPool. Memory.Arena is what the pages promise,
--                      and Memory.MemoryPool what holds of the calls.
-- The children of a module are named for what they prove. Common holds lists, options, tests, words,
-- texts and the answers of system calls; Tests holds concrete inputs.
--
-- State. A class is a record of its members, and a method a function on it. Memory is a list and a
-- pointer its index; std::string and the bytes of a buffer are lists of character codes. What
-- leaves a part, system calls, callbacks, work queued in a loop, is a list of effects. The answers
-- of the kernel and the clock are arguments. `none` is an exception or an access out of bounds.
-- Threads are explicit: the loop, the logger and the pools are step relations or sequences of
-- events in which the calls of other threads stand between those of the thread.
--
-- Bounds and fuel. A vector has at most 2^63 - 1 bytes; a size_t and an address keep their wrap at
-- 2^64, an unsigned int its wrap at 2^32, and so does a length that goes through an int. The loop
-- of parseRequest takes one line a turn, so two more turns than the bytes of the input are enough
-- while it reads lines. A number of 64 bits has at most 20 digits, so 20 turns format it. The loop
-- that writes a text to a file takes a byte a turn at least, so the bytes of the text are enough.
--
-- Not modelled: running out of memory where the program does not test for it; the setters that
-- only store a callback; what is only printed or logged; sockets and threads, which only wrap
-- system calls; the start and the stop of the logging thread; the names of the log files. The
-- clock, the calendar, accept4, inet_ntop, snprintf of a floating-point number, posix_memalign,
-- fwrite and the client library of the database are arguments. The JSON library and the stopwatch
-- are other projects' code.
pub mod Common
pub mod Net
pub mod Http
pub mod Timer
pub mod Logger
pub mod Mysql
pub mod Memory
pub mod ThreadPool
pub mod Tests

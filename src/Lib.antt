-- ===== src/Lib.antt =====
-- netyo, a reactor based TCP server in C++17.
--
-- The parts. An event loop (src/net/eventloop) polls a selector for the descriptors that are ready.
-- Each descriptor has a `Channel`, which keeps the events it is to be watched for, tells the selector
-- about them, and hands the events that come to the callbacks of its owner. The owner is a
-- `TcpTransport` (src/net/Transport.cpp): a connection with two `Buffer`s (src/net/Buffer.h), one for
-- what arrives and one for what is to be sent, and a state that says how far the connection is opened
-- or closed. A `Buffer` is a ring of bytes in a vector. A loop also has a queue of tasks, which other
-- threads add to and which wakes it through a descriptor, and a queue of timers with a descriptor that
-- is set to the next one. Several loops make up a pool of threads. A timing wheel drops what has been
-- given to it after a delay. The server gives each connection that it accepts to a loop of the pool, and
-- keeps in the wheel what closes the connection when nothing has come from it for its timeout.
--
-- The files.
-- - Prelude: names of the library, numbers, lists and integers for all the others.
-- - Ring: `RingBuffer` of src/net/Buffer.h. `Ring` is its fields, the vector as a list; the operations
--   have the names of the source, `mod_index` is `MOD`, `at` is `operator[]`, `with_count`, `of_range`
--   and `assign` are the constructors and `operator=`. `contents` is what the ring holds, oldest first,
--   and the specification of every operation. Ring/Entries has the validity of a ring, Ring/Reserve
--   growth in one piece, Ring/Wrapped and Ring/Loss growth of contents that go round the end, Ring/Push
--   and Ring/Pop the other operations.
-- - FixedRing: `FixedRingBuffer` of src/net/Buffer.h, on the fields of `Ring`. `evict_front` is what
--   `push_back` does on a full ring, `write_index` a write whose index may be negative.
--   FixedRing/Window is about `push_back` and `pop_front`, FixedRing/Holes about `pop_back`.
-- - Posix: the calls on a socket that move data, an interface with the laws of their manual pages.
--   Posix/Calls: the other system calls that a `Socket` makes, an interface with no laws.
-- - Inet: `InetAddr` of src/net/Socket.h, over the address functions of the C library; `of_ip` is the
--   constructor from a text, `text` the conversion to one. Inet/Texts is about the two.
-- - Socket: `Socket` of src/net/Socket.h, over Inet and Posix/Calls; `of_fd`, `new_socket` and
--   `move_from` are its constructors, `take_socket` what the constructor of `Transport` does with one.
--   Socket/Transfer is about the way of a descriptor from `accept` to a connection.
-- - Buffer: `Buffer` of src/net/Buffer.h. `make_space`, `free_spans`, `scatter` and `feed_loop` are the
--   pieces of `feed_rbuffer`, `drain_first` and `drain_second` the two writes of `drain_wbuffer`,
--   `copy_in` the copies of `feed_wbuffer`. Buffer/Spans, Buffer/Pour have the spans of the vector that
--   are read and written; Append and Overflow are about `feed_wbuffer`, Drain and Resend about
--   `drain_wbuffer`, Peek about `drain_rbuffer`, Fill and Hole about `feed_rbuffer`.
-- - Epoll: `epoll_ctl`, an interface, and `EpollSelector::add`, `modify`, `remove` and `update` of
--   src/net/eventloop/selectors/EpollSelector.cpp on it. `exhausted` says which calls fail for want of
--   memory or of watches, which the source does not see.
-- - Channel: `Channel` of src/net/eventloop/Channel.h; Channel/Registration, Channel/Destroy and
--   Channel/Dispatch are about its registration, its end and its events.
-- - Mpsc: `MpscQueue` of src/net/eventloop/MpscQueue.h. `exchange` and `link` are the two steps of
--   `enqueue` that other threads see, `dequeue_from` the end of `dequeue`. The node of an exchange is
--   made in the same step, as no other thread knows it before. Mpsc/Threads has the steps of the
--   threads and Mpsc/Fifo their invariant, Mpsc/Answer what `dequeue` and `link` come to, Mpsc/Destroy
--   the destructor after them.
-- - Transport: `Transport` and `TcpTransport` of src/net/Transport.cpp. A handler takes the connection
--   `Conn`, with the selector, the socket and the clock that it changes, and returns the new one. The
--   callbacks of the program are parameters. Transport/Counting has what the handlers do
--   to the count of `lost`, Transport/Lost any sequence of them; Close and Reactivate are about the close
--   protocol.
-- - Acceptor: `activate` and `handle_onread` of `TcpServerAcceptor` (src/net/Transport.cpp).
-- - Ring/Iterator: `_iterator` of `RingBuffer` (src/net/Buffer.h). `Index` is its `lo`, a value or a
--   reference; Ring/Traverse is about a pass over a ring and about a store.
-- - Timer: `Timer` and `TimerQueue` of src/net/eventloop/TimerQueue.cpp. The heap of timers is a sorted
--   list; what is given to `run_in_loop` is a definition that ends in `_in_loop`. Timer/Due and
--   Timer/Expiry are about `handle_exprired`, Timer/Arming about `write_timer_fd`.
-- - Task: `TaskQueue` of src/net/eventloop/TaskQueue.cpp on Mpsc. Task/Running is about `handle_wakeup`,
--   Task/Wakeup about the interleavings of its steps with those of `push`.
-- - EventLoop: `EventLoop` of src/net/eventloop/ThreadingEventLoop.cpp on Task and Timer; `close_loop`
--   and `run_loop` are `close` and `run`. EventLoop/Closing is about its end;
--   EventLoop/Ending has its destructor with those of its queues, `last_tasks` the callbacks that they
--   give to the loop. EventLoop/Owner has the pointers of the threads to their loops: `create` is the
--   constructor, `delete` what the destructor does to them.
-- - Pool: `EventLoopThread` and `ThreadingEventLoop` of the same file; Pool/Robin is about `get_loop`,
--   Pool/Closing about `close` and `join`. What a thread that ends early has done is a
--   parameter. Pool/Race has the shared accesses of `close` and of the end of the loop's thread as
--   steps, in any order, and Pool/Race/Outcome what comes of them.
-- - Wheel: `TimingWheel` of src/net/TimingWheel.h on FixedRing. `tick` is what the loop calls,
--   `insert_from` the loop of `insert_in_loop`, `release` the end of the entries of a bucket. Wheel/Near
--   and Wheel/Far are about short and long delays, Wheel/Early about a wheel that is not full yet.
--   Wheel/Handed is `insert`, with the loop that other threads hand it to.
--   `remaining` and `alive` of Wheel/Lease say how many ticks an entry has left; Wheel/Ticking,
--   Wheel/Leasing and Wheel/Inserting are about what a tick and an insertion do to them.
-- - Log: the printing of numbers by `LogStream` of src/utils/Logging.h. Log/Decimal reads integers back;
--   Log/Floats is about floating point numbers and `append`.
-- - Epoll/Select: `EpollSelector::select`, over `epoll_wait`.
-- - Server: the acceptor's callback of `TcpServer` (src/net/Server.h), on Pool; `connect` is what it does
--   with one connection. Server/Accepting is about all that wait. Server/Timeouts is
--   what the server does with the timing wheel: `reset_timeout_in_loop` is what `reset_timeout_cb` gives
--   to its loop, `lapse` the end of the `TimeOutEntry`s that the wheel has dropped. `Countdown` is the
--   specification of the timeouts; Server/Countdown/Start has a new server and its
--   first 99 ticks, Server/Countdown/Runs any events after them, Server/Idle
--   about a connection that nothing more comes from. The `shared_ptr`s to a connection are one number,
--   which is not used again. Server/Expel joins the timeouts with the connections of Transport that
--   they close, and with the ends of connections for other reasons, `Turn`; Server/Expel/Once says which
--   connections are closed. Server/Wiring has the callbacks that the
--   constructor puts into the protocol of its connections: `install`. Server/Teardown is the destruction of
--   the server: `end_entries` of `entries_left` is the end of the timing wheel, `destroy_conns` that of the
--   table.
-- - Tests: a socket and an interest list that satisfy the interfaces, and runs of the code on them.
--
-- Faults. C++ does not check the bounds of a vector. The operations here do, and give `none` where an
-- access is outside or an allocation throws.
--
-- Fuel. The loop of `feed_rbuffer` has as much fuel as bytes arrive, and one more: each round but the
-- last takes a byte. `expire_loop` has one more than there are timers, of which each round takes one;
-- `digits_from` one more than the number; `count_wheels` has 5. The fuel of `run_tasks` and of
-- `run_loop` is given by the caller, as what a task or a selector does is a parameter; `accept_loop`
-- needs one more than connections wait, and the destructor of the queue one more than values are left.
--
-- Numbers. Sizes and indices are far below 2^62, so that `ssize_t` does not wrap; the one place where
-- `size_t` can wrap, the second length of `feed_rbuffer`, is written with its remainder. A size
-- that the source keeps in an `int` goes through `to_int`, which keeps its 32 bits and its sign. A mask of
-- events is a record of flags.
--
-- What is not modelled: `push_front` of both rings, `front` and `back`, which do not compile where they
-- are used; `activate` of the server, whose second task prints; `pop` of the
-- task queue, which returns a reference to a local; the creation of the descriptors of the queues and of
-- the selector; setters and accessors; the overloads of `LogStream` for texts, which do not compile where
-- they are used.
pub mod Prelude
pub mod Ring
pub mod FixedRing
pub mod Posix
pub mod Buffer
pub mod Mpsc
pub mod Epoll
pub mod Channel
pub mod Task
pub mod Timer
pub mod EventLoop
pub mod Pool
pub mod Wheel
pub mod Log
pub mod Transport
pub mod Inet
pub mod Socket
pub mod Acceptor
pub mod Server
pub mod Tests

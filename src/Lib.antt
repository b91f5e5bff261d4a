-- ===== src/Lib.antt =====
-- flowcoro: a C++20 coroutine library with its lock-free queues, channels, cancellation, schedulers
-- and database connection pool. This library models the parts below as functions and step
-- relations, and proves what they promise.
--
-- The parts and their files (paths from the repository's root):
--   Ring          include/flowcoro/buffer.h, class CacheFriendlyRingBuffer (Ring/Cache), and
--                 include/flowcoro/lockfree.h, class RingBuffer (Ring/Slots)
--   Channel       include/flowcoro/channel.h
--   Cancellation  include/flowcoro/cancellation.h, CancellationState and CancellationTokenSource
--   Pool          include/flowcoro/db/connection_pool.h
--   Balancer      include/flowcoro/load_balancer.h
--   Transaction   include/flowcoro/db/transaction_manager.h, Transaction and execute_transaction
--   Memory        include/flowcoro/memory_pool.h, SimpleMemoryPool
--   StringBuffer  include/flowcoro/buffer.h, class StringBuffer
--   SimpleDb      include/flowcoro/simple_db.h, SimpleDocument (SimpleDb/Document) and
--                 FileCollection (SimpleDb/Collection)
--   Executor      include/flowcoro/rt_executor.h, RtExecutor
--   Monitor       include/flowcoro/db/pool_monitor.h, PoolMetrics and PoolMonitor; the loop that
--                 raises a maximum in Monitor/Race
--   WhenAny       include/flowcoro/when_any.h, when_any with its selectors and its awaiter, and
--                 include/flowcoro/timeout.h, with_timeout
--   Queue         include/flowcoro/lockfree.h, class Queue
--   Stack         include/flowcoro/lockfree.h, class Stack
--   Hazard        include/flowcoro/hazard_pointer.h, with Stack of lockfree.h over blocks used again
--   Manager       include/flowcoro/coroutine_manager.h
--   Scheduler     src/coroutine_pool.cpp, CoroutineScheduler
--   Rpc           include/flowcoro/rpc.h, messages and the answer to a request
--   Text          texts as lists of bytes, with the searches of std::string that SimpleDb and Rpc use
--   Fifo          the bounded queue that the rings are compared with; no code of the repository
--   Base          numbers, words, lists and finite maps that the parts share
-- Hazard has the stack as its client, and Scheduler calls the functions of Balancer; the other parts
-- stand for themselves. A channel and a pool are used by coroutines, which appear as the
-- events of a `step`; a woken coroutine is handed to include/flowcoro/coroutine_manager.h, of which
-- the channel's model keeps only that the coroutine runs later, in any order.
--
-- How the models correspond to the code:
--   Rings. A function of the model is the method of the same name; its result is the method's
--   result, what goes through a reference argument, and the new ring. `Capacity` and `Size` are
--   `2 ^ k`, which the static_asserts ask for, with k at most 64 since a position is a `size_t`;
--   sums and differences wrap at `2 ^ 64` before they are masked. Each operation is one step: the
--   interleaving of one producer with one consumer, and the memory orders, are not modelled.
--   Channel. Each section under the mutex is a function: `send` and `recv` up to the return or the
--   await, `send_suspend`, `send_resume`, `recv_suspend` and `recv_resume` for the methods of the two
--   awaiters, `close`. `place` says where each coroutine stands; sections of different coroutines
--   interleave in any order. `is_closed` only reads. Null handles do not occur.
--   Cancellation. The locked sections and each test and each call of the unlocked loop of
--   `fire_callbacks` are steps of their own (`fire`). A node's number stands for its address and its
--   callback. The destructor, which only frees, is left out, and so are the awaiters of the file.
--   Pool. Each section under the pool's mutex is a function, in State, Lease and Upkeep; History has
--   the events. What the driver answers, whether a connection is valid and the time are arguments.
--   `in_use` of a connection is set exactly while a guard holds it, so a guard is given back only
--   while it is. Health checks that overlap share one list `checking`, and one may end before all its
--   pings have. Move assignment over a guard that holds a connection, the retry settings and
--   `warm_up`'s own lock are left out. The loops run on fuel: `try_get` and `clean` pop a connection
--   in each round, so the length of the queue, which their callers give, is enough.
--   Balancer. A method is the function of the same name; the loads that `select_scheduler` reads are
--   read in one step. The arrays are functions, since no index reaches `MAX_SCHEDULERS`. The score
--   in `LoadStats`, a double, is left out.
--   Transaction. A method is the function of the same name; `commit_failed` is what follows a failed
--   commit. The answers of the connection are a function of all that it has been asked, a parameter,
--   and so are the pool's answers, the times and the client's function in `execute_transaction`,
--   where `max_retries` is not negative. The destructor, which asks the connection for nothing, and
--   the pause between two attempts are left out.
--   Memory. `allocate_from` and `deallocate_begin` begin a call, and `pool_step` takes the operations of
--   `pop_from_freelist`, `push_to_freelist` and what follows them one at a time. What `malloc` answers is
--   an argument: null, or any address that is not live, which may have been used before. A block counts
--   as a client's from the exchange that takes it, or from `malloc`, to the call that gives it back, and
--   clients give back only what they hold. `sizeof(MemoryBlock)` is 16, as on a 64-bit machine, and the
--   sum with the size wraps. `wanted`, `spot`, `chain`, `stale` and `aba` are read by no step. The
--   exchange that makes an old `next` the head can happen, and Memory/Tests has a run in which it does.
--   The counters of blocks and the destructor, which frees the lists, are left out.
--   StringBuffer. A method is the function of the same name, `append_char` for one character; its
--   result is an `Outcome`: the buffer, or a loop that does not end, or a read out of bounds. What
--   the allocator's memory holds and what `snprintf` has to print are arguments. `grow` runs at most
--   64 rounds, after which a 64-bit capacity is 0 and stays so. `room` is the size of the memory
--   behind `data_`. The destructor only frees.
--   SimpleDb. A document's `fields` are a list in the order in which the `unordered_map` is walked. A
--   collection's file is its text, `none` while it does not exist, and whether it can be opened for
--   writing is an argument of each call; writing itself does not fail. Each call is one step, since it
--   holds the mutex. SimpleFileDB, the directory of collections, is left out.
--   Executor. All of `run` is one step of the executor's thread; between ticks tasks are spawned,
--   events are posted and a stop is asked for. What a resumed task does until it suspends again is a
--   parameter, by the task and the number of times it has been resumed: it yields, sleeps, waits for
--   an event or ends; it spawns nothing. An event is posted only for a task that waits for one, as the
--   contract of `post_ready` asks. A deadline that has passed when `sleep_for` is awaited does not
--   suspend, so that is no `sleeps`. `task_list` is the intrusive list from its head on, and the heap is
--   a list of which the earliest deadline is taken; among equal deadlines the choice is the model's.
--   `due` runs on the number of timers, each round popping one. `tick_all` is given the times of the
--   ticks; the sleep and the affinity of `run_blocking` are left out, and so is the destructor.
--   Monitor. `recorded` has a clause for each `record_` method, which is one step; in Race the loop of
--   loads and exchanges that raises a maximum is taken step by step, with an exchange that may fail
--   for no reason. The averages and the rate, which are doubles, are compared as exact fractions. Who
--   sets the callback, resets, and checks, and when, is the history; each check is one step. Message
--   texts, `get_metrics_json` and `get_metrics_string`, and the thread that checks every ten seconds
--   are left out.
--   WhenAny. A selector's number is its index. `winner` is `winner_set` together with who set it;
--   `selector_step` takes the atomic operations of `try_win`, `selector` and `resume_waiter` one at a
--   time, `caller_step` those of `await_ready` and `await_suspend`, and `resume_step` reads what
--   `when_any` returns. What each task gives is a parameter. `winner_index` is `none` for -1. The
--   manager of coroutines, to which the caller is handed, resumes it once for each time. `when_all` and
--   the detaching of the selectors are left out.
--   Queue. `enqueue_step` and `dequeue_step` take the atomic operations of `enqueue` and `dequeue` one
--   at a time, in sequentially consistent order; a consumer's place holds what it has loaded. A node
--   is a number that never comes back: hazard pointers keep the memory of a node that a thread reads.
--   `next` of node n can only be node n + 1, so `linked` says whether it is stored. `owner` and
--   `saw_empty` record what happened and are read by no step. `destroyed` is not set while threads use
--   the queue; the destructor and `size_estimate` are left out.
--   Stack. `advance` takes the atomic operations of `push` and `pop` one at a time, in sequentially
--   consistent order; making a node and linking it before it is published go with the load before
--   them, since no other thread sees the node. Nodes are numbers from 1 on that never come back, as in
--   Queue; 0 stands for the null pointer. `maker`, `is_published` and `effects` record what happened and are read by
--   no step. The destructors are left out.
--   Hazard. `atomic_step` takes the operations of `push`, `pop`, `retire`, `scan` and the guard one at a
--   time, in sequentially consistent order, as the fences ask; `begin_call` starts a call. A node is the
--   address of its block, and a free block may be given out again; `status` says where each block is.
--   `registers` is `register_thread_impl`, and the threads are numbered in that order. A snapshot is a
--   list, on which sorting and binary search are a membership test. The loop that calls the deleters is
--   one step, since the list is the thread's own. Items are left out, as Stack has them, and so are slot
--   1, which the stack does not use, `drain_all` and the destructor. `chain` is read by no step.
--   Manager. A method is the function of the same name. The timer thread takes its sections one at a
--   time: `take_due`, then `filter_expired`, then `hand_on` for each handle; `now`, `expired` and
--   `to_resume` are its locals, and the times are those at which it and its callers read the clock.
--   Whether a coroutine is done is an argument. The heap is a list of which the earliest time is
--   taken; among equal times the choice is the model's. `fire_due` and `expire` run on the number of
--   timers, each round popping one. `resuming` and `destroying`
--   hold the batches that calls have popped under the mutex and not finished; a call has a number, that
--   no other one has while it is under way, and the events between its steps are what other threads and
--   the destructors of the frames do. `fired`, `dropped`, `readied`, `taken`, `abandoned` and `destroyed`
--   record what happened and are read by no step. Of the destructor there is the setting of the flag,
--   `stop_timer_thread`; its last calls of `process_pending_tasks` are such calls. The waits, which only decide when a
--   step is taken, and `schedule_resume`, which only passes on to the pool, are left out.
--   Scheduler. `schedule_coroutine`, `worker_step` and `stop_step` take the operations of the methods one
--   at a time. The queue is a list, as the theorems on Queue allow: `dequeue` gives the first item,
--   or none when there is none. The number of the scheduler is 0, the only one that the pool makes.
--   The test of a handle in the loop and its resumption are one step, and whether it is done is an
--   argument; a coroutine that throws is counted as one that does not. `enqueued`, `outcomes` and
--   `counted` record what happened and are read by no step. The waits of an idle worker only decide
--   when it takes its next step.
--   Rpc. `to_json` writes the fields one behind the other, each with what follows as its last argument.
--   `extract_str` and `extract_val` are the two lambdas of `from_json`. The handlers are a list of
--   names with functions from the parameters to a result or the text of an exception: what the
--   handler's coroutine does meanwhile is left out, and so are the client and the connections.
--
-- Not modelled: the other headers of include/flowcoro and the files of src. Of these the coroutine
-- protocol (task.h and its relatives), sockets, HTTP, the database drivers, logging and the C
-- interface are the compiler's or other libraries' business; the other pools,
-- the task types and the data distribution have no model yet.
pub mod Base
pub mod Fifo
pub mod Ring
pub mod Channel
pub mod Cancellation
pub mod Pool
pub mod Balancer
pub mod Transaction
pub mod Memory
pub mod Text
pub mod SimpleDb
pub mod Executor
pub mod StringBuffer
pub mod Monitor
pub mod WhenAny
pub mod Queue
pub mod Stack
pub mod Rpc
pub mod Scheduler
pub mod Manager
pub mod Hazard

-- ===== src/Lib.antt =====
-- libstpool, a library of task pools in C: a model of its core in a cubical type theory, and the
-- theorems on it.
--
-- The program's parts. A pool stands on the Core (pool/core), which keeps the threads, decides when
-- to create, wake up and dismiss them, and counts them by kind; every function of the Core is a
-- critical section under one mutex, so that the model has one step per call. Tasks that a pool is
-- to run wait in a queue, or in one queue per class of priorities (pool/com/cpool_com_priq.h).
-- Objects that are no longer used, tasks and threads, are kept in caches (pool/core/sm_cache.h,
-- pool/core/sm_cache.c). The pools proper (pool/rt, pool/gp) call the Core and are called back by
-- it through a table of methods, of which the model has the notification as a parameter.
--
-- The files.
--   Base: Booleans, lists and integers that all parts share.
--   Cache: the object cache. Defs has the queue and the inline functions of sm_cache.h, Limits
--   those of sm_cache.c under the names of the source; Invariant, Flushing and Steps are about its
--   invariant, Linked about its counter and last pointer alone and Runs about sequences of
--   operations, Faults is about flushing and reserving.
--   Task: ctask_t of pool/cpool_factory.h, its flags and its scheduling attributes.
--   Priq: the priority queues. Defs has the functions of cpool_com_priq.h without the prefix
--   __cpool_com_ and Top the two reads of a container; Locate is about the classes, Nice about the
--   attributes, Order, Conserve and Inversion about one queue, Ready and Serve about the ready
--   queue, and Size about the number of the tasks.
--   Core: Threads has the thread and the counters of struct cpool_core as the record Env, Pool the
--   rest of it that is read here. Wakeup, Grow, Services and Status are the functions
--   cpool_core_wakeup_n_sleeping_threadsl; cpool_core_add_threadsl and cpool_core_dec_threadsl;
--   cpool_core_ensure_servicesl, cpool_core_adjust_abs_l, cpool_core_suspendl and
--   cpool_core_resume; and cpool_core_thread_status_changel. Com has the methods cpool_com_adjust,
--   cpool_com_adjust_abs and cpool_com_flush of pool/com. Tally and Census say how the counters
--   stand to the threads; Revive, Create, Mark and Shrink are about threads that come and go, Grown
--   about which threads are taken back and which are new, Sleepers and Served about those that are
--   waked up or called for, Limits about changed limits, and Moves, Transitions, Sleep, Awake,
--   Timeout, Kept, Run and Leave about the transitions of a thread, which Lifecycle puts together.
--   Rest has cpool_core_get_restto, the time that a thread waits, with the clock of the GC.
--   Rt: the runtime pool of pool/rt. Defs has the queueing and getting of tasks; Pending, Fifo and
--   Queueing are about the order of service, Refusal about errors, Dispatch about the queue of
--   removed tasks and Notify about what the Core expects of the notification. Remove has the
--   functions that take back or mark all tasks, and Removal compares them with serving the tasks;
--   Finish has what follows a task's run; Again is about both, and Service about any sequence of
--   calls.
--   Gp: the group pool of pool/gp. Defs has struct ctask_entry and struct cpool_gp, and the array
--   of the active groups of cpool_gp_entry.h; Sched the inline functions of cpool_gp_internal.h,
--   with the choice among the groups; Ops cpool_gp_task_queue, cpool_gp_core_gettask and
--   cpool_gp_core_finished; Admin the attributes of a group, and suspending and resuming it;
--   SuspendAll cpool_gp_entry_suspend_all; Groups resuming all groups and the throttle of one;
--   Remove cpool_gp_task_remove; Mark cpool_gp_task_mark and cpool_gp_task_detach. Balance,
--   Queueing, Taking, Ruling, Attributes, Finishing and Removing are about the counters; Places,
--   Positions, Counting, Window, Activate, Packing, Shrink, Inactivate and Status about the array
--   of active groups; Sound, Kept, KeptTask, KeptGroup and KeptRemoval put both together, for one
--   function each; Choice, Visited, Next and Pending are about the task that a thread gets; Tasks,
--   Done, Run and Marked about the other functions, Steps about any sequence of calls, and Stuck
--   about changed attributes.
--   Objpool: the object pool of pool/core/objpool.c, of which Search has the search of objpool_put.
--   The modules called Examples hold tests and concrete runs.
--
-- How the model is built. Structures are records and the state is passed on. An address is a
-- number, a chain of links is a list, and a store through the address of a thread goes to the one
-- thread of this number; a group is found by its position in the array of groups, which is its
-- number. A word of flags is a record of Booleans. Counters are natural numbers; where the source
-- would go below 0 the model stops at 0. The times of a thread are words of 64 bits, read as signed
-- numbers where the source does. The library is modelled as built with NDEBUG, as configure does
-- for a release, without assertions, except where a function has an argument `ndebug`: where this
-- is false, an assertion of the function that fails gives no result. Such functions are those of
-- the priority queues, cpool_rt_task_queue with __cpool_rt_task_queue_preprocess, the choice of a
-- task in a group pool, cpool_gp_task_detach and cpool_gp_entry_suspend_all, with what calls them.
-- The functions of the Core have no such argument and no assertions; VERIFY, which the Core calls
-- where there are assertions, is the test `verify`. No result stands as well for an access outside
-- of an array. What the system or a callback gives (new objects, new threads, the time, a random
-- number, whether a task object is still referenced) is an argument or a member of the state. Loops
-- run over a list or down a counter that the code has itself, and three of them have fuel. The
-- search of objpool_put has as many rounds as there are blocks, since each round drops one at
-- least. The rounds of `goto reget` in __cpool_gp_get_pending_task are two where a group may give a
-- task, and have no end where none may; the result of a run without end is none, for any fuel. The
-- loop of cpool_core_get_restto adds a quarter of the interval each time, so that five tests are
-- enough.
--
-- Not modelled: constructors, destructors and references of the Core, its scheduler loop and the
-- rest of its GC, the rest of the object pool, waiting for tasks, the layer over the operating
-- system, messages and the examples; of the runtime pool marking with a callback, and marking and
-- removing the task that runs; of the group pool creating and deleting groups and marking all tasks
-- of a group. The linked lists of core/list.h, a copy of those of the Linux kernel, are lists here.
-- What happens between two critical sections is not modelled either: threads are created where the
-- source puts them into a queue to be created by another thread, and an error handler runs after
-- the call that returns its task.
pub mod Base
pub mod Cache
pub mod Core
pub mod Gp
pub mod Objpool
pub mod Priq
pub mod Rt
pub mod Task

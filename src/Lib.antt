-- ===== src/Lib.antt =====
-- casca_log, a logging framework in C: a model of its core, and theorems about it.
--
-- The program. A context (source/casca_log_core.c) holds a table of modules, chains of filters, a
-- template for the text of a log, a channel, a dispatcher and a table of recorders. A call of
-- clog_module_log or clog_record_log looks its module up, acquires an item from a pool, lets it pass
-- the filters, writes its text by the template, puts the item into the channel, and wakes the
-- dispatcher, which hands it to the recorders and gives it back to the pool.
--
-- The files.
--   Base         lists with native indices, Boolean tests, bits; Base/Result has clog_res_e of
--                include/casca_log_base.h and the outcomes of malloc.
--   Hashmap      source/utils/clog_hashmap.c: one function per operation, with the client's callbacks
--                as a record. Chain, Buckets, Entries and Insert prove the parts; Put, Search, Resize,
--                Iterator and Clear the operations, against the partial function `view`; Murmur and
--                Keys are the hash and the callbacks that the program passes.
--   Interpolator source/utils/clog_interpolator.c: parsing a template (Parse, Text) and writing by it
--                into a buffer (Output for the bounds, Content for the text, Examples for some placeholders).
--   Filter       source/filter/clog_filter.c, source/filter/clog_filter_keywords.c and clog_add_filter:
--                Order for where a filter goes, Verdict and Keywords for what passes, Free for freeing.
--   BufferPool   source/utils/clog_buffer_pool.c for one thread while no other is at work on the pool: Steps
--                are its moves, Safety and Runs what holds after any of them, Shrink when it shrinks.
--   Logger       the way of a log in source/casca_log_core.c, with the channel of
--                source/channel/clog_channel_unsafe_queue.c and the dispatcher of
--                source/dispatcher/clog_dispatcher_direct.c: Release follows the item, Delivery the text.
--                It composes Filter and Interpolator.
--   Context      setters and clog_context_setup of source/casca_log_core.c, with what they open, and Setup when that succeeds.
--   MemPool      source/utils/clog_mem_pool.c, its blocks linked in a store: Sizes for the size
--                classes, Reuse for the free list, Initial for the blocks allocated at the start.
--   Queue        source/utils/clog_queue.c, its nodes linked in a store: Fifo refines it to a list, and Clear
--                has what clearing it frees. Logger stands on that list.
--   Mpsc         source/utils/clog_atomic_mpsc_queue.c as moves of producers and a consumer that
--                interleave: Chain is the invariant, Fifo the order, Memory the nodes that are freed,
--                and Drain a consumer that is left alone.
--   AtomicQueue  source/utils/clog_atomic_queue.c as moves of any threads that interleave: Chain is the
--                invariant, Moves what each access does to it, Fifo the order, Seen and Empty when nothing is found,
--                Retired the nodes that are
--                handed to the epochs of clog_ebr.c, and Gc when a thread polls those.
--   Config       source/utils/clog_config.c and clog_config_ext.c: Number, Text, Array and Name are the
--                parsers of parts of a line, Group the tree, Line the parsing of lines and of a whole text,
--                Find the looking up. A pointer into a line is the rest of the line, and a pointer to a
--                group its path in the tree.
--   Modules      the modules of a context in source/casca_log_core.c, added or read from a configuration,
--                by Config; their table is a parameter. Fit has their bounds.
--   Datetime     source/utils/clog_datetime.c: time stamps, with Days against the calendar.
--   FileSystem   source/utils/clog_file_system.c but for Windows: Names and Room are the two loops of
--                clog_normalize, Normal and Again what it makes of a path, Last the two parts of one,
--                and Dirs creates directories over the operations of the system, with Present for what is
--                then there.
--   Recorder     source/recorder/clog_recorder_file.c over the operations of the system, with Create for a
--                new one: Codes has those of a write, and Created what a new recorder does. Its paths are made by FileSystem.
--   ErrorLog     source/utils/clog_error.c: First for which errors are kept.
--   Ebr          source/utils/clog_ebr.c as moves of threads that interleave: Grace has what holds while
--                threads come and go, Release while entries are added, Polls while they are freed,
--                and Progress a poll that is left alone.
-- The files named Tests run the definitions on small inputs and apply the theorems there.
--
-- Conventions. Numbers are native; a w-bit integer has its wrap-around written out where the code
-- can reach it (the hash, size - offset in the interpolator, the length of an item, numbers in
-- configurations). malloc is a stream of outcomes, or an address that the caller supplies.
-- Recursion is structural, but for the parsers, the iterator and the loops over linked nodes, which
-- have fuel. For the parser of templates it is the length of its format, as each round takes a
-- character at least; for the iterator as many rounds as entries, as each round takes one. The
-- parser of values in configurations has two rounds for each character and one more, as a nested
-- value and a round of the loop over an array each take one; finding a group has one for each
-- character of the name and one more. Clearing a queue has as many rounds as its size; the blocks
-- of a heap that is cleared have a number that the caller gives. Destroying a queue of several
-- producers has one round more than values were put. Recorders, handlers of placeholders, strstr,
-- strtod, a context's tables and the greatest number of recorders of a module are parameters. What is
-- asked of files and directories is a record of operations, for directories with laws. Threads interleave by moves of one access each,
-- which are sequentially consistent.
--
-- Not modelled. Threads, locks and semaphores are the operating system's, and so is what opens, reads
-- and writes a file. The end of clog_atomic_queue.c, the end of epochs by clog_ebr_destroy, and
-- interleavings in the buffer pool; the dumping and freeing of configurations; the printing of errors;
-- recorders of the terminal and of syslog, whose core is output; placeholders, which format with
-- printf; the clock; the code for Windows.
pub mod AtomicQueue
pub mod Base
pub mod BufferPool
pub mod Config
pub mod Context
pub mod Datetime
pub mod Ebr
pub mod ErrorLog
pub mod FileSystem
pub mod Filter
pub mod Hashmap
pub mod Interpolator
pub mod Logger
pub mod MemPool
pub mod Modules
pub mod Mpsc
pub mod Queue
pub mod Recorder

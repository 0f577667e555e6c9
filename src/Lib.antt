-- ===== src/Lib.antt =====
-- phpspy samples the call stacks of running PHP processes from the outside. A tracer reads the
-- structures of the Zend engine out of the memory of the process and sends events to an event
-- handler, which prints the traces (event_fout.c) or adds them up (event_callgrind.c). In pgrep
-- mode (pgrep.c) a producer looks for processes, and worker threads trace one process each.
--
-- The files and what they model:
-- - Prelude: the words that all share: texts as lists of bytes, `memchr` and `memrchr`, `strtoull`
--   and `strtol`, the C `int` as an integer, and an interface to the tables of vendor/uthash.h,
--   with lists of pairs as an instance.
-- - Status, Options, Event: the PHPSPY_ERR bits and the events with their payloads of phpspy.h,
--   and the option variables of phpspy.c.
-- - Peeks: `varpeek_add` and `glopeek_add` of phpspy.c; Lines has which lines a range covers.
-- - Parse: `parse_opts` of phpspy.c, on what `getopt_long` returns; Sane is about what it leaves.
-- - Shell: `shell_escape` of addr_objdump.c, against a model of how a POSIX shell reads a word.
-- - Symbols: the rest of addr_objdump.c, with the texts of the commands that it runs. What
--   `popen`, `fgets` and `access` answer is a record. Commands bounds the commands, Memo is about
--   the memo.
-- - Fout: event_fout.c. Sys has its view of the C library (`realloc`, `writev`, `regexec`, the
--   clock, the descriptor that INIT opens) as a record of answers, and the process-wide state,
--   which records every `writev`. Buffer has the record buffer, its growth, the delimiter
--   stripping and `event_handler_fout_snprintf`; Chunks the whole and chunked writes; Events the
--   switch. Growth, Strip, Whole, Reassembly, Loop, Trace, Records, Atomic and Handler have the
--   proofs. Open has `event_handler_fout_open` and the `close` of DEINIT over a table of
--   descriptors, OneFile what the threads share; `open_fd` of Sys is what it returns.
-- - Callgrind: event_callgrind.c over any tables that keep the laws of uthash. Digest is about one
--   stack, Runs about all that a run has told; Dump is the file that the handler leaves, over a
--   HASH_SORT, and Open how it opens it.
-- - Clock: `clock_add`, `clock_diff`, `calc_sleep_time` and the stop time of phpspy.c.
-- - Zend: the hash of array keys of phpspy.c. Layout and Layout/Aarch64 have the headers of
--   structs/x86_64 and structs/aarch64, Versions the choice between them. Remote has the memory of
--   the traced process as the answers of `process_vm_readv`, which may change from one read to the
--   next, with `copy_proc_mem` and `sprint_zstring`; Print the values and the hash lookup of
--   phpspy_trace.c; Binds the bound parameters of PDO; Always and Bounds the fit of the buffers.
-- - Trace: the rest of phpspy_trace.c as actions on a context, which counts the reads and keeps
--   the events that have been sent. A function that fails returns its status, as with `try`;
--   `stuck` is a crash, an endless chain of a hash, or arrays that nest deeper than the fuel.
--   Peek, Stack, Info and Run have the operations; Emits, Depths, Tries, Chain, Plan, Elision and
--   Walk have which frames a walk sends, Keeps, Peeked, Content and Protocol the order of the
--   events.
-- - Pgrep: pgrep.c, as functions for its tests and loops, and Steps as a step relation that
--   interleaves the producer, the workers and the stop signal. Threads interleaves single calls:
--   locks, waits, `write_done_pipe` and `run_signal_thread`; Mutex and Awake have its invariants,
--   Refine its relation to Steps, Shutdown the way it ends.
-- - Spy: `main_pid` of phpspy.c with `find_addresses`, `get_php_version` and the exit code of
--   `main_fork`, over records of what `ptrace`, the clock, the other threads and the commands
--   answer. Loop has the rounds, Versions the version of PHP, Start the whole, Protocol the order
--   of its events; a trace is `do_trace` of Trace, and one that does not return leaves `main_pid`
--   in it. Ends and Limit are about the end of the loop.
-- - Process: `main`, `redirect_child_stdio` with the child of `main_fork`, and `fork_child` of
--   top.c, over a table from descriptors to what they refer to. Modes, Stdio and Ends have the
--   proofs.
-- - Top: top.c. The state is a record of its globals; an entry carries the number of its
--   allocation for its address, so that `func_list` is also the store that `func_map` points into.
--   What `read`, `select`, the clock and termbox return is an argument, `qsort` a parameter that
--   permutes. Loop has the rounds of `main_top`; Stream, Lines, Frames, Totals, Runs, Order, Child
--   and Errors the proofs, and Traces what becomes of the traces that the output handler of the
--   child writes.
--
-- Bounds and fuel: `double_until` doubles a positive capacity, so as many rounds as the needed
-- capacity are enough. Every round of `chunk_loop` that goes on takes a byte of the text, so one
-- more round than the text has bytes is enough. The stack walks recurse on what is left of the
-- limit of 1024 frames, which is the limit of the code. The depth of nested arrays and the length
-- of the chain of a hash are bounded by `depth` of the environment: the memory of the process
-- decides both, and the code has no bound for them. The fuel of the loop over the lines of a
-- variable is more than there are lines; for the last line 2^32 - 1 the code does not end, and no
-- fuel is enough. The loop of `main_pid` runs for as many rounds as are given. The loops of top.c
-- over a buffer drop a byte in each round. Trace ids and costs are 64-bit numbers, written modulo
-- 2^64; the other counters are bounded by the sizes of the arrays that they index.
--
-- Not modelled: the usage text and the version of phpspy, `getopt_long`, the `asprintf` of a path
-- of the user, and the drawing of termbox. The threads of pgrep.c read `done` and the pids in the
-- order of their moves, and a signal that arrives before its handler is installed is left out. The
-- mutex of event_fout.c is the atomicity of a step. The `float` of a percentage is kept as its
-- quotient. The build against PHP's own headers (USE_ZEND) has other layouts.
pub mod Prelude
pub mod Status
pub mod Options
pub mod Event
pub mod Shell
pub mod Fout
pub mod Callgrind
pub mod Clock
pub mod Zend
pub mod Trace
pub mod Pgrep
pub mod Symbols
pub mod Spy
pub mod Top
pub mod Parse
pub mod Peeks
pub mod Process

-- ===== src/Lib.antt =====
-- CRuby inside a CAmkES component on seL4: the C library surface that the component replaces.
--
-- The component (apps/ruby/components/Ruby) links CRuby and musl, and defines in its own C files the
-- calls that libsel4muslcsys cannot serve. There is one thread. Each file keeps a few statics; the
-- files meet in memory: the allocator hands out blocks of one arena, `mmap` copies files of the
-- embedded CPIO archive into it, and reads fill buffers of the caller.
--
-- Shared modules.
--   Prelude: names of the library passed on, Boolean tests on ℕ, lists indexed by ℕ, lists of numbers
--     as sets, integers, laws of word arithmetic.
--   Errno: the values of errno and the outcome of a call. Memory: byte memory with little-endian
--     loads and stores, memset and memcpy. Bits: masks and xor; Bits.Flags: single bits. Fds: the descriptor table of
--     libsel4muslcsys, which is not part of the repository and is a parameter.
--
-- Alloc models apps/ruby/components/Ruby/src/ruby_alloc.c. `Heap` is the memory, the address of
--   `ruby_alloc_arena`, `ruby_alloc_offset` and `free_list`; headers stand in the memory, 32 bytes
--   before each payload. Header and Malloc have the functions of the C file by name, Mmap has mmap,
--   munmap and mremap, and Aliases the names with underscores. `IsHeap` is the invariant: blocks
--   follow each other in the arena and the free list is a chain through some of them. The loop of
--   `reuse_free_block` runs on fuel 64 MiB / 32 = 2097152 and gives `hang` without fuel; a header
--   takes 32 bytes of the arena, so the free list is shorter. Addresses and sizes wrap modulo 2^64.
--   Client has a client that allocates, maps, resizes, frees and writes in any order; System,
--   Resizing, Safety and Isolation are about its blocks. Owners says what a caller that allocates
--   and frees leaves to others; Aligned is about posix_memalign, Trim about giving back a part of a
--   mapping.
--
-- Poll models apps/ruby/components/Ruby/src/stub/ruby_syscall_poll.c. Table has the fixed arrays of
--   entries with `used` and `fd`; Source the event counters (eventfd, read, write, close); Epoll
--   the epoll sets (epoll_create1, epoll_create, epoll_ctl, epoll_wait); Serial the ring of
--   SerialServer and `serial_readv`, Queue and Delivery the ring as a queue. SerialServer is the
--   parameter `server`, a sequence of actions, one of which comes before each access of the code to
--   the ring; the wait runs on fuel, one unit for each round. System calls for other descriptors
--   are the record `Kernel`. Readv has readv, eventfd_read and eventfd_write; Fcntl and FlagLaws
--   have fcntl. Polling has poll_fds and the two system calls over it: TimeServer, the notification
--   and the ring are the record `Notifications`, and the loop runs on fuel, one unit for each
--   round; Waiting has what a descriptor reports, Promises what is relied on, Ending and Timeouts
--   the end of the wait, with as many rounds as it takes until input or the timer arrives.
--   The ring is looked at once in a round: input that
--   comes in between counts from the next round on. Wired and Handover have poll_fds and the reads
--   one after the other, Wakeup a counter and an epoll set as a communication pipe, Stale the
--   watches of a closed counter, Permits the writes and reads of a counter in any order. Effects has what each call does to the tables as elementary
--   changes, Keeping and Sound what a change keeps, Machine the calls in any order, Kinds from
--   program start.
--
-- Fs models apps/ruby/components/Ruby/src/ruby_syscall_fs.c: Source has the paths and stat, Open
--   has open_cpio, open, openat and fstat. The archive reader is the record `Archive`; the loop
--   over the entries runs on fuel, and as many rounds as there are entries are enough. The
--   descriptor table of libsel4muslcsys is the record `FdOps`, with the laws `FdLaws`; the block
--   for a file's data comes from the `malloc` of Alloc, and the members of that block are kept in
--   the table's entry. Mapped maps an open descriptor with the `mmap` of Alloc.
--
-- Script models read_script and run of apps/ruby/components/Ruby/src/ruby.c over Fs and Alloc. The
--   handlers of `read` and `close` are the record `Io`, with the laws `ReadsFiles` and
--   `ClosesFiles`; the interpreter is the record `Interpreter`. The loop over the reads runs on
--   fuel, and one more round than the file has bytes is enough. What is printed is not modelled.
--
-- Tty models apps/ruby/components/Ruby/src/stub/ruby_syscall_tty.c: Report the parser of a cursor
--   position, Console the attributes, the window size and ioctl. What the terminal does with
--   `write`, `poll` and `read` is the record `Terminal`; the loop over the answer runs on the room
--   that is left.
--
-- Random models apps/ruby/components/Ruby/src/stub/ruby_syscall_random.c. The loop of getrandom
--   runs on fuel `buflen`; a round writes at least one byte.
--
-- Clock models apps/ruby/components/Ruby/src/stub/ruby_syscall_clock.c, with the counter of 64
--   bits.
--
-- Pthread models apps/ruby/components/Ruby/src/stub/ruby_pthread.c: Source thread-specific data and
--   the stack range, Stubs the calls that have nothing to do for one thread. Process models
--   apps/ruby/components/Ruby/src/stub/ruby_syscall_proc.c. Sizes of the library's types are
--   parameters.
--
-- Startup models apps/ruby/components/Ruby/src/ruby_libc_init.c and the constructors that install
--   the system calls; the C library and libsel4muslcsys are the record `Library`.
--
-- Not modelled: the build files, the assembly and the scripts, which are not C. Nothing else of the C
--   files is left out but what they print.
--
-- Examples has concrete inputs.
pub mod Prelude
pub mod Errno
pub mod Memory
pub mod Bits
pub mod Fds
pub mod Alloc
pub mod Random
pub mod Clock
pub mod Pthread
pub mod Poll
pub mod Process
pub mod Startup
pub mod Script
pub mod Tty
pub mod Fs
pub mod Examples

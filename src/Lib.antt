-- ===== src/Lib.antt =====
-- libtorque is a C library for event-driven programs on machines with many processors. It looks
-- at the machine that it runs on (which processors there are, with which caches and TLBs, and how
-- threads, cores and packages nest), starts a thread on each processor, and hands them events.
-- This development models the part that looks at the machine, the start of the threads, the event
-- sources with their dispatch, the receive buffers that stand between connections and their
-- callbacks, the calls by which a client adds sources, and TLS connections.
--
-- The parts and their files (paths from the repository's root):
--
-- - Hardware/Desc: the descriptions of processors, caches, TLBs and memory nodes, the structures of
--   src/libtorque/internal.h. An array with its count is a list; a union with its tag is a data
--   type.
-- - Hardware/Cpuid: src/libtorque/hardware/x86cpuid.c. `Machine` (Cpuid/Regs) is the processor as
--   the CPUID instruction shows it, with the allocator's answers; it is a parameter of every
--   function. Cpuid/Tables holds the descriptor tables of Intel's leaf 2, Cpuid/Arrays the sorted
--   arrays (add_hwmem, add_tlb), Cpuid/Intel the leaves 2 and 4 (decode_intel_func2,
--   id_intel_caches), Cpuid/Amd the extended leaves (id_amd_caches and what it calls),
--   Cpuid/Flags the signature (x86_getprocsig), Cpuid/Place the topology functions, x86apic and
--   x86topology, Cpuid/Brand the name, and Cpuid/Ident the vendors and x86cpuid, which calls the
--   others in turn.
-- - Hardware/Topology: src/libtorque/hardware/topology.c. arch.c calls topologize once for each
--   processor, with the place that x86cpuid found. A group list is the data type `Topt`;
--   find_sched_group, which returns a pointer into it, takes what its caller does with the group.
-- - Hardware/Arch: detect_cputypes of src/libtorque/hardware/arch.c, which pins the thread to each
--   CPU of the affinity mask, has x86cpuid describe it, counts it by type, places it by topologize
--   and starts a thread there. `System` is what the operating system and the allocator answer, and
--   `Detected` the fields of the context that it fills, with the stacks mapped for threads; Arch/Gains and Arch/Detect have the loop's
--   invariant, Arch/Success shows when it succeeds, and Arch/Described follows lookup_aid to
--   torque_cpu_getdesc.
-- - Hardware/Memory: the page sizes of src/libtorque/hardware/memory.c, from the TLBs that x86cpuid
--   found, and, in Memory/Nodes, determine_sysmem, add_node and detect_memories, with detect_numa of
--   src/libtorque/hardware/numa.c.
-- - Buffers: src/libtorque/buffers.h (rxbuffer_advance, rxbuffer_valid) and, in Buffers/Callbacks,
--   src/libtorque/buffers.c. The kernel, the page allocator and the client's callbacks are the
--   fields of `Host`; `Link` is the state that buffered_rxfxn changes.
-- - Events: src/libtorque/events. Events/Sources is the table of callbacks (sources.h), and `World`
--   the tables with the requests made of the kernel and the calls made of callbacks so far, in
--   order; what a callback does to the tables is a parameter, `Client`. Events/Registry has the
--   specification of the table as a function. Events/Wait is the emulation of kevent (sysdep.h),
--   Events/Dispatch the registration of a descriptor (fd.c), restorefd (sysdep.c) and the loop of
--   event_thread (thread.c), Events/Signals the registration and delivery of signals (signal.c,
--   sysdep.c, thread.c), and Events/Timer timers (timer.c, timer.h). Function pointers and `void *`
--   are numbers.
-- - Schedule: src/libtorque/schedule.c, the start of a thread and the ring of `nexttid`, and, in
--   Schedule/Spawn, setup_thread_stack and spawn_thread with what they take and give back.
--   Schedule/Reaped is the end of the threads, rxcommonsignal of src/libtorque/events/thread.c as a
--   step relation in which the threads move in any order. Whether
--   pthread_join reports a circle of joins by EDEADLK is a parameter, by the length of the circle.
-- - Api: the add functions of src/libtorque/torque.c, over Events, with create_rxbuffercb of
--   buffers.h and create_conncb of conn.c.
-- - Context: initialize_etables, free_etables and create_torque_ctx of src/libtorque/torque.c with
--   init_evqueue of src/libtorque/events/evq.c, and what they hold.
-- - Tls: src/libtorque/protos/ssl.c. `Tls` is a connection with the process around it, and `Host`
--   is OpenSSL, with a state of its own, beside the kernel, the page allocator and the client's
--   callbacks. Tls has the callbacks that go on with a handshake, Tls/Reading those that read (with
--   rxbuffer_ssl of src/libtorque/buffers.h), Tls/Dispatched what handle_event makes of an event of
--   such a descriptor, Tls/Listener the accepting socket and torque_addssl (torque.c), Tls/Library
--   the locks that OpenSSL is given, and Tls/Credentials torque_ssl_ctx. They work on the tables of
--   Events and ask the kernel by restorefd of Events/Dispatch.
-- - Life: torque_init, torque_stop and torque_block of src/libtorque/torque.c, from Context and
--   Hardware/Arch/Whole, which has detect_cuda, detect_architecture and free_architecture of
--   src/libtorque/hardware/arch.c. A process is what it holds, the threads that run
--   and the stacks mapped for threads.
-- - Archdetect: src/archdetect/archdetect.c, the tool that prints what the library found:
--   fprintf_bunit with its specification in Archdetect/Units, the descriptions (Archdetect/Details,
--   over the types that Hardware/Arch detects) and the topology (Archdetect/Sets, over
--   Hardware/Topology). What is printed is a list of pieces, and a parameter says which of those
--   whose printf is tested can be written.
-- - Errors: `torque_err` (src/libtorque/torque.h) and torque_errstr (src/libtorque/internal.c).
-- - Base: Boolean tests and lists on the native numbers, the results of C calls (`Run`: success and
--   failure with the state they leave, undefined behaviour, and a loop cut short), and the sorted
--   insertion that three functions of the library write out.
--
-- Numbers are unsigned: a register is a number, a bit field its quotient and remainder by powers of
-- two, 32-bit products and 64-bit sizes wrap by `%`. A division by zero and an access outside an
-- array are the result `fault`.
--
-- Loops that C ends by a condition run on fuel. The bits of a count give it for rounding (256
-- rounds for eight bits), for the shifts (32) and for the cache levels (8 for three bits). The
-- subleaves of leaf 4 and of leaf 0xb are as many as the processor says, so their bound is a
-- parameter, `Fuel`, as are the rounds of buffered_rxfxn, ssl_rxfxn and ssl_txrxfxn; the data that
-- OpenSSL still has gives enough for the latter two.
--
-- What the kernel returns is a list where the code asks for it in a loop: kevent_retrieve has the
-- returns of epoll_wait, signalfd_demultiplexer the reads and ssl_accept_rxfxn the connections up to
-- the error that ends it. event_thread
-- has no end, and its list is the part of its life that is looked at. These loops need no fuel.
--
-- The build that is modelled is the one for Linux with epoll, signalfd and timerfd; epoll_ctl,
-- epoll_wait, signalfd, timerfd_create, connect, sigismember, malloc, mmap and the pthread functions
-- are parameters, by their answers.
--
-- Not modelled: the CPUID instruction and its availability test, which are inline assembly; the
-- messages on stderr and the statistics that are printed; `free`, but where a block is counted or
-- used after it; the signal masks, but for the answers of the calls that set them; the call of
-- pthread_join by the client's thread in reap_threads and block_threads, which is an answer too; from
-- ssl.c ssl_tx and the callbacks that OpenSSL calls for its locks; the CUDA driver; DNS, which is glue
-- over adns; from archdetect.c detail_memory_nodes and main; the tool torquehost, which looks up
-- addresses by DNS. The callbacks of a client do not call ssl_tx or
-- change the tables while they read; memcmp of two descriptions is the equality of their fields, since
-- the source clears the padding.
pub mod Base
pub mod Errors
pub mod Hardware
pub mod Buffers
pub mod Events
pub mod Schedule
pub mod Api
pub mod Context
pub mod Tls
pub mod Life
pub mod Archdetect

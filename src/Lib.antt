-- ===== src/Lib.antt =====
-- HAL9000, an x64 operating system kernel: a model of its threads, their synchronisation, its memory
-- management, its processes, the messages between its CPUs, its text screen, keyboard and
-- line editor.
--
-- The parts and how they interact. A CPU runs a current thread; the ready list holds the threads that
-- wait for a CPU. `ThreadYield` and `ThreadBlock` call `_ThreadSchedule`, which takes the head of the
-- list or the CPU's idle thread. Mutexes, events and the ends of threads and processes put threads to
-- sleep with `ThreadTakeBlockLock` and `ThreadBlock`, and wake them with `ThreadUnblock`. The physical
-- memory manager hands out frames, the reservations of virtual memory say which addresses may be
-- accessed, the paging tables translate them, and a memory descriptor list names the physical pairs
-- behind a virtual buffer. The virtual memory manager brings these together: it allocates and frees
-- regions, and solves page faults. A CPU has other CPUs call a function by an event in their lists.
--
-- The files, with the code that each models.
--   Prelude, Prelude/*: the names that all files share, Boolean tests, lists over native numbers.
--   CommonLib: interfaces for the lists, bitmaps, reference counts, alignment and flag macros of
--     CommonLib, whose sources the repository does not hold, with their documented behaviour as laws.
--   Kernel: the shared state (src/HAL9000/headers/thread_internal.h, cpumu.h, process_internal.h). A
--     pointer is a number and 0 is `NULL`; a lock is the CPU that holds it. `Outcome` is the result of
--     code that asserts (`bug_check`) or waits for a lock that is held (`spinning`).
--   Sched: the core of src/HAL9000/src/thread.c, `schedule` and what it calls, `unblock`, `tick`;
--     Sched/Switch and Sched/Unblock hold what the invariants need of them.
--   Thread: `yield`, `block`, `exit`, `terminate`, `take_block_lock` of src/HAL9000/src/thread.c;
--     Thread/Invariant, Thread/Steps and Thread/RoundRobin hold the invariant and the order,
--     Thread/Wake, Thread/Leave and Thread/Exit the end of a thread.
--   Event: src/HAL9000/src/ex_event.c, Event/Signal its signals.
--   Mutex: src/HAL9000/src/mutex.c, Mutex/Fifo its line of threads, Mutex/Sound its
--     invariant.
--   Process: the threads of a process, src/HAL9000/src/process.c, Process/Members its counts;
--     Process/Lifetime its identifier, references and end, Process/References the orders in which
--     threads and handles come and go, Process/Ending what these keep alive and leave behind.
--   Timer: src/HAL9000/src/ex_timer.c, Timer/Laws its waits and its order.
--   Pmm: src/HAL9000/src/pmm.c; Pmm/Frames its reservations, Pmm/Regions its set-up.
--   Mdl: src/HAL9000/src/mdl.c; Mdl/Coverage and Mdl/Allocate compare a list with the page tables.
--   Vm: src/HAL9000/src/vm_reservation_space.c, with Vm/Ops, Vm/Access and Vm/Init for its operations,
--     and Vm/Find, Vm/Alloc, Vm/Usable and Vm/Release for what they promise.
--   Paging: the tables and the walk over them, src/HAL9000/src/vmm.c; Paging/Entries is the interface of
--     an entry's bits, Paging/Tree the trees of tables, Paging/Edit to Paging/Clear follow the walk, and
--     Paging/Translate and Paging/RoundTrip say what mapping and unmapping do to the translation.
--   Vmm: regions, buffers and page faults, src/HAL9000/src/vmm.c with the calls of
--     src/HAL9000/src/mmu.c in between; Vmm/Fault, Vmm/Regions and Vmm/Buffer say what they promise,
--     Vmm/Metadata what a release does to the kernel's tables.
--   Mmu: the physical address of a byte, src/HAL9000/src/mmu.c; Mmu/Byte compares it with the mapping.
--   Ipc: src/HAL9000/src/ipc.c; Ipc/Runs all orders in which the CPUs and a sender can follow one another.
--   Smp: the messages of src/HAL9000/src/smp.c; Smp/Delivery whom they reach.
--   Display: src/HAL9000/src/display.c; Display/Paper compares the screen with a typewriter's paper,
--     Display/Restore stores and restores it.
--   Keyboard: src/HAL9000/src/keyboard.c, with the codes of src/HAL9000/headers/scan_codes.h in
--     Keyboard/Codes; Keyboard/Held compares its data with the keys pressed and released.
--   Editor: the line editor, src/HAL9000/src/keyboard_utils.c; Editor/Line what each key is for and what
--     its code does to the buffer, Editor/Typing whole sequences of keys.
--   Tests/*: concrete functions for CommonLib, concrete machines, and runs of the theorems.
--
-- Steps. A function of the scheduler runs with the interrupts off and under its locks, so it is one step
-- of a CPU. The lock of the ready list is taken and given back within such a step, so waiting for it is
-- not modelled: a step stands for the time from where the lock is held. Code that gives up its lock in between (`ExEventWaitForSignal`, `MutexAcquire`) is cut there
-- into functions that other steps can separate, and the handling of an event of another CPU
-- (`IpcProcessEvent`) where the event's count changes.
--
-- Bounds and fuel. Machine words wrap as in the source (`byte`, `dword`, `qword`); where the code adds
-- addresses that cannot wrap, the file says so. The loop of `ExEventSignal` runs on fuel: each round
-- takes a thread off the list, so the length of the list and one are enough, and the theorems on
-- `signal` show that it returns. The loop of the backspace key runs on the size of the buffer, and the
-- theorem on the keys shows that this is enough. All other loops recurse over a list or over a number of rounds.
--
-- Not modelled: interrupt controllers, drivers and devices, the I/O manager, the command interpreter,
-- the loader of applications and the system calls; of the paging tables, the set-up of the kernel's own
-- and the caches of translations; of the threads, their creation and destruction; of the other CPUs,
-- their start. These write to devices, run code of CommonLib or move text that is only stored.
mod Prelude
pub mod CommonLib
pub mod Kernel
pub mod Sched
pub mod Event
pub mod Process
pub mod Thread
pub mod Mutex
pub mod Timer
pub mod Mdl
pub mod Paging
pub mod Pmm
pub mod Vm
pub mod Mmu
pub mod Vmm
pub mod Keyboard
pub mod Editor
pub mod Display
pub mod Ipc
pub mod Smp
pub mod Tests

-- ===== src/Lib.antt =====
-- The nucleus of PandOSsh (phase1, phase2), its support level (phase3), its log buffer (klog.c) and
-- its user programs (testers), with the theorems on them.
--
-- The program. headers/listx.h gives circular doubly linked lists whose links sit inside the
-- structures that they join. phase1/pcb.c keeps the table of process control blocks in them: the
-- free PCBs, the process queues in order of priority, the process tree. phase1/asl.c keeps the
-- semaphores on which processes wait, each with its queue. On these stand the nucleus of phase2:
-- initial.c starts it, scheduler.c chooses the next process, exceptions.c dispatches exceptions and
-- serves the system calls, interrupts.c serves the devices and the timers, and functions.c holds
-- what they share. phase3 runs user processes on the system calls, with a pool of support
-- structures, page tables and a pool of frames.
--
-- The model.
--   Memory      every address of a struct list_head, and the memory of next and prev links
--   Listx       headers/listx.h; Listx/View has the abstract view, Rings, in which every sentinel
--               stands for a sequence of items and an item is in one list at most
--   Store       headers/types.h and the globals: the state, and the commands on it
--   Pcb         phase1/pcb.c; Pcb/Free, Pcb/Queue, Pcb/Order and Pcb/Tree its parts
--   Asl         phase1/asl.c; Asl/View the well-formed semaphores, Asl/Waiting the queues
--               by key, Asl/Spec the operations on them
--   Nucleus     phase2: Platform (uriscv's constants), Functions (functions.c), Scheduler
--               (scheduler.c), Syscalls and Exceptions (exceptions.c), Interrupts (interrupts.c),
--               Initial (initial.c); Dispatch, Verhogen, Passeren, Waiting, Yield, Saved,
--               Devices, Create, Wakes, Served, Clock, Tables and Boot hold theorems;
--               Kernel has all lists as one abstract state, Leaving, Killed, Burial,
--               Forest, Kill and Terminate the end of a process with its descendants;
--               Steady and Sound have what holds between any two operations, Family and Graft
--               the trees of processes, Blocking, Moves, Waits, Spawning, Begun, Killing and Ended the
--               operations on the whole, Steps the steps in any order, Moved, Reached and Safety
--               the states that they reach, Calls the calls as sequences of steps
--   Klog        klog.c
--   Swap        phase3/vmSupport.c, the pool and the page index, and from phase3/initProc.c the
--               initial support structure and state of a user process
--   Supports    phase3/initProc.c, the pool of support structures
--   Process     programs that run as processes; Process/Protocol has semaphores as locks
--   World       the memory of the support level, its globals and the operations that it calls
--   Pager       the rest of phase3/vmSupport.c, with TerminateSys and programTrapHandler of
--               phase3/sysSupport.c; Pager/Contract what is relied on and the lock on the
--               swap pool, Pager/Serves the theorems
--   UserCalls   the rest of phase3/sysSupport.c; UserCalls/Handler, UserCalls/Terminal and
--               UserCalls/Reading have the theorems
--   Start       test of phase3/initProc.c and uTLB_RefillHandler of phase2/exceptions.c;
--               Start/Shell what test prepares
--   Programs    testers: the shell and the calculator (Programs/Lines and Programs/Numbers have
--               the theorems), and in Programs/Prints the programs that print
--   Examples    sample states, and the theorems applied to them
--   Base        numbers, tests, lists and loops
--
-- A C function is a function of the name in snake_case. A PCB, a descriptor or a support structure
-- is its index in its table, and a pointer that may be null an Option. A command runs on the whole
-- state and returns (ok), gives the processor away by LDST, LDCXT, HALT, PANIC or WAIT (stop), or
-- faults: where a null PCB, process or structure is dereferenced, or container_of meets a link of
-- another structure; the functions of listx.h, which write through the links themselves, do not
-- fault. 32-bit words are numbers below 2 ^ 32, with the wrap-around written out.
--
-- Loops over a list run on fuel. It is max_proc + 1, one round for each PCB or descriptor there is
-- and one for the sentinel; the theorems that need it say that the list holds at most max_proc
-- items, and show that the result is no lack of fuel. The digits of a 32-bit number take at most 32
-- rounds in any base.
--
-- The code of phase3 runs as a process. Its run is a tree: at a system call of the nucleus, or at an
-- instruction for the TLB or the STATUS register, it hands the machine over, and goes on with any
-- answer and any memory that the rest of the system may come back with. Between two such points it
-- is not interrupted, so that what the others do is seen at the next one. The theorems say in
-- Answers what they rely on: the nucleus gives a process the address of its own structure, the other
-- processes leave its structure and its saved state alone, and who holds the semaphore of the swap
-- pool finds the pool and its own page table as it left them. TERMPROCESS does not return. The read
-- of a line is bounded by the addresses that are left below the end of the user's space.
--
-- A program of testers runs as such a process too, with its input buffer for its memory. The loop of
-- the shell runs for a number of rounds that is given, and TERMINATE does not return.
--
-- Not modelled: the phase tests. uriscv's layout of
-- registers and of device registers, and the addresses that the linker gives, are parameters
-- (Platform, Layout).
pub mod Base
pub mod Memory
pub mod Listx
pub mod Store
pub mod Pcb
pub mod Asl
pub mod Nucleus
pub mod Klog
pub mod Swap
pub mod Supports
pub mod Process
pub mod World
pub mod Pager
pub mod UserCalls
pub mod Start
pub mod Programs
pub mod Examples

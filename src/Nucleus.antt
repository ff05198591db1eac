-- ===== src/Nucleus.antt =====
-- phase2: the nucleus. Its modules follow the files functions.c, scheduler.c, exceptions.c,
-- interrupts.c and initial.c.
pub mod Platform
pub mod Functions
pub mod Devices
pub mod Scheduler
pub mod Syscalls
pub mod Saved
pub mod Exceptions
pub mod Interrupts
pub mod Initial
pub mod Tables
pub mod Kernel
pub mod Steady
pub mod Leaving
pub mod Blocking
pub mod Moves
pub mod Waits
pub mod Spawning
pub mod Killing
pub mod Family
pub mod Graft
pub mod Killed
pub mod Burial
pub mod Forest
pub mod Kill
pub mod Terminate
pub mod Boot
pub mod Dispatch
pub mod Verhogen
pub mod Create
pub mod Wakes
pub mod Served
pub mod Clock
pub mod Passeren
pub mod Waiting
pub mod Yield
pub mod Sound
pub mod Ended
pub mod Begun
pub mod Steps
pub mod Moved
pub mod Reached
pub mod Safety
pub mod Calls

-- ===== src/Nucleus/Exceptions.antt =====
-- The handlers of phase2/exceptions.c.
use Prim.Native.Nat.{bit_and, bit_or}
use progetto_sistemi_operati.Base.{
  ℕ, ◌-◌, ◌^◌, Bool, none, some, ◌==◌, leb, ◌&&◌, ◌||◌, if◌then◌else◌,
}
use progetto_sistemi_operati.Store.{
  Store, CpuState, Support, Cmd, stop, ldcxt, pure, modify, ◌>>=◌, ◌>>◌,
}
use progetto_sistemi_operati.Nucleus.Platform.{
  Platform, minus, getexeccode, mstatus_mpp_mask, exception_state_ptr, on_state, advance, current,
  put_current,
}
use progetto_sistemi_operati.Nucleus.Functions.{copy_state, kill_process}
use progetto_sistemi_operati.Nucleus.Scheduler.{scheduler}
use progetto_sistemi_operati.Nucleus.Syscalls.{
  arg, create_process, terminate_process, passeren, verhogen, do_io, get_time, clock_wait,
  get_support_ptr, get_process_id, yield,
}
use progetto_sistemi_operati.Nucleus.Interrupts.{interrupt_handler}

abbrev pub pgfault_except : ℕ
pgfault_except = 0

abbrev pub general_except : ℕ
general_except = 1

abbrev pub put_support : ℕ → Support → Store → Store
put_support a x s = record s { support = λ b. if a == b then x else s.support b }

-- The support structure gets the saved state in its slot `index`.
unfoldable pub store_exception : Platform → ℕ → ℕ → ℕ → Store → Store
store_exception u a index state s =
    let x = s.support a in
    put_support a
      (record x {
        except_state = λ i.
            if index == i
            then copy_state u.gpr_len (x.except_state index) (s.machine.state_at state)
            else x.except_state i;
      })
      s

unfoldable pub pass_up : Platform → ℕ → ℕ → ℕ → Cmd (Unit {0})
pass_up u a index state = do
  modify (store_exception u a index state)
  λ s. stop (ldcxt ((s.support a).except_context index)) s

unfoldable pub die : Platform → ℕ → Cmd (Unit {0})
die u p = do kill_process u (some p); modify (put_current none); scheduler

unfoldable pub pass_up_or_die : Platform → ℕ → ℕ → Cmd (Unit {0})
pass_up_or_die u index state = current >>= λ p s.
    if (s.pcb p).support_struct == 0
    then die u p s
    else pass_up u (s.pcb p).support_struct index state s

-- The exception code of the saved CAUSE is replaced by that of a privileged instruction.
abbrev pub mark_privileged : CpuState → CpuState
mark_privileged x = record x { cause = bit_or (x.cause - bit_and x.cause getexeccode) 40 }

-- A call with a negative number that was made in user mode.
unfoldable pub is_privileged_call : Platform → CpuState → Bool
is_privileged_call u x = leb (2 ^ 31) (x.gpr u.reg_a0) && bit_and x.status mstatus_mpp_mask == 0

-- The `switch` over the call's number.
unfoldable pub dispatch_call : Platform → ℕ → ℕ → Cmd (Unit {0})
dispatch_call u state n =
    if n == minus 1
    then create_process u state
    else if n == minus 2
    then terminate_process u state
    else if n == minus 3
    then passeren u state
    else if n == minus 4
    then verhogen u state
    else if n == minus 5
    then do_io u state
    else if n == minus 6
    then get_time u state
    else if n == minus 7
    then clock_wait u state
    else if n == minus 8
    then get_support_ptr u state
    else if n == minus 9
    then get_process_id u state
    else if n == minus 10
    then yield u state
    else (modify (on_state state advance) >> pass_up_or_die u general_except state)

unfoldable pub syscall_handler : Platform → ℕ → Cmd (Unit {0})
syscall_handler u state s =
    if is_privileged_call u (s.machine.state_at state)
    then (modify (on_state state mark_privileged) >> pass_up_or_die u general_except state) s
    else dispatch_call u state (arg state u.reg_a0 s) s

-- What `exceptionHandler` does with an exception code that is no interrupt's.
unfoldable pub dispatch_exception : Platform → ℕ → ℕ → Cmd (Unit {0})
dispatch_exception u state code =
    if leb 24 code && leb code 28
    then pass_up_or_die u pgfault_except state
    else if code == 8 || code == 11
    then syscall_handler u state
    else if leb code 7 || code == 9 || code == 10 || (leb 12 code && leb code 23)
    then pass_up_or_die u general_except state
    else pure tt

unfoldable pub exception_handler : Platform → Cmd (Unit {0})
exception_handler u s =
    let state = exception_state_ptr s.machine.prid in
    if u.cause_is_int s.machine.cause
    then interrupt_handler u state s
    else dispatch_exception u state (bit_and s.machine.cause u.cause_exccode_mask) s

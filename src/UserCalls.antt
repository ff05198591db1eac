-- ===== src/UserCalls.antt =====
-- phase3/sysSupport.c: the system calls that user processes make, and the exceptions that the
-- nucleus passes up.
pub mod Pool
pub mod Handler
pub mod Terminal
pub mod Reading
use Prim.Native.Nat.{bit_and, bit_or}
use progetto_sistemi_operati.Base.{
  ℕ, zero, suc, ◌+◌, ◌-◌, ◌*◌, ◌/◌, ◌%◌, ◌^◌, ◌||◌, Bool, true, false, not, Option, none, some,
  ◌==◌, if◌then◌else◌, ltb, leb,
}
use progetto_sistemi_operati.Store.{CpuState, ldst}
use progetto_sistemi_operati.Nucleus.Platform.{getexeccode, set_reg, advance, minus}
use progetto_sistemi_operati.Supports.{allocate_support, deallocate_support}
use progetto_sistemi_operati.Swap.{minus_one, init_support_structure, init_u_proc_state}
use progetto_sistemi_operati.Process.{
  ret, fault, out_of_fuel, pure, gets, modify, ask, call, exit, ◌>>=◌, ◌>>◌,
}
use progetto_sistemi_operati.World.{
  World, Layout, passeren, verhogen, do_io, create_process, get_support_ptr, terminal_write,
  terminal_read, shell, Code, lift, on_user, except_state, put_except_state,
}
use progetto_sistemi_operati.Pager.{shell_asid, set_asid, terminate_sys, program_trap}

abbrev pub user_stack_top : ℕ
user_stack_top = 0xC0000000

abbrev pub kuseg : ℕ
kuseg = 0x80000000

abbrev pub general_except : ℕ
general_except = 1

-- The exception state of the call, `state`, is that of the structure at `sup`.
abbrev pub state_of : ℕ → World → CpuState
state_of sup = except_state sup general_except

abbrev pub reg : ℕ → ℕ → World → ℕ
reg sup r w = (state_of sup w).gpr r

abbrev pub on_state : ℕ → (CpuState → CpuState) → World → World
on_state sup f w = put_except_state sup general_except (f (state_of sup w)) w

-- `state->reg_a0 = a`
abbrev pub answer : Layout → ℕ → ℕ → World → World
answer y sup a = on_state sup (set_reg y.reg_a0 a)

-- `state->pc_epc += 4; LDST(state);`
unfoldable pub return_from : ℕ → Code (Unit {0})
return_from sup = do modify (on_state sup advance); λ w. exit (ldst (state_of sup w)) w

-- `-status` as a 32-bit pattern.
abbrev pub negated : ℕ → ℕ
negated status = (2 ^ 32 - status % 2 ^ 32) % 2 ^ 32

-- The registers of terminal 0: the command of the transmitter at offset 12, that of the receiver at
-- offset 4.
abbrev pub terminal : Layout → ℕ
terminal y = y.dev_reg_addr 21 0

-- The loop of `WriteTerminalSys` over the characters left; it returns how many were sent.
unfoldable pub write_chars : Layout → ℕ → ℕ → ℕ → ℕ → Code ℕ
write_chars y sup zero addr written w = ret written w
write_chars y sup (suc n) addr written w =
    (ask (do_io (terminal y + 12) (bit_or ((w.byte addr * 2 ^ 8) % 2 ^ 32) 2)) >>= λ status w.
    elim (bit_and status 0xFF == 5) [
      | true ↦ write_chars y sup n (addr + 1) (written + 1) w
      | false ↦ ret written (answer y sup (negated status) w)
    ])
      w

-- A length that is negative, as a signed number, is above 128 as a pattern.
unfoldable pub write_refused : ℕ → ℕ → Bool
write_refused addr len = ltb 128 len || ltb addr kuseg || ltb user_stack_top ((addr + len) % 2 ^ 32)

unfoldable pub write_terminal_sys : Layout → ℕ → ℕ → Code (Unit {0})
write_terminal_sys y sup asid w =
    let addr = reg sup y.reg_a1 w in
    let len = reg sup y.reg_a2 w in
    if write_refused addr len
    then terminate_sys y asid w
    else (do
      call (passeren terminal_write)
      written ← write_chars y sup len addr 0
      λ w. ret tt (if written == len then answer y sup written w else w)
      call (verhogen terminal_write)
      return_from sup)
        w

-- The loop of `ReadTerminalSys`: `true` if it ran to its end, `false` if the address reached the end
-- of the user's space, where the process ends.
unfoldable pub read_chars : Layout → ℕ → ℕ → ℕ → ℕ → ℕ → Code (Unit {0})
read_chars y sup asid zero addr len w = out_of_fuel
read_chars y sup asid (suc fuel) addr len w = elim (leb user_stack_top addr) [
  | true ↦ (do call (verhogen terminal_read); terminate_sys y asid) w
  | false ↦
      (ask (do_io (terminal y + 4) 2) >>= λ status w. elim (bit_and status 0xFF == 5) [
        | false ↦
            (do
              modify (answer y sup (negated status))
              call (verhogen terminal_read)
              return_from sup)
              w
        | true ↦
            let c = status / 2 ^ 8 % 2 ^ 8 in
            let w' = record w { byte = λ a. if addr == a then c else w.byte a } in
            elim (c == 10) [
              | true ↦
                  (do
                    modify (answer y sup (len + 1))
                    call (verhogen terminal_read)
                    return_from sup)
                    w'
              | false ↦ read_chars y sup asid fuel (addr + 1) (len + 1) w'
            ]
      ])
        w
]

-- The addresses that are left before the end of the user's space bound the rounds.
unfoldable pub read_terminal_sys : Layout → ℕ → ℕ → Code (Unit {0})
read_terminal_sys y sup asid w =
    let addr = reg sup y.reg_a1 w in
    if ltb addr kuseg || leb user_stack_top addr
    then terminate_sys y asid w
    else (do
      call (passeren terminal_read)
      read_chars y sup asid (user_stack_top - addr + 1) addr 0)
        w

-- `EXECUTE` is for the shell, and for the asids from 2 to 8; a negative one is large as a pattern.
unfoldable pub execute_refused : ℕ → ℕ → Bool
execute_refused asid new_asid = not (asid == shell_asid) || ltb new_asid 2 || ltb 8 new_asid

-- The process is created on the structure `u`.
unfoldable pub launch : Layout → ℕ → ℕ → ℕ → Code (Unit {0})
launch y sup new_asid u = do
  modify (on_user u (init_support_structure y.handlers new_asid))
  let state = init_u_proc_state y.gpr_len y.reg_sp new_asid y.on_stack
  r ← ask (create_process state 0 (y.support_addr u))
  λ w.
      if r == minus_one
      then (do
        modify (set_asid u 0)
        lift (deallocate_support u)
        modify (answer y sup (minus 1))
        return_from sup)
          w
      else (do call (passeren shell); return_from sup) w

unfoldable pub execute_sys : Layout → ℕ → ℕ → Code (Unit {0})
execute_sys y sup asid w =
    let new_asid = reg sup y.reg_a1 w in
    if execute_refused asid new_asid
    then terminate_sys y asid w
    else (lift allocate_support >>= λ new. elim new [
      | none ↦ do modify (answer y sup (minus 1)); return_from sup
      | some u ↦ launch y sup new_asid u
    ])
        w

-- The calls `TERMINATE`, `WRITETERMINAL`, `READTERMINAL`, `EXECUTE`.
unfoldable pub support_syscall_handler : Layout → ℕ → ℕ → Code (Unit {0})
support_syscall_handler y sup asid w =
    let number = reg sup y.reg_a0 w in
    if number == 2
    then terminate_sys y asid w
    else if number == 4
    then write_terminal_sys y sup asid w
    else if number == 5
    then read_terminal_sys y sup asid w
    else if number == 6
    then execute_sys y sup asid w
    else program_trap y asid w

unfoldable pub general_exception_handler : Layout → Code (Unit {0})
general_exception_handler y = do
  sup ← ask get_support_ptr
  λ w.
      if sup == 0
      then fault
      else if bit_and (state_of sup w).cause getexeccode == 8
      then support_syscall_handler y sup (w.user (y.support_index sup)).asid w
      else program_trap y (w.user (y.support_index sup)).asid w

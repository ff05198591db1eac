-- ===== src/Nucleus/Interrupts.antt =====
-- phase2/interrupts.c
use Prim.Native.Nat.{bit_and}
use progetto_sistemi_operati.Base.{
  ℕ, zero, suc, ◌+◌, ◌-◌, ◌*◌, Bool, true, false, Option, none, some, ◌==◌, leb, ◌&&◌,
  if◌then◌else◌,
}
use progetto_sistemi_operati.Memory.{ready_queue}
use progetto_sistemi_operati.Store.{
  Store, Cmd, ok, stop, panic, fault, out_of_fuel, pure, modify, ◌>>=◌, ◌>>◌, on_pcb,
}
use progetto_sistemi_operati.Pcb.{max_proc, insert_proc_q}
use progetto_sistemi_operati.Asl.{remove_blocked}
use progetto_sistemi_operati.Nucleus.Platform.{
  Platform, pseudo_index, time_slice, psecond, start_devreg, device_sem, set_reg, put_word,
  on_machine, load_state, current, incr, decr,
}
use progetto_sistemi_operati.Nucleus.Functions.{copy_state, find_device_index}
use progetto_sistemi_operati.Nucleus.Scheduler.{scheduler}

-- `IL_CPUTIMER`, `IL_TIMER`, `IL_DISK` to `IL_TERMINAL`; `none` is the call of `PANIC`.
unfoldable pub line_of_code : ℕ → Option ℕ
line_of_code c =
    if c == 7
    then some 1
    else if c == 3
    then some 2
    else if c == 17
    then some 3
    else if c == 18
    then some 4
    else if c == 19
    then some 5
    else if c == 20
    then some 6
    else if c == 21
    then some 7
    else none

unfoldable pub calc_int_line_no : Platform → ℕ → Cmd ℕ
calc_int_line_no u cause s = elim (line_of_code (bit_and cause u.cause_exccode_mask)) [
  | none ↦ stop panic s
  | some n ↦ ok n s
]

abbrev pub not_zero : ℕ → Bool
not_zero x = if x == 0 then false else true

-- The lowest bit of a device's word that is on.
unfoldable pub first_on : ℕ → Option ℕ
first_on w =
    if not_zero (bit_and w 0x01)
    then some 0
    else if not_zero (bit_and w 0x02)
    then some 1
    else if not_zero (bit_and w 0x04)
    then some 2
    else if not_zero (bit_and w 0x08)
    then some 3
    else if not_zero (bit_and w 0x10)
    then some 4
    else if not_zero (bit_and w 0x20)
    then some 5
    else if not_zero (bit_and w 0x40)
    then some 6
    else if not_zero (bit_and w 0x80)
    then some 7
    else none

-- The word of the interrupting devices of a line.
abbrev pub bitmap : ℕ → Store → ℕ
bitmap line s = s.machine.word (0x10000040 + 4 * (line - 3))

unfoldable pub calc_dev_no : ℕ → Cmd ℕ
calc_dev_no line s = elim (first_on (bitmap line s)) [ none ↦ stop panic s | some n ↦ ok n s ]

abbrev pub dev_addr : ℕ → ℕ → ℕ
dev_addr line dev = start_devreg + (line - 3) * 0x80 + dev * 0x10

unfoldable pub calc_dev_addr : ℕ → Cmd ℕ
calc_dev_addr line = do n ← calc_dev_no line; pure (dev_addr line n)

-- Both ways out of an interrupt: the running process goes on, or another is chosen.
unfoldable pub go_on : ℕ → Cmd (Unit {0})
go_on state s = elim s.current_process [ none ↦ scheduler s | some p ↦ load_state state s ]

-- What `handleDevice` has found out: the status to hand over, and the index of the semaphore, which
-- is `none` for -1. A terminal that reports neither a sent nor a received character leaves the index
-- at 0 and the semaphore null.
pub record Report : Type 0 where
  pub status : ℕ
  pub index : Option ℕ
  pub known : Bool

-- The acknowledgement of a device register, and the semaphore of the address `at`.
unfoldable pub acknowledge : Platform → ℕ → ℕ → ℕ → Cmd Report
acknowledge u status_addr command_addr at s =
    ok (record { status = s.machine.word status_addr; index = find_device_index at; known = true })
      (put_word command_addr u.ack s)

unfoldable pub read_device : Platform → ℕ → ℕ → Cmd Report
read_device u line addr s =
    if line == 7
    then (if bit_and (s.machine.word (addr + 0x8)) 0xff == 5
        then acknowledge u (addr + 0x8) (addr + 0xc) (addr + 0x8) s
        else if bit_and (s.machine.word addr) 0xff == 5
        then acknowledge u addr (addr + 0x4) addr s
        else ok (record { status = 0; index = some 0; known = false }) s)
    else acknowledge u addr (addr + 0x4) addr s

-- The removal of the oldest process of the semaphore, where the device is known.
unfoldable pub unblock : Platform → Report → Cmd (Option ℕ)
unblock u r s =
    if r.known
    then elim r.index [ none ↦ ok none s | some k ↦ remove_blocked (device_sem u k) s ]
    else ok none s

-- With no process to wake the semaphore is raised, through a null pointer for an unknown device.
unfoldable pub raise_sem : Platform → Report → Cmd (Unit {0})
raise_sem u r s = elim r.index [
  | none ↦ ok tt s
  | some k ↦
      if r.known
      then ok tt (put_word (device_sem u k) (incr (s.machine.word (device_sem u k))) s)
      else fault
]

unfoldable pub wake : Platform → Report → ℕ → Cmd (Unit {0})
wake u r p = do
  modify (on_pcb p (λ x. record x { state = set_reg u.reg_a0 r.status x.state }))
  insert_proc_q ready_queue p
  modify (λ s. record s { soft_block_count = decr s.soft_block_count })

unfoldable pub handle_device : Platform → ℕ → ℕ → Cmd (Unit {0})
handle_device u line state = do
  addr ← calc_dev_addr line
  r ← read_device u line addr
  unblocked ← unblock u r
  λ s. elim unblocked [ some p ↦ wake u r p s | none ↦ raise_sem u r s ]
  go_on state

unfoldable pub handle_plt : Platform → ℕ → Cmd (Unit {0})
handle_plt u state = do
  modify (on_machine (λ m. record m { timer = time_slice }))
  p ← current
  modify (λ s.
      on_pcb p (λ x. record x { state = copy_state u.gpr_len x.state (s.machine.state_at state) })
        s)
  insert_proc_q ready_queue p
  scheduler

-- Every process that waits on the pseudo-clock becomes ready.
unfoldable pub wake_all : ℕ → ℕ → Cmd (Unit {0})
wake_all zero sem s = out_of_fuel
wake_all (suc rounds) sem s =
    (remove_blocked sem >>= λ found s. elim found [
      | none ↦ ok tt s
      | some p ↦
          (do
            insert_proc_q ready_queue p
            modify (λ s. record s { soft_block_count = decr s.soft_block_count })
            wake_all rounds sem)
            s
    ])
      s

unfoldable pub handle_interval_clock : Platform → ℕ → Cmd (Unit {0})
handle_interval_clock u state = do
  modify (on_machine (λ m. record m { interval = psecond }))
  wake_all (max_proc + 1) (device_sem u pseudo_index)
  go_on state

unfoldable pub interrupt_handler : Platform → ℕ → Cmd (Unit {0})
interrupt_handler u state = do
  line ← λ s. calc_int_line_no u s.machine.cause s
  if line == 1
      then handle_plt u state
      else if line == 2
      then handle_interval_clock u state
      else if leb 3 line && leb line 7
      then handle_device u line state
      else pure tt

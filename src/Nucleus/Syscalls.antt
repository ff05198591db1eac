-- ===== src/Nucleus/Syscalls.antt =====
-- The system calls of phase2/exceptions.c. `state` is the address of the saved exception state.
use progetto_sistemi_operati.Base.{
  ℕ, ◌+◌, ◌%◌, ◌^◌, Bool, true, false, Option, none, some, ◌==◌, leb, ◌||◌, if◌then◌else◌,
}
use progetto_sistemi_operati.Memory.{of_head, ready_queue}
use progetto_sistemi_operati.Listx.{list_empty, list_add_tail}
use progetto_sistemi_operati.Store.{
  Store, Cmd, ok, fault, pure, gets, modify, ◌>>=◌, ◌>>◌, on_links, on_pcb,
}
use progetto_sistemi_operati.Pcb.{alloc_pcb, insert_child, insert_proc_q, list_of_pcb}
use progetto_sistemi_operati.Asl.{insert_blocked, remove_blocked}
use progetto_sistemi_operati.Nucleus.Platform.{
  Platform, minus, device_sem, pseudo_index, set_reg, put_word, on_state, advance, load_state,
  current, put_current, incr, decr,
}
use progetto_sistemi_operati.Nucleus.Functions.{
  copy_state, find_device_index, find_process, kill_process, update_time,
}
use progetto_sistemi_operati.Nucleus.Scheduler.{scheduler}

-- A register of the saved state.
abbrev pub arg : ℕ → ℕ → Store → ℕ
arg state r s = (s.machine.state_at state).gpr r

-- `*sem <= 0` for a word read as a signed integer.
abbrev pub not_positive : ℕ → Bool
not_positive x = x == 0 || leb (2 ^ 31) x

-- `state->reg_a0 = a`
abbrev pub answer : Platform → ℕ → ℕ → Store → Store
answer u state a = on_state state (set_reg u.reg_a0 a)

-- `state->pc_epc += 4; LDST(state);`
unfoldable pub resume : ℕ → Cmd (Unit {0})
resume state = modify (on_state state advance) >> load_state state

-- The running process keeps the saved state and the time that it has used.
unfoldable pub save_current : Platform → ℕ → ℕ → Store → Store
save_current u state p s =
    on_pcb p
      (λ x. record x {
        state = copy_state u.gpr_len x.state (s.machine.state_at state);
        time = (x.time + update_time s.machine.prid s) % 2 ^ 32;
      })
      s

-- The running process gives the processor up.
unfoldable pub suspend : Platform → ℕ → Cmd (Unit {0})
suspend u state = do
  modify (on_state state advance)
  p ← current
  modify (save_current u state p)
  modify (put_current none)

unfoldable pub create_process : Platform → ℕ → Cmd (Unit {0})
create_process u state = alloc_pcb u.gpr_len >>= λ new. elim new [
  | none ↦ modify (answer u state (minus 1)) >> resume state
  | some p ↦ do
    modify (λ s. answer u state (s.pcb p).pid s)
    modify (λ s.
        on_pcb p
          (λ x. record x {
            state = copy_state u.gpr_len x.state (s.machine.state_at (arg state u.reg_a1 s));
            prio = arg state u.reg_a2 s;
            support_struct = arg state u.reg_a3 s;
          })
          s)
    parent ← gets (λ s. s.current_process)
    insert_child parent (some p)
    insert_proc_q ready_queue p
    modify (λ s. record s { process_count = incr s.process_count })
    resume state
]

unfoldable pub same_process : Option ℕ → Option ℕ → Bool
same_process none none = true
same_process (some p) (some q) = p == q
same_process none (some q) = false
same_process (some p) none = false

unfoldable pub terminate_process : Platform → ℕ → Cmd (Unit {0})
terminate_process u state s =
    let find =
      if arg state u.reg_a1 s == 0
      then ok s.current_process s
      else find_process (arg state u.reg_a1 s) s in
    (do
      target ← λ _. find
      kill_process u target
      λ s.
          if same_process target s.current_process
          then (modify (put_current none) >> scheduler) s
          else resume state s)
      s

unfoldable pub passeren : Platform → ℕ → Cmd (Unit {0})
passeren u state s =
    let sem = arg state u.reg_a1 s in
    if not_positive (s.machine.word sem)
    then (do p ← current; _ ← insert_blocked sem p; suspend u state; scheduler) s
    else (modify (λ s. put_word sem (decr (s.machine.word sem)) s) >> resume state) s

unfoldable pub verhogen : Platform → ℕ → Cmd (Unit {0})
verhogen u state s =
    let sem = arg state u.reg_a1 s in
    (remove_blocked sem >>= λ unlocked. elim unlocked [
      | some p ↦ insert_proc_q ready_queue p >> resume state
      | none ↦ modify (λ s. put_word sem (incr (s.machine.word sem)) s) >> resume state
    ])
      s

-- The common end of `DOIO` and `CLOCKWAIT`: the running process waits on a device's semaphore.
unfoldable pub wait_on : Platform → ℕ → ℕ → Cmd (Unit {0})
wait_on u state sem s =
    (do
      λ s.
          if not_positive (s.machine.word sem)
          then (do p ← current; _ ← insert_blocked sem p; pure tt) s
          else ok tt (put_word sem (decr (s.machine.word sem)) s)
      suspend u state
      modify (λ s. record s { soft_block_count = incr s.soft_block_count })
      scheduler)
      s

abbrev pub index_word : Option ℕ → ℕ
index_word none = minus 1
index_word (some k) = k

unfoldable pub do_io : Platform → ℕ → Cmd (Unit {0})
do_io u state s =
    let command = arg state u.reg_a1 s in
    (do
      modify (put_word command (arg state u.reg_a2 s))
      wait_on u state (device_sem u (index_word (find_device_index command))))
      s

-- The number of the processor stands where a pid is looked for.
unfoldable pub get_time : Platform → ℕ → Cmd (Unit {0})
get_time u state s =
    (find_process s.machine.prid >>= λ found. elim found [
      | none ↦ λ _. fault
      | some p ↦ do
        modify (λ s. answer u state (((s.pcb p).time + update_time s.machine.prid s) % 2 ^ 32) s)
        resume state
    ])
      s

unfoldable pub clock_wait : Platform → ℕ → Cmd (Unit {0})
clock_wait u state = wait_on u state (device_sem u pseudo_index)

unfoldable pub get_support_ptr : Platform → ℕ → Cmd (Unit {0})
get_support_ptr u state = do
  p ← current
  modify (λ s. answer u state (s.pcb p).support_struct s)
  resume state

-- The pid that `GETPROCESSID` answers: its own, its parent's, or 0.
unfoldable pub process_id : Platform → ℕ → ℕ → Store → ℕ
process_id u state p s =
    if arg state u.reg_a1 s == 0
    then (s.pcb p).pid
    else elim (s.pcb p).parent [ none ↦ 0 | some q ↦ (s.pcb q).pid ]

unfoldable pub get_process_id : Platform → ℕ → Cmd (Unit {0})
get_process_id u state = do
  p ← current
  modify (λ s. answer u state (process_id u state p s) s)
  resume state

-- Behind the other processes, whatever their priorities.
unfoldable pub yield : Platform → ℕ → Cmd (Unit {0})
yield u state = do
  modify (on_state state advance)
  p ← current
  modify (save_current u state p)
  modify (put_current none)
  λ s.
      if list_empty (of_head ready_queue) s.links
      then insert_proc_q ready_queue p s
      else ok tt (on_links (list_add_tail (list_of_pcb p) (of_head ready_queue)) s)
  scheduler

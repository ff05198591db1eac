-- ===== src/Nucleus/Functions.antt =====
-- phase2/functions.c
use progetto_sistemi_operati.Base.{
  ℕ, zero, suc, ◌+◌, ◌-◌, ◌*◌, ◌/◌, ◌%◌, ◌^◌, Bool, false, Option, none, some, ◌==◌, leb,
  if◌then◌else◌, for_range, ◌||◌,
}
use progetto_sistemi_operati.Memory.{Addr, of_head, ready_queue}
use progetto_sistemi_operati.Listx.{addr_eq}
use progetto_sistemi_operati.Store.{
  Store, CpuState, Cmd, ok, out_of_fuel, pure, modify, ◌>>=◌, ◌>>◌, pcb_of_list,
}
use progetto_sistemi_operati.Pcb.{
  max_proc, empty_child, remove_child, out_child, out_proc_q, free_pcb,
}
use progetto_sistemi_operati.Asl.{find_blocked_pcb, out_blocked}
use progetto_sistemi_operati.Nucleus.Platform.{
  Platform, device_sem, pseudo_index, start_devreg, decr,
}

-- The loop over the registers copies `STATE_GPR_LEN` of them.
unfoldable pub copy_gpr : ℕ → (ℕ → ℕ) → (ℕ → ℕ) → ℕ → ℕ
copy_gpr gpr_len to from = for_range gpr_len 0 (λ c g k. if c == k then from c else g k) to

unfoldable pub copy_state : ℕ → CpuState → CpuState → CpuState
copy_state gpr_len to from = record {
  entry_hi = from.entry_hi;
  cause = from.cause;
  status = from.status;
  pc_epc = from.pc_epc;
  mie = from.mie;
  gpr = copy_gpr gpr_len to.gpr from.gpr;
}

-- The index of a device's semaphore from the address of one of its registers; `none` is -1.
unfoldable pub find_device_index : ℕ → Option ℕ
find_device_index addr =
    let bottom = (addr + 2 ^ 32 - start_devreg) % 2 ^ 32 in
    let index = if leb (32 * 0x10) bottom then 32 + (bottom - 32 * 0x10) / 0x8 else bottom / 0x10 in
    if leb (2 ^ 31) index || leb 49 index then none else some index

unfoldable pub find_ready : ℕ → Addr → ℕ → Cmd (Option ℕ)
find_ready zero iter pid s = out_of_fuel
find_ready (suc fuel) iter pid s =
    if addr_eq iter (of_head ready_queue)
    then ok none s
    else (pcb_of_list iter >>= λ i s.
          let rest = find_ready fuel (s.links.next iter) pid s in
          if (s.pcb i).pid == pid then ok (some i) s else rest)
        s

-- Whether the running process has the pid.
unfoldable pub runs_pid : ℕ → Store → Bool
runs_pid pid s = elim s.current_process [ none ↦ false | some p ↦ (s.pcb p).pid == pid ]

unfoldable pub find_process : ℕ → Cmd (Option ℕ)
find_process pid s =
    if runs_pid pid s
    then ok s.current_process s
    else (find_ready (max_proc + 1) (s.links.next (of_head ready_queue)) pid >>= λ found.
          elim found [ some p ↦ pure (some p) | none ↦ find_blocked_pcb pid ])
        s

-- Steps 2 to 6 of `killProcess`, once the PCB has no children.
unfoldable pub leave_queues : Platform → ℕ → Cmd (Unit {0})
leave_queues u p s =
    if (s.pcb p).sem_add == 0
    then (out_proc_q ready_queue p >>= λ _. pure tt) s
    else (do
      modify (λ s.
          if (s.pcb p).sem_add == device_sem u pseudo_index
          then record s { soft_block_count = decr s.soft_block_count }
          else s)
      out_blocked p >>= λ _. pure tt)
        s

unfoldable pub bury : Platform → ℕ → Cmd (Unit {0})
bury u p = do
  _ ← out_child (some p)
  leave_queues u p
  modify (λ s. record s { process_count = decr s.process_count })
  free_pcb p

-- `killProcess` of a pointer that may be null, by what it does to a PCB.
abbrev pub kill_with : (ℕ → Cmd (Unit {0})) → Option ℕ → Cmd (Unit {0})
kill_with kill none = pure tt
kill_with kill (some c) = kill c

-- The loop of `killProcess` over the children of `p`, by what it does to each.
unfoldable pub kill_children : ℕ → (ℕ → Cmd (Unit {0})) → ℕ → Cmd (Unit {0})
kill_children zero kill p s = out_of_fuel
kill_children (suc rounds) kill p s =
    if empty_child (some p) s
    then ok tt s
    else (do c ← remove_child (some p); kill_with kill c; kill_children rounds kill p) s

-- The recursion is as deep as the tree, which holds at most `max_proc` PCBs, and a PCB has fewer
-- children than that.
unfoldable pub kill : Platform → ℕ → ℕ → Cmd (Unit {0})
kill u zero p = λ s. out_of_fuel
kill u (suc depth) p = do kill_children (max_proc + 1) (kill u depth) p; bury u p

unfoldable pub kill_process : Platform → Option ℕ → Cmd (Unit {0})
kill_process u = kill_with (kill u (max_proc + 1))

unfoldable pub update_time : ℕ → Store → ℕ
update_time pid s = (s.machine.clock + 2 ^ 32 - s.start_time pid) % 2 ^ 32

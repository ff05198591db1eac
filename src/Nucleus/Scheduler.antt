-- ===== src/Nucleus/Scheduler.antt =====
-- phase2/scheduler.c
use Prim.Native.Nat.{bit_or}
use progetto_sistemi_operati.Base.{ℕ, ◌*◌, ◌%◌, ◌^◌, ◌==◌, ltb, ◌&&◌, if◌then◌else◌}
use progetto_sistemi_operati.Memory.{of_head, ready_queue}
use progetto_sistemi_operati.Listx.{list_empty}
use progetto_sistemi_operati.Store.{Cmd, ok, stop, ldst, halt, panic, wait, modify, ◌>>=◌, ◌>>◌}
use progetto_sistemi_operati.Pcb.{remove_proc_q}
use progetto_sistemi_operati.Nucleus.Platform.{
  time_slice, mstatus_mie_mask, on_machine, put_current, current,
}

-- `MIE_ALL & ~MIE_MTIE_MASK`
abbrev pub mie_wait : ℕ
mie_wait = 0xFFFFFFBF

-- The branch of an empty ready queue.
unfoldable pub idle : Cmd (Unit {0})
idle s =
    if s.process_count == 0
    then stop halt s
    else if ltb 0 s.process_count && ltb 0 s.soft_block_count
    then stop wait
        (on_machine (λ m. record m { mie = mie_wait; status = bit_or m.status mstatus_mie_mask }) s)
    else if ltb 0 s.process_count && s.soft_block_count == 0
    then stop panic s
    else ok tt s

-- The first process of the ready queue gets a time slice.
unfoldable pub dispatch : Cmd (Unit {0})
dispatch = do
  p ← remove_proc_q ready_queue
  modify (put_current p)
  modify (on_machine (λ m. record m { timer = (time_slice * m.timescale) % 2 ^ 32 }))
  c ← current
  λ s. stop (ldst (s.pcb c).state) s

unfoldable pub scheduler : Cmd (Unit {0})
scheduler s = if list_empty (of_head ready_queue) s.links then idle s else dispatch s

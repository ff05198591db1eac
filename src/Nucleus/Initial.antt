-- ===== src/Nucleus/Initial.antt =====
-- `main` of phase2/initial.c.
use progetto_sistemi_operati.Base.{ℕ, none, some, ◌==◌, if◌then◌else◌, for_range}
use progetto_sistemi_operati.Memory.{ready_queue}
use progetto_sistemi_operati.Store.{
  Store, Cmd, PassUpVector, stop, panic, modify, ◌>>=◌, ◌>>◌, on_pcb,
}
use progetto_sistemi_operati.Pcb.{init_pcbs, alloc_pcb, mk_empty_proc_q, insert_proc_q}
use progetto_sistemi_operati.Asl.{init_asl}
use progetto_sistemi_operati.Nucleus.Platform.{
  Platform, psecond, ncpu, on_machine, put_word, set_reg, incr, device_sem,
}
use progetto_sistemi_operati.Nucleus.Scheduler.{scheduler}

-- What the linker and the machine settle: where the first process and the two handlers of the
-- pass-up vector start, and the top of RAM that `RAMTOP` reads.
pub record Boot : Type 0 where
  pub entry : ℕ
  pub ram_top : ℕ
  pub tlb_refill : ℕ
  pub handler : ℕ

abbrev pub kernel_stack : ℕ
kernel_stack = 0x20001000

-- The pass-up vector that the BIOS reads at an exception.
abbrev pub pass_up_vector : Boot → PassUpVector
pass_up_vector b = record {
  tlb_refill_handler = b.tlb_refill;
  tlb_refill_stack_ptr = kernel_stack;
  exception_handler = b.handler;
  exception_stack_ptr = kernel_stack;
}

abbrev pub fill_vector : Boot → Store → Store
fill_vector b = on_machine (λ m. record m { vector = pass_up_vector b })

-- The loops over `startTime` and `deviceSemaphore`.
unfoldable pub reset_times : Store → Store
reset_times =
    for_range ncpu 0 (λ c s. record s { start_time = λ k. if c == k then 0 else s.start_time k })

unfoldable pub reset_semaphores : Platform → Store → Store
reset_semaphores u = for_range 49 0 (λ c. put_word (device_sem u c) 0)

unfoldable pub first_process : Platform → Boot → ℕ → Store → Store
first_process u b p = on_pcb p (λ x. record x {
  state =
      set_reg u.reg_sp b.ram_top
        (record x.state { mie = 0xFFFFFFFF; status = 0x1880; pc_epc = b.entry });
})

unfoldable pub main : Platform → Boot → Cmd (Unit {0})
main u b = do
  modify (fill_vector b)
  modify init_pcbs
  modify init_asl
  mk_empty_proc_q ready_queue
  modify reset_times
  modify (reset_semaphores u)
  modify (on_machine (λ m. record m { interval = psecond }))
  new ← alloc_pcb u.gpr_len
  λ s. elim new [
    | none ↦ stop panic s
    | some p ↦
        (do
          modify (λ s. record s { process_count = incr s.process_count })
          modify (first_process u b p)
          insert_proc_q ready_queue p)
          s
  ]
  scheduler

-- ===== src/Nucleus/Boot.antt =====
-- The state in which `main` of phase2/initial.c loads the first process.
use progetto_sistemi_operati.Base.{
  ℕ, ◌<◌, ◌≡◌, ◌≢◌, refl, ◌∙◌, ap, none, some, inl, inr, [], ◌∷◌, arith,
}
use progetto_sistemi_operati.Memory.{Links, Item, p_list, p_child, pcb_free, ready_queue}
use progetto_sistemi_operati.Listx.View.{View, Rings, enter, leave}
use progetto_sistemi_operati.Store.{Store, ok, stop, ldst}
use progetto_sistemi_operati.Pcb.{max_proc, mk_empty_proc_q, alloc_pcb, reset_pcb, insert_proc_q}
use progetto_sistemi_operati.Pcb.Queue.{lists, insert_prio, insert_proc_q-insert_prio}
use progetto_sistemi_operati.Pcb.Free.{
  down, allocated, after_alloc, alloc_pcb-cons, alloc_pcb-Rings,
}
use progetto_sistemi_operati.Asl.View.{Asl}
use progetto_sistemi_operati.Nucleus.Platform.{
  Platform, ncpu, device_sem, psecond, on_machine, incr,
}
use progetto_sistemi_operati.Nucleus.Scheduler.{scheduler}
use progetto_sistemi_operati.Nucleus.Initial.{
  Boot, reset_times, reset_semaphores, first_process, pass_up_vector, fill_vector, main,
}
use progetto_sistemi_operati.Nucleus.Dispatch.{dispatched, scheduler-ready}
use progetto_sistemi_operati.Nucleus.Wakes.{Asl-same}
use progetto_sistemi_operati.Nucleus.Tables.{
  Fresh, tables, tables-Fresh, tables_lem, reset_times_lem, reset_semaphores_lem, Fresh-same,
}

-- The lists and the process behind the first dispatch, from a state `s`: PCB 19 runs and is in no
-- list, the other PCBs and all descriptors are free, and no process is ready or waits.
pub record Runs (u : Platform) (b : Boot) (s t : Store) : Type 0 where
  pub view : View
  pub asl : Asl t view [] (down max_proc)
  pub ready : view.items ready_queue ≡ some []
  pub free : view.items pcb_free ≡ some (lists (down 19))
  pub alone : view.owner (p_list 19) ≡ none
  pub running : t.current_process ≡ some 19
  pub count : t.process_count ≡ incr s.process_count
  pub soft : t.soft_block_count ≡ s.soft_block_count
  pub pid : (t.pcb 19).pid ≡ s.next_pid
  pub times : t.start_time ≡ s.start_time
  pub words : t.machine.word ≡ s.machine.word
  pub interval : t.machine.interval ≡ s.machine.interval
  pub vector : t.machine.vector ≡ s.machine.vector
  pub starts : (t.pcb 19).state.pc_epc ≡ b.entry
  pub stack : (t.pcb 19).state.gpr u.reg_sp ≡ b.ram_top
  pub enabled : ((t.pcb 19).state.status ≡ 0x1880) × ((t.pcb 19).state.mie ≡ 0xFFFFFFFF)

module _ (u : Platform) (b : Boot) (s : Store) (f : Fresh s) where
  childless : (i : Item) → f.view.owner i ≢ some (p_child 19)
  childless i e = elim (f.owners i (p_child 19) e) [ inl q ↦ absurd (cc) | inr q ↦ absurd (cc) ]

  -- The first process, before it joins the ready queue.
  abbrev made : Store
  made =
      let t = after_alloc u.gpr_len s 19 in
      first_process u b 19 (record t { process_count = incr t.process_count })

  made-alloc_pcb : alloc_pcb u.gpr_len s ≡ ok (some 19) (after_alloc u.gpr_len s 19)
  made-alloc_pcb =
      alloc_pcb-cons u.gpr_len s f.view 19 (down 19) f.asl.rings f.free childless (f.no_child 19)

  joined :
      (m : Links) × (insert_proc_q ready_queue 19 made ≡ ok tt (record made { links = m }))
      × Rings m (enter ready_queue (p_list 19) (lists (19 ∷ [])) (allocated 19 (down 19) f.view))
  unfolding first_process insert_prio
  joined =
      insert_proc_q-insert_prio made (allocated 19 (down 19) f.view) ready_queue 19
        (alloc_pcb-Rings u.gpr_len s f.view 19 (down 19) f.asl.rings f.free childless
          (f.no_child 19))
        (ground arith) [] (ground (arith, f.ready)) (omega arith)

  runs :
      (m : Links)
      → Rings m (enter ready_queue (p_list 19) (lists (19 ∷ [])) (allocated 19 (down 19) f.view))
      → (t : Store) × (scheduler (record made { links = m }) ≡ stop (ldst (t.pcb 19).state) t)
        × Runs u b s t
  unfolding reset_pcb first_process
  runs m r =
      let queued =
        enter ready_queue (p_list 19) (lists (19 ∷ [])) (allocated 19 (down 19) f.view) in
      let (run, rings) =
        scheduler-ready (record made { links = m }) queued 19 [] r (ground arith) in
      let t = dispatched 19 (record made { links = m }) in
      let w = leave ready_queue (p_list 19) (lists []) queued in
      let same =
        Asl-same s f.view (record t { pcb = s.pcb }) w refl (λ z. refl) (λ z. ground arith) []
          (down max_proc) (ground arith) (ground arith) rings f.asl in
      (
        t,
        run,
        record {
          view = w;
          asl = record {
            rings = rings;
            active = same.active;
            free = same.free;
            holds = tt;
            unique = tt;
            idle = same.idle;
          };
          ready = ground arith;
          free = ground arith;
          alone = ground arith;
          running = refl;
          count = refl;
          soft = refl;
          pid = ground arith;
          times = refl;
          words = refl;
          interval = refl;
          vector = refl;
          starts = ground arith;
          stack = ground arith;
          enabled = (ground arith, ground arith);
        },
      )

-- What `main` prepares before it takes the first PCB.
abbrev pub settled : Platform → Store → Store
settled u s =
    on_machine (λ m. record m { interval = psecond }) (reset_semaphores u (reset_times (tables s)))

settled-Fresh : (u : Platform) (s : Store) → Fresh (settled u s)
settled-Fresh u s =
    let times = (reset_times_lem (tables s)).0 in
    let sems = (reset_semaphores_lem u (reset_times (tables s))).0 in
    Fresh-same (tables s) (settled u s) (ap (λ x. x.links) sems ∙ ap (λ x. x.links) times)
      (ap (λ x. x.s_key) sems ∙ ap (λ x. x.s_key) times)
      (ap (λ x. x.pcb) sems ∙ ap (λ x. x.pcb) times) (tables-Fresh s)

-- What `main` leaves, from the memory `s`: the process at the entry runs, with the stack at the top
-- of RAM and interrupts enabled, and it is the only one; no semaphore is active, and all values of
-- the devices' semaphores and all times are 0.
pub record Booted (u : Platform) (b : Boot) (s t : Store) : Type 0 where
  pub runs : Runs u b (settled u (fill_vector b s)) t
  pub count : t.process_count ≡ incr s.process_count
  pub soft : t.soft_block_count ≡ s.soft_block_count
  pub pid : (t.pcb 19).pid ≡ s.next_pid
  pub times : (c : ℕ) → c < ncpu → t.start_time c ≡ 0
  pub sems : (k : ℕ) → k < 49 → t.machine.word (device_sem u k) ≡ 0
  pub interval : t.machine.interval ≡ psecond
  pub vector : t.machine.vector ≡ pass_up_vector b

-- Whatever the memory holds, `main` returns from none of its loops short of fuel and never panics:
-- it ends by loading the first process. Then PCB 19 runs at the entry, with its stack at the top of
-- RAM and interrupts enabled; it is in no list, the other 19 PCBs and all 20 descriptors are free,
-- and the ready queue is empty; the number of processes has grown by one, the devices' semaphores
-- and the times are 0, and the pass-up vector names both handlers.
pub main_lem :
    (u : Platform) (b : Boot) (s : Store)
    → (t : Store) × (main u b s ≡ stop (ldst (t.pcb 19).state) t) × Booted u b s t
unfolding main mk_empty_proc_q
main_lem u b s =
    let times = reset_times_lem (tables (fill_vector b s)) in
    let sems = reset_semaphores_lem u (reset_times (tables (fill_vector b s))) in
    let same = tables_lem (fill_vector b s) in
    let f = settled-Fresh u (fill_vector b s) in
    let (m, inserted, rings) = joined u b (settled u (fill_vector b s)) f in
    let (t, scheduled, r) = runs u b (settled u (fill_vector b s)) f m rings in
    (
      t,
      rw (made-alloc_pcb u b (settled u (fill_vector b s)) f, inserted) scheduled,
      record {
        runs = r;
        count =
            r.count
            ∙ ap (λ x. incr x.process_count) sems.0
            ∙ ap (λ x. incr x.process_count) times.0
            ∙ ap (λ x. incr x.process_count) same;
        soft =
            r.soft
            ∙ ap (λ x. x.soft_block_count) sems.0
            ∙ ap (λ x. x.soft_block_count) times.0
            ∙ ap (λ x. x.soft_block_count) same;
        pid =
            r.pid
            ∙ ap (λ x. x.next_pid) sems.0
            ∙ ap (λ x. x.next_pid) times.0
            ∙ ap (λ x. x.next_pid) same;
        times = λ c lt. ap (λ x. x c) (r.times ∙ ap (λ x. x.start_time) sems.0) ∙ times.1 c lt;
        sems = λ k lt. ap (λ x. x (device_sem u k)) r.words ∙ sems.1 k lt;
        interval = r.interval;
        vector =
            r.vector
            ∙ sems.2
            ∙ ap (λ x. x.machine.vector) times.0
            ∙ ap (λ x. x.machine.vector) same;
      },
    )

-- ===== src/Nucleus/Dispatch.antt =====
-- The scheduler of phase2/scheduler.c on each of its branches.
use Prim.Native.Nat.{bit_or}
use progetto_sistemi_operati.Base.{ℕ, ◌*◌, ◌%◌, ◌^◌, ◌<◌, ◌≡◌, some, List, [], ◌∷◌, arith}
use progetto_sistemi_operati.Memory.{p_list, ready_queue}
use progetto_sistemi_operati.Listx.{list_del}
use progetto_sistemi_operati.Listx.View.{View, Rings, leave}
use progetto_sistemi_operati.Listx.Queue.{list_empty-is_nil}
use progetto_sistemi_operati.Store.{Store, stop, ldst, halt, panic, wait, on_links}
use progetto_sistemi_operati.Pcb.{list_of_pcb}
use progetto_sistemi_operati.Pcb.Queue.{lists, remove_proc_q-cons}
use progetto_sistemi_operati.Nucleus.Platform.{
  on_machine, put_current, time_slice, mstatus_mie_mask, current,
}
use progetto_sistemi_operati.Nucleus.Scheduler.{scheduler, idle, dispatch, mie_wait}

-- The state in which the first ready process is loaded.
abbrev pub dispatched : ℕ → Store → Store
dispatched p s =
    on_machine (λ m. record m { timer = (time_slice * m.timescale) % 2 ^ 32 })
      (put_current (some p) (on_links (list_del (list_of_pcb p)) s))

-- With a process ready, the scheduler takes the first one out of the queue, makes it the running
-- process, sets the timer to a time slice and loads the state that the process had saved.
pub scheduler-ready :
    (s : Store) (v : View) (p : ℕ) (ps : List ℕ)
    → Rings s.links v
    → v.items ready_queue ≡ some (lists (p ∷ ps))
    → (scheduler s ≡ stop (ldst (s.pcb p).state) (dispatched p s))
      × Rings (dispatched p s).links (leave ready_queue (p_list p) (lists ps) v)
unfolding scheduler dispatch current
scheduler-ready s v p ps r e =
    let (run, rings) = remove_proc_q-cons s v ready_queue r p ps e in
    (rw (list_empty-is_nil s.links v ready_queue (lists (p ∷ ps)) r e, run), rings)

-- With no process ready it halts the machine if there is no process at all, waits for an interrupt
-- (the local timer masked) if one waits on a device, and stops on a deadlock otherwise.
pub scheduler-idle :
    (s : Store) (v : View)
    → Rings s.links v
    → v.items ready_queue ≡ some []
    → (s.process_count ≡ 0 → scheduler s ≡ stop halt s)
      × (0 < s.process_count
          → 0 < s.soft_block_count
          → scheduler s
            ≡ stop wait (
                on_machine
                  (λ m. record m { mie = mie_wait; status = bit_or m.status mstatus_mie_mask })
                  s))
      × (0 < s.process_count → s.soft_block_count ≡ 0 → scheduler s ≡ stop panic s)
unfolding scheduler idle
scheduler-idle s v r e =
    let none_ready = list_empty-is_nil s.links v ready_queue [] r e in
    (
      λ a. rw none_ready (ground arith),
      λ a b. rw none_ready (ground arith),
      λ a b. rw none_ready (ground arith),
    )

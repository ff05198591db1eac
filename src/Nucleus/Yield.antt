-- ===== src/Nucleus/Yield.antt =====
-- `YIELD` of phase2/exceptions.c over the ready queue.
use progetto_sistemi_operati.Base.{
  if◌then◌else◌, ap, ℕ, ◌≡◌, refl, some, none, List, [], ◌∷◌, ◌++◌, arith,
}
use progetto_sistemi_operati.Memory.{ready_queue, p_list, of_head}
use progetto_sistemi_operati.Listx.{list_add_tail, list_empty}
use progetto_sistemi_operati.Listx.View.{View, Rings, enter}
use progetto_sistemi_operati.Listx.Queue.{list_empty-is_nil, list_add_tail-Rings}
use progetto_sistemi_operati.Store.{Store, Run, ok, ◌>>◌, on_links}
use progetto_sistemi_operati.Pcb.{list_of_pcb, insert_proc_q}
use progetto_sistemi_operati.Pcb.Queue.{lists, insert_prio, insert_proc_q-insert_prio}
use progetto_sistemi_operati.Nucleus.Platform.{Platform, on_state, advance}
use progetto_sistemi_operati.Nucleus.Scheduler.{scheduler}
use progetto_sistemi_operati.Nucleus.Syscalls.{yield}
use progetto_sistemi_operati.Nucleus.Saved.{suspended, save_current-suspended}
use progetto_sistemi_operati.Nucleus.Passeren.{current_lem}

-- `YIELD` from where the process is suspended.
abbrev lines_up : ℕ → Store → Run (Unit {0})
lines_up p =
    (λ s.
      if list_empty (of_head ready_queue) s.links
      then insert_proc_q ready_queue p s
      else ok tt (on_links (list_add_tail (list_of_pcb p) (of_head ready_queue)) s))
    >> scheduler

yield-lines_up :
    (u : Platform) (state : ℕ) (s : Store) (p : ℕ)
    → s.current_process ≡ some p
    → yield u state s ≡ lines_up p (suspended u state p s)
unfolding yield
yield-lines_up u state s p running =
    rw (current_lem (on_state state advance s) p running)
      (ap (lines_up p) (save_current-suspended u state p s))

-- On well-formed lists and a running process that is in no list, `YIELD` saves the process's state
-- behind the call, puts it behind all processes of the ready queue, whatever their priorities, and
-- runs the scheduler with no process running; no other list changes.
pub yield_lem :
    (u : Platform) (state : ℕ) (s : Store) (v : View) (p : ℕ) (ready : List ℕ)
    → Rings s.links v
    → v.items ready_queue ≡ some (lists ready)
    → s.current_process ≡ some p
    → v.owner (p_list p) ≡ none
    → (t : Store) × (yield u state s ≡ scheduler t)
      × (t ≡ record (suspended u state p s) { links = t.links })
      × Rings t.links (enter ready_queue (p_list p) (lists ready ++ p_list p ∷ []) v)
unfolding insert_prio
yield_lem u state s v p [] r queued running free =
    let (m, run, rings) =
      insert_proc_q-insert_prio (suspended u state p s) v ready_queue p r free [] queued
        (omega arith) in
    (
      record (suspended u state p s) { links = m },
      rw
          (
            yield-lines_up u state s p running,
            list_empty-is_nil s.links v ready_queue [] r queued,
            run,
          )
          refl,
      refl,
      rings,
    )
yield_lem u state s v p (q ∷ qs) r queued running free = (
  on_links (list_add_tail (list_of_pcb p) (of_head ready_queue)) (suspended u state p s),
  rw
      (
        yield-lines_up u state s p running,
        list_empty-is_nil s.links v ready_queue (lists (q ∷ qs)) r queued,
      )
      refl,
  refl,
  list_add_tail-Rings s.links v ready_queue (p_list p) (lists (q ∷ qs)) r queued free,
)

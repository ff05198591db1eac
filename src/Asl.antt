-- ===== src/Asl.antt =====
-- phase1/asl.c: the active semaphores, each with its queue of blocked PCBs. A descriptor is its
-- index in `semd_table`; a semaphore's key is its address, and 0 is `NULL`.
pub mod View
pub mod Find
pub mod Frame
pub mod Block
pub mod Leave
pub mod Remove
pub mod Out
pub mod Pid
pub mod Waiting
pub mod Outcome
pub mod Spec
pub mod Init
pub mod Quit
use progetto_sistemi_operati.Base.{
  ℕ, zero, suc, ◌+◌, Bool, true, false, Option, none, some, ◌==◌, if◌then◌else◌, for_range,
}
use progetto_sistemi_operati.Memory.{
  Addr, Head, of_head, of_item, semd_free, semd_active, s_procq, s_link,
}
use progetto_sistemi_operati.Listx.{
  addr_eq, init_list_head, list_add, list_add_tail, list_del, list_empty,
}
use progetto_sistemi_operati.Store.{
  Store, Cmd, ok, fault, out_of_fuel, pure, gets, modify, ◌>>=◌, ◌>>◌, on_links, on_pcb,
  pcb_of_list, semd_of_link,
}
use progetto_sistemi_operati.Pcb.{max_proc, list_of_pcb, remove_proc_q, out_proc_q, head_proc_q}

abbrev pub link_of_semd : ℕ → Addr
link_of_semd d = of_item (s_link d)

abbrev pub put_key : ℕ → ℕ → Store → Store
put_key d k s = record s { s_key = λ c. if d == c then k else s.s_key c }

-- `p->p_semAdd = a`
abbrev pub set_sem_add : ℕ → ℕ → Store → Store
set_sem_add p a = on_pcb p (λ x. record x { sem_add = a })

-- One round of the loop of `initASL`.
unfoldable pub init_semd : ℕ → Store → Store
init_semd c s =
    on_links (init_list_head (of_head (s_procq c)))
      (put_key c 0 (on_links (list_add (link_of_semd c) (of_head semd_free)) s))

unfoldable pub init_asl : Store → Store
init_asl s =
    for_range max_proc 0 init_semd (
      on_links (λ m. init_list_head (of_head semd_active) (init_list_head (of_head semd_free) m)) s)

-- The walk over `semd_h` from `iter` that the functions below share: the first descriptor with the
-- key, if there is one.
unfoldable pub find_semd : ℕ → Addr → ℕ → Cmd (Option ℕ)
find_semd zero iter k s = out_of_fuel
find_semd (suc fuel) iter k s =
    if addr_eq iter (of_head semd_active)
    then ok none s
    else (semd_of_link iter >>= λ d s.
          let rest = find_semd fuel (s.links.next iter) k s in
          if s.s_key d == k then ok (some d) s else rest)
        s

-- `semd_h` holds at most `max_proc` descriptors.
abbrev pub active_semd : ℕ → Cmd (Option ℕ)
active_semd k s = find_semd (max_proc + 1) (s.links.next (of_head semd_active)) k s

unfoldable pub block_on : ℕ → ℕ → ℕ → Cmd (Unit {0})
block_on d k p = do
  modify (on_links (list_add_tail (list_of_pcb p) (of_head (s_procq d))))
  modify (set_sem_add p k)

unfoldable pub open_semd : ℕ → ℕ → Cmd (Unit {0})
open_semd d k = do
  modify (on_links (init_list_head (of_head (s_procq d))))
  modify (put_key d k)
  modify (on_links (list_add (link_of_semd d) (of_head semd_active)))

-- `TRUE` says that no descriptor is left.
unfoldable pub insert_blocked : ℕ → ℕ → Cmd Bool
insert_blocked k p = active_semd k >>= λ found. elim found [
  | some d ↦ do block_on d k p; pure false
  | none ↦ λ s.
      if list_empty (of_head semd_free) s.links
      then ok true s
      else (do
        entry ← gets (λ s. s.links.next (of_head semd_free))
        modify (on_links (list_del entry))
        d ← semd_of_link entry
        open_semd d k
        block_on d k p
        pure false)
          s
]

-- A descriptor whose queue is empty goes back to the free ones.
unfoldable pub close_if_empty : ℕ → Cmd (Unit {0})
close_if_empty d s =
    if list_empty (of_head (s_procq d)) s.links
    then ok tt (
        on_links (λ m. list_add (link_of_semd d) (of_head semd_free) (list_del (link_of_semd d) m))
          s)
    else ok tt s

unfoldable pub forget_sem : Option ℕ → Cmd (Unit {0})
forget_sem none = pure tt
forget_sem (some p) = modify (set_sem_add p 0)

unfoldable pub remove_blocked : ℕ → Cmd (Option ℕ)
remove_blocked k s =
    if list_empty (of_head semd_active) s.links
    then ok none s
    else (active_semd k >>= λ found. elim found [
      | none ↦ pure none
      | some d ↦ do p ← remove_proc_q (s_procq d); close_if_empty d; forget_sem p; pure p
    ])
        s

-- `pout->p_semAdd = NULL` stands before the test of `pout`, so that a null one faults.
unfoldable pub forget_sem_unchecked : Option ℕ → Cmd (Unit {0})
forget_sem_unchecked none = λ _. fault
forget_sem_unchecked (some p) = modify (set_sem_add p 0)

unfoldable pub out_blocked : ℕ → Cmd (Option ℕ)
out_blocked p s =
    if list_empty (of_head semd_active) s.links
    then ok none s
    else (active_semd (s.pcb p).sem_add >>= λ found. elim found [
      | none ↦ pure none
      | some d ↦ do
        out ← out_proc_q (s_procq d) p
        forget_sem_unchecked out
        close_if_empty d
        forget_sem out
        pure out
    ])
        s

unfoldable pub head_blocked : ℕ → Cmd (Option ℕ)
head_blocked k s =
    if list_empty (of_head semd_active) s.links
    then ok none s
    else (active_semd k >>= λ found. elim found [
      | none ↦ pure none
      | some d ↦ head_proc_q (s_procq d)
    ])
        s

-- The inner loop of `findBlockedPcb`: the PCB with the pid, or the end that `iter` has reached.
unfoldable pub find_pid : ℕ → Addr → Addr → ℕ → Cmd (Option ℕ)
find_pid zero iter end pid s = out_of_fuel
find_pid (suc fuel) iter end pid s =
    if addr_eq iter end
    then ok none s
    else (pcb_of_list iter >>= λ i s.
          let rest = find_pid fuel (s.links.next iter) end pid s in
          if (s.pcb i).pid == pid then ok (some i) s else rest)
        s

-- The inner loop runs over the variable `iter` of the outer one and leaves it at the sentinel of
-- the queue, from which the outer loop goes on.
unfoldable pub find_blocked_loop : ℕ → Addr → ℕ → Cmd (Option ℕ)
find_blocked_loop zero iter pid s = out_of_fuel
find_blocked_loop (suc fuel) iter pid s =
    if addr_eq iter (of_head semd_active)
    then ok none s
    else (do
      d ← semd_of_link iter
      let queue = of_head (s_procq d)
      found ← λ s. find_pid (max_proc + 1) (s.links.next queue) queue pid s
      λ s. elim found [
        | some i ↦ ok (some i) s
        | none ↦ find_blocked_loop fuel (s.links.next queue) pid s
      ])
        s

unfoldable pub find_blocked_pcb : ℕ → Cmd (Option ℕ)
find_blocked_pcb pid s = find_blocked_loop (max_proc + 1) (s.links.next (of_head semd_active)) pid s

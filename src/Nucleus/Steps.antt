-- ===== src/Nucleus/Steps.antt =====
-- The steps by which phase2 moves, makes and ends processes, in any order.
use progetto_sistemi_operati.Base.{ℕ, true, ◌≡◌, ◌≢◌, some, none, false}
use progetto_sistemi_operati.Memory.{of_head, ready_queue}
use progetto_sistemi_operati.Listx.{list_add_tail}
use progetto_sistemi_operati.Store.{on_links, Store, ok}
use progetto_sistemi_operati.Pcb.{
  list_of_pcb, alloc_pcb, insert_child, insert_proc_q, remove_proc_q,
}
use progetto_sistemi_operati.Asl.{insert_blocked, remove_blocked}
use progetto_sistemi_operati.Nucleus.Platform.{Platform, put_current, put_word, decr}
use progetto_sistemi_operati.Nucleus.Syscalls.{not_positive}
use progetto_sistemi_operati.Nucleus.Functions.{kill_process}
use progetto_sistemi_operati.Nucleus.Steady.{Quiet}

-- A step between two states of the kernel: code that leaves lists, trees and semaphores of the
-- processes alone; the running process becomes ready again, in its place or behind the others; a
-- ready one runs; the running one blocks on a semaphore, or is suspended without joining a queue,
-- because no descriptor is left for it (`refuses`) or because the semaphore was positive (`misses`); a
-- blocked one becomes ready; a process is made without parent, or as a child of the running one; the
-- running one ends. That a process ends another one is left out.
pub data Step (u : Platform) : Store → Store → Type 0 where
  computes : {s t : Store} → Quiet s t → t.current_process ≡ s.current_process → Step u s t
  readies :
      {s t : Store} {p : ℕ}
      → s.current_process ≡ some p
      → insert_proc_q ready_queue p s ≡ ok tt t
      → Step u s (put_current none t)
  yields :
      {s : Store} {p : ℕ}
      → s.current_process ≡ some p
      → Step u s
          (put_current none (on_links (list_add_tail (list_of_pcb p) (of_head ready_queue)) s))
  refuses :
      {s : Store} {p : ℕ} {key : ℕ}
      → key ≢ 0
      → s.current_process ≡ some p
      → insert_blocked key p s ≡ ok true s
      → Step u s (put_current none s)
  misses :
      {s : Store} {p : ℕ} (key : ℕ)
      → s.current_process ≡ some p
      → not_positive (s.machine.word key) ≡ false
      → Step u s (put_current none (put_word key (decr (s.machine.word key)) s))
  dispatches :
      {s t : Store} {p : ℕ}
      → remove_proc_q ready_queue s ≡ ok (some p) t
      → Step u s (put_current (some p) t)
  blocks :
      {s t : Store} {p : ℕ} {key : ℕ}
      → key ≢ 0
      → s.current_process ≡ some p
      → insert_blocked key p s ≡ ok false t
      → Step u s (put_current none t)
  wakes :
      {s t t1 t2 : Store} {p : ℕ} {key : ℕ}
      → key ≢ 0
      → remove_blocked key s ≡ ok (some p) t
      → Quiet t t1
      → t1.current_process ≡ t.current_process
      → insert_proc_q ready_queue p t1 ≡ ok tt t2
      → Step u s t2
  founds :
      {s t t1 t2 : Store} {p : ℕ}
      → alloc_pcb u.gpr_len s ≡ ok (some p) t
      → Quiet t t1
      → t1.current_process ≡ t.current_process
      → insert_proc_q ready_queue p t1 ≡ ok tt t2
      → Step u s t2
  spawns :
      {s t t1 t2 t3 : Store} {p q : ℕ}
      → s.current_process ≡ some q
      → alloc_pcb u.gpr_len s ≡ ok (some p) t
      → Quiet t t1
      → t1.current_process ≡ t.current_process
      → insert_child (some q) (some p) t1 ≡ ok tt t2
      → insert_proc_q ready_queue p t2 ≡ ok tt t3
      → Step u s t3
  ends :
      {s t : Store} {p : ℕ}
      → s.current_process ≡ some p
      → kill_process u (some p) s ≡ ok tt t
      → Step u s (put_current none t)

pub data Reach (u : Platform) : Store → Store → Type 0 where
  here : {s : Store} → Reach u s s
  then : {s t t' : Store} → Reach u s t → Step u t t' → Reach u s t'

-- ===== src/Asl/Pid.antt =====
-- `findBlockedPcb` of phase1/asl.c: it finds what the first active semaphore holds, and nothing
-- behind it.
use progetto_sistemi_operati.Base.{
  ℕ, zero, suc, ◌+◌, ◌<◌, ◌≤◌, ◌≡◌, ◌≢◌, refl, ◌∙◌, ap, none, some, List, [], ◌∷◌, ◌++◌, arith,
  length, first_of, All,
}
use progetto_sistemi_operati.Memory.{of_head, of_item, p_list, s_link, s_procq, semd_active}
use progetto_sistemi_operati.Listx.View.{View, Rings, addrs}
use progetto_sistemi_operati.Listx.Delete.{next_at}
use progetto_sistemi_operati.Listx.Queue.{next_head}
use progetto_sistemi_operati.Store.{Store, ok, fault, semd_of_link, pcb_of_list}
use progetto_sistemi_operati.Pcb.{max_proc}
use progetto_sistemi_operati.Pcb.Queue.{lists, lists-snoc}
use progetto_sistemi_operati.Asl.{find_pid, find_blocked_loop, find_blocked_pcb}
use progetto_sistemi_operati.Asl.View.{Sem, Asl, descs}

module _ (s : Store) (v : View) (d pid : ℕ) (r : Rings s.links v) where
  find_pid-hit :
      (fuel : ℕ) (seen front : List ℕ) (p : ℕ) (back : List ℕ)
      → v.items (s_procq d) ≡ some (lists seen ++ lists (front ++ p ∷ back))
      → All (λ q. (s.pcb q).pid ≢ pid) front
      → (s.pcb p).pid ≡ pid
      → length front < fuel
      → find_pid fuel
          (first_of (addrs (lists (front ++ p ∷ back))) (of_head (s_procq d)))
          (of_head (s_procq d))
          pid
          s
        ≡ ok (some p) s
  unfolding find_pid pcb_of_list
  find_pid-hit zero seen front p back e others hit fuel = absurd (omega arith)
  find_pid-hit (suc f) seen [] p back e others hit fuel = ground arith
  find_pid-hit (suc f) seen (q ∷ front) p back e others hit fuel = ground (
    arith,
    others.0,
    next_at s.links v (s_procq d) (p_list q) (lists seen) (lists (front ++ p ∷ back)) r e,
    find_pid-hit f (seen ++ q ∷ []) front p back
        (rw (lists-snoc seen q (lists (front ++ p ∷ back))) e) others.1 hit (omega arith),
  )

  find_pid-miss :
      (fuel : ℕ) (seen ps : List ℕ)
      → v.items (s_procq d) ≡ some (lists seen ++ lists ps)
      → All (λ q. (s.pcb q).pid ≢ pid) ps
      → length ps < fuel
      → find_pid fuel
          (first_of (addrs (lists ps)) (of_head (s_procq d)))
          (of_head (s_procq d))
          pid
          s
        ≡ ok none s
  unfolding find_pid pcb_of_list
  find_pid-miss zero seen ps e others fuel = absurd (omega arith)
  find_pid-miss (suc f) seen [] e others fuel = ground arith
  find_pid-miss (suc f) seen (q ∷ ps) e others fuel = ground (
    arith,
    others.0,
    next_at s.links v (s_procq d) (p_list q) (lists seen) (lists ps) r e,
    find_pid-miss f (seen ++ q ∷ []) ps (rw (lists-snoc seen q (lists ps)) e) others.1
        (omega arith),
  )

-- A link of a PCB is no link of a descriptor.
loop-wrong_link :
    (f pid q : ℕ) (s : Store) → find_blocked_loop (suc f) (of_item (p_list q)) pid s ≡ fault
unfolding find_blocked_loop semd_of_link
loop-wrong_link f pid q s = ground arith

module _ (s : Store) (v : View) (d pid : ℕ) (r : Rings s.links v) where
  loop-hit :
      (f : ℕ) (front : List ℕ) (p : ℕ) (back : List ℕ)
      → v.items (s_procq d) ≡ some (lists (front ++ p ∷ back))
      → All (λ q. (s.pcb q).pid ≢ pid) front
      → (s.pcb p).pid ≡ pid
      → length front ≤ max_proc
      → find_blocked_loop (suc f) (of_item (s_link d)) pid s ≡ ok (some p) s
  unfolding find_blocked_loop semd_of_link
  loop-hit f front p back e others hit near = ground (
    arith,
    next_head s.links v (s_procq d) (lists (front ++ p ∷ back)) r e,
    find_pid-hit s v d pid r (max_proc + 1) [] front p back e others hit (omega arith),
  )

  loop-miss :
      (f q : ℕ) (qs : List ℕ)
      → v.items (s_procq d) ≡ some (lists (q ∷ qs))
      → All (λ q. (s.pcb q).pid ≢ pid) (q ∷ qs)
      → length (q ∷ qs) ≤ max_proc
      → find_blocked_loop (suc (suc f)) (of_item (s_link d)) pid s ≡ fault
  unfolding find_blocked_loop semd_of_link
  loop-miss f q qs e others near = ground (
    arith,
    next_head s.links v (s_procq d) (lists (q ∷ qs)) r e,
    find_pid-miss s v d pid r (max_proc + 1) [] (q ∷ qs) e others (omega arith),
    loop-wrong_link f pid q s,
  )

module _ (s : Store) (v : View) (x : Sem) (sems : List Sem) (spare : List ℕ) (pid : ℕ)
    (a : Asl s v (x ∷ sems) spare) where
  -- A PCB in the queue of the first active semaphore is found.
  pub find_blocked_pcb-first :
      (front : List ℕ) (p : ℕ) (back : List ℕ)
      → x.queue ≡ front ++ p ∷ back
      → All (λ q. (s.pcb q).pid ≢ pid) front
      → (s.pcb p).pid ≡ pid
      → length front ≤ max_proc
      → find_blocked_pcb pid s ≡ ok (some p) s
  unfolding find_blocked_pcb
  find_blocked_pcb-first front p back stands others hit near =
      rw (next_head s.links v semd_active (descs (x ∷ sems)) a.rings a.active) (
        loop-hit s v x.desc pid a.rings max_proc front p back
          (a.holds.0.queued ∙ ap (λ l. some (lists l)) stands) others hit near)

  fault_at :
      (queue : List ℕ)
      → x.queue ≡ queue
      → All (λ q. (s.pcb q).pid ≢ pid) queue
      → length queue ≤ max_proc
      → find_blocked_loop (max_proc + 1) (of_item (s_link x.desc)) pid s ≡ fault
  fault_at [] e others near = absurd (a.holds.0.nonempty e)
  fault_at (q ∷ qs) e others near =
      loop-miss s v x.desc pid a.rings 19 q qs (a.holds.0.queued ∙ ap (λ l. some (lists l)) e)
        others near

  -- With a semaphore active, a pid that none of the at most `max_proc` PCBs of the first active
  -- semaphore has makes the search take a PCB's link for a descriptor's, whatever the later
  -- semaphores hold.
  pub find_blocked_pcb-fault :
      All (λ q. (s.pcb q).pid ≢ pid) x.queue
      → length x.queue ≤ max_proc
      → find_blocked_pcb pid s ≡ fault
  unfolding find_blocked_pcb
  find_blocked_pcb-fault others near =
      rw (next_head s.links v semd_active (descs (x ∷ sems)) a.rings a.active)
        (fault_at x.queue refl others near)

loop-end :
    (f pid : ℕ) (s : Store) → find_blocked_loop (suc f) (of_head semd_active) pid s ≡ ok none s
unfolding find_blocked_loop
loop-end f pid s = ground arith

-- With no active semaphore there is no PCB.
pub find_blocked_pcb-none :
    (s : Store) (v : View) (spare : List ℕ) (pid : ℕ)
    → Asl s v [] spare
    → find_blocked_pcb pid s ≡ ok none s
unfolding find_blocked_pcb
find_blocked_pcb-none s v spare pid a =
    rw (next_head s.links v semd_active [] a.rings a.active) (loop-end max_proc pid s)

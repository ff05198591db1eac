-- ===== src/Nucleus/Kernel.antt =====
-- The lists of the kernel as one abstract state: the globals of phase2/initial.c, phase1/pcb.c and
-- phase1/asl.c that hold PCBs and semaphore descriptors.
use progetto_sistemi_operati.Base.{
  ℕ, ◌≤◌, ◌≡◌, ◌≢◌, none, some, ◌⊎◌, inl, inr, sym, ◌∙◌, List, length, In,
}
use progetto_sistemi_operati.Memory.{p_list, p_sib, pcb_free, ready_queue}
use progetto_sistemi_operati.Listx.View.{View}
use progetto_sistemi_operati.Store.{Store}
use progetto_sistemi_operati.Pcb.{max_proc}
use progetto_sistemi_operati.Pcb.Queue.{lists}
use progetto_sistemi_operati.Pcb.Tree.{Tree, child_of}
use progetto_sistemi_operati.Asl.View.{Sem, Asl}
use progetto_sistemi_operati.Asl.Waiting.{waiting}

-- All lists, and those that have names: the active semaphores, the free descriptors, the ready
-- processes and the free PCBs.
pub record Lists : Type 0 where
  pub view : View
  pub sems : List Sem
  pub spare : List ℕ
  pub ready : List ℕ
  pub free : List ℕ

-- The store holds the lists, none of which is longer than the table of PCBs, and a PCB is in the
-- list of children of its parent and in no other.
pub record Kernel (s : Store) (k : Lists) : Type 0 where
  pub asl : Asl s k.view k.sems k.spare
  pub parent : (c : ℕ) → k.view.owner (p_sib c) ≡ child_of (s.pcb c).parent
  pub queued : k.view.items ready_queue ≡ some (lists k.ready)
  pub free : k.view.items pcb_free ≡ some (lists k.free)
  pub few : length k.sems ≤ max_proc
  pub room : length k.ready ≤ max_proc
  pub short : (j : ℕ) → length (waiting j k.sems) ≤ max_proc

pub Kernel-Tree : (s : Store) (k : Lists) → Kernel s k → Tree s k.view
Kernel-Tree s k h = record { rings = h.asl.rings; parent = h.parent }

-- A process is where its semaphore says: in the queue of the semaphore, or, without one, ready or in
-- no queue.
abbrev pub Placed : Store → Lists → ℕ → Type 0
Placed s k p =
    (((s.pcb p).sem_add ≡ 0)
      × ((k.view.owner (p_list p) ≡ none) ⊎ (k.view.owner (p_list p) ≡ some ready_queue)))
    ⊎ (((s.pcb p).sem_add ≢ 0) × In p (waiting (s.pcb p).sem_add k.sems))

-- A process stays where it is if its semaphore and the queues that it is in stay.
pub Placed-same :
    (s : Store) (k : Lists) (t : Store) (l : Lists) (z : ℕ)
    → (t.pcb z).sem_add ≡ (s.pcb z).sem_add
    → l.view.owner (p_list z) ≡ k.view.owner (p_list z)
    → ((s.pcb z).sem_add ≢ 0
        → In z (waiting (s.pcb z).sem_add k.sems)
        → In z (waiting (s.pcb z).sem_add l.sems))
    → Placed s k z
    → Placed t l z
Placed-same s k t l z same owner queue (inl (awake, at)) = inl (same ∙ awake, rw owner at)
Placed-same s k t l z same owner queue (inr (blocked, stands)) =
    inr ((λ e. blocked (sym same ∙ e)), rw same (queue blocked stands))

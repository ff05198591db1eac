-- ===== src/Asl/Outcome.antt =====
-- What `insertBlocked` and `removeBlocked` of phase1/asl.c leave, by the queues of the keys.
use progetto_sistemi_operati.Base.{
  ℕ, ◌≤◌, ◌≡◌, ◌≢◌, true, false, none, some, ◌⊎◌, List, [], ◌∷◌, ◌++◌, length, In, NotIn,
}
use progetto_sistemi_operati.Memory.{Head, p_list, p_sib, s_link, s_procq, semd_free, semd_active}
use progetto_sistemi_operati.Listx.View.{View}
use progetto_sistemi_operati.Store.{Store, Pcb, ok}
use progetto_sistemi_operati.Asl.{insert_blocked, remove_blocked}
use progetto_sistemi_operati.Asl.Waiting.{waiting, oldest, others}
use progetto_sistemi_operati.Asl.View.{Sem, Asl}

-- A PCB apart from the semaphore that it names.
abbrev pub no_sem : Pcb → Pcb
no_sem x = record x { sem_add = 0 }

-- The descriptor `d` is active or free.
abbrev pub Slot : View → ℕ → Type 0
Slot v d = (v.owner (s_link d) ≡ some semd_active) ⊎ (v.owner (s_link d) ≡ some semd_free)

-- The state behind an operation on the key `k`: its queue has become `q`, the other queues are as
-- they were, and so is all that is not the semaphores' own. A PCB that has left the queue names no
-- semaphore.
pub record Became (s : Store) (v : View) (k : ℕ) (q : List ℕ) (sems : List Sem) (t : Store)
    : Type 0 where
  pub view : View
  pub sems' : List Sem
  pub spare' : List ℕ
  pub asl : Asl t view sems' spare'
  pub queue : waiting k sems' ≡ q
  pub same : (j : ℕ) → j ≢ k → waiting j sems' ≡ waiting j sems
  pub lists :
      (h : Head)
      → h ≢ semd_free
      → h ≢ semd_active
      → ((d : ℕ) → h ≢ s_procq d)
      → view.items h ≡ v.items h
  pub siblings : (z : ℕ) → view.owner (p_sib z) ≡ v.owner (p_sib z)
  pub owners :
      (z : ℕ) → NotIn z q → NotIn z (waiting k sems) → view.owner (p_list z) ≡ v.owner (p_list z)
  pub descriptors :
      (d : ℕ) (h : Head)
      → view.owner (s_link d) ≡ some h
      → (h' : Head) × (v.owner (s_link d) ≡ some h')
  pub slots : (d : ℕ) → Slot v d → Slot view d
  pub apart : (z : ℕ) → NotIn z q → NotIn z (waiting k sems) → t.pcb z ≡ s.pcb z
  pub left : (z : ℕ) → NotIn z q → In z (waiting k sems) → (t.pcb z).sem_add ≡ 0
  pub pcbs : (z : ℕ) → no_sem (t.pcb z) ≡ no_sem (s.pcb z)
  pub globals : t ≡ record s { links = t.links; s_key = t.s_key; pcb = t.pcb }

-- The oldest PCB of a key's queue, which was `q`, has been taken, and is in no list; no semaphore has
-- become active.
abbrev pub Taken : Store → View → ℕ → List ℕ → List Sem → Type 0
Taken s v k q sems =
    (t : Store) × (remove_blocked k s ≡ ok (oldest q) t)
    × (b : Became s v k (others q) sems t) × ((p : ℕ)
        → oldest q ≡ some p
        → b.view.owner (p_list p) ≡ none)
    × (length b.sems' ≤ length sems)

abbrev pub Removed : Store → View → ℕ → List Sem → Type 0
Removed s v k sems = Taken s v k (waiting k sems) sems

-- The PCB has joined the end of a key's queue; or no descriptor is left for a key on which none
-- waits.
abbrev pub Inserted : Store → View → ℕ → ℕ → List Sem → List ℕ → Type 0
Inserted s v k p sems spare =
    ((t : Store) × (insert_blocked k p s ≡ ok false t)
      × Became s v k (waiting k sems ++ p ∷ []) sems t)
    ⊎ ((insert_blocked k p s ≡ ok true s) × (spare ≡ []) × (waiting k sems ≡ []))

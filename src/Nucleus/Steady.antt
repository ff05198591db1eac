-- ===== src/Nucleus/Steady.antt =====
-- What holds of the lists of the kernel between any two operations on them: every PCB and every
-- descriptor has its place.
use progetto_sistemi_operati.Asl.Outcome.{Slot}
use progetto_sistemi_operati.Base.{
  ℕ, ◌≤◌, ◌<◌, ◌≡◌, ◌≢◌, refl, sym, ◌∙◌, ap, subst, none, some, ◌⊎◌, inl, inr, List, [], ◌∷◌, arith,
  length, All, NotIn, Distinct, Bool-cases, ◌==◌,
}
use progetto_sistemi_operati.Memory.{
  Head, Item, p_list, p_sib, p_child, s_link, s_procq, pcb_free, ready_queue, semd_active,
}
use progetto_sistemi_operati.Listx.View.{View, Rings}
use progetto_sistemi_operati.Listx.Removal.{length-le_bound}
use progetto_sistemi_operati.Store.{Store}
use progetto_sistemi_operati.Pcb.{max_proc}
use progetto_sistemi_operati.Pcb.Queue.{lists}
use progetto_sistemi_operati.Pcb.Tree.{child_of}
use progetto_sistemi_operati.Asl.View.{Sem, Asl, HoldsSem, descs}
use progetto_sistemi_operati.Asl.Waiting.{waiting}
use progetto_sistemi_operati.Nucleus.Wakes.{Asl-same}
use progetto_sistemi_operati.Nucleus.Kernel.{Lists, Kernel, Placed, Placed-same}

-- The store holds the lists; only PCBs and descriptors of the tables are in lists; each descriptor
-- is active or free; each PCB is free, or it is where its semaphore says; a PCB in use has a list of children, and a free one has
-- neither parent nor children and names no semaphore.
pub record Steady (s : Store) (k : Lists) : Type 0 where
  pub asl : Asl s k.view k.sems k.spare
  pub parent : (c : ℕ) → k.view.owner (p_sib c) ≡ child_of (s.pcb c).parent
  pub queued : k.view.items ready_queue ≡ some (lists k.ready)
  pub free : k.view.items pcb_free ≡ some (lists k.free)
  pub pcbs : (p : ℕ) (h : Head) → k.view.owner (p_list p) ≡ some h → p < max_proc
  pub semds : (d : ℕ) (h : Head) → k.view.owner (s_link d) ≡ some h → d < max_proc
  pub slots : (d : ℕ) → d < max_proc → Slot k.view d
  pub placed : (p : ℕ) → p < max_proc → (k.view.owner (p_list p) ≡ some pcb_free) ⊎ Placed s k p
  pub orphan :
      (p : ℕ)
      → k.view.owner (p_list p) ≡ some pcb_free
      → ((s.pcb p).parent ≡ none) × ((s.pcb p).sem_add ≡ 0)
  pub kids :
      (p : ℕ)
      → p < max_proc
      → k.view.owner (p_list p) ≢ some pcb_free
      → (xs : List Item) × (k.view.items (p_child p) ≡ some xs)
  pub childless :
      (p : ℕ)
      → k.view.owner (p_list p) ≡ some pcb_free
      → (i : Item) → k.view.owner i ≢ some (p_child p)

-- The queues hold at most `max_proc` PCBs.
module _ (v : View) (numbered : (p : ℕ) (h : Head) → v.owner (p_list p) ≡ some h → p < max_proc)
    (h : Head) where
  all_below : (ps : List ℕ) → All (λ i. v.owner i ≡ some h) (lists ps) → All (λ p. p < max_proc) ps
  all_below [] a = tt
  all_below (p ∷ ps) a = (numbered p h a.0, all_below ps a.1)

  Distinct-pcbs : (ps : List ℕ) → Distinct (lists ps) → Distinct ps
  Distinct-pcbs [] d = tt
  Distinct-pcbs (p ∷ ps) d = (apart ps d.0, Distinct-pcbs ps d.1)
    where
      apart : (qs : List ℕ) → NotIn (p_list p) (lists qs) → NotIn p qs
      apart [] n = tt
      apart (q ∷ qs) n = ((λ e. n.0 (ap p_list e)), apart qs n.1)

  pub length-le_max :
      (s : Store) (ps : List ℕ)
      → Rings s.links v
      → v.items h ≡ some (lists ps)
      → length ps ≤ max_proc
  length-le_max s ps r e =
      length-le_bound max_proc ps (Distinct-pcbs ps (r.distinct h (lists ps) e))
        (all_below ps (r.owned h (lists ps) e))

module _ (s : Store) (k : Lists) (h : Steady s k) where
  few : length k.sems ≤ max_proc
  few =
      let short =
        length-le_bound max_proc (numbers k.sems)
          (distinct_descs k.sems (h.asl.rings.distinct _ _ h.asl.active))
          (below k.sems (h.asl.rings.owned _ _ h.asl.active)) in
      omega (arith, short, length-numbers k.sems)
    where
      numbers : List Sem → List ℕ
      numbers [] = []
      numbers (x ∷ xs) = x.desc ∷ numbers xs

      length-numbers : (xs : List Sem) → length (numbers xs) ≡ length xs
      length-numbers [] = refl
      length-numbers (x ∷ xs) = omega (arith, length-numbers xs)

      apart : (d : ℕ) (xs : List Sem) → NotIn (s_link d) (descs xs) → NotIn d (numbers xs)
      apart d [] n = tt
      apart d (x ∷ xs) n = ((λ e. n.0 (ap s_link e)), apart d xs n.1)

      distinct_descs : (xs : List Sem) → Distinct (descs xs) → Distinct (numbers xs)
      distinct_descs [] d = tt
      distinct_descs (x ∷ xs) d = (apart x.desc xs d.0, distinct_descs xs d.1)

      below :
          (xs : List Sem)
          → All (λ i. k.view.owner i ≡ some semd_active) (descs xs)
          → All (λ d. d < max_proc) (numbers xs)
      below [] a = tt
      below (x ∷ xs) a = (h.semds x.desc semd_active a.0, below xs a.1)

  short : (j : ℕ) (xs : List Sem) → All (HoldsSem s k.view) xs → length (waiting j xs) ≤ max_proc
  unfolding waiting
  short j [] a = omega arith
  short j (x ∷ xs) a = elim (Bool-cases (x.key == j)) [
    | inl same ↦
        rw same (length-le_max k.view h.pcbs (s_procq x.desc) s x.queue h.asl.rings a.0.queued)
    | inr differ ↦ rw differ (short j xs a.1)
  ]

  -- No list is longer than its table.
  pub Steady-Kernel : Kernel s k
  Steady-Kernel = record {
    asl = h.asl;
    parent = h.parent;
    queued = h.queued;
    free = h.free;
    few = few;
    room = length-le_max k.view h.pcbs ready_queue s k.ready h.asl.rings h.queued;
    short = λ j. short j k.sems h.asl.holds;
  }

-- A change that leaves the lists, the semaphores of the PCBs and their parents alone.
pub record Quiet (s t : Store) : Type 0 where
  pub links : t.links ≡ s.links
  pub keys : t.s_key ≡ s.s_key
  pub sem_add : (p : ℕ) → (t.pcb p).sem_add ≡ (s.pcb p).sem_add
  pub parent : (p : ℕ) → (t.pcb p).parent ≡ (s.pcb p).parent

pub Quiet-Steady : (s t : Store) (k : Lists) → Quiet s t → Steady s k → Steady t k
Quiet-Steady s t k q h = record {
  asl =
      Asl-same s k.view t k.view q.keys q.sem_add (λ z. refl) k.sems k.spare refl refl
        (subst (λ l. Rings l k.view) (sym q.links) h.asl.rings) h.asl;
  parent = λ c. h.parent c ∙ ap child_of (sym (q.parent c));
  queued = h.queued;
  free = h.free;
  pcbs = h.pcbs;
  semds = h.semds;
  slots = h.slots;
  placed = λ p lt. elim (h.placed p lt) [
    | inl free ↦ inl free
    | inr at ↦ inr (Placed-same s k t k p (q.sem_add p) refl (λ b i. i) at)
  ];
  orphan = λ p free. (q.parent p ∙ (h.orphan p free).0, q.sem_add p ∙ (h.orphan p free).1);
  kids = h.kids;
  childless = h.childless;
}

-- An operation on the queues of processes leaves the children of each, the free PCBs, the parents and
-- the running process alone.
pub record Still (s : Store) (k : Lists) (t : Store) (l : Lists) : Type 0 where
  pub children : (z : ℕ) → l.view.items (p_child z) ≡ k.view.items (p_child z)
  pub unused : l.view.items pcb_free ≡ k.view.items pcb_free
  pub parents : (z : ℕ) → (t.pcb z).parent ≡ (s.pcb z).parent
  pub current : t.current_process ≡ s.current_process

-- ===== src/Pcb/Free.antt =====
-- The list of free PCBs: `initPcbs`, `allocPcb`, `freePcb` of phase1/pcb.c.
use progetto_sistemi_operati.Base.{
  ℕ, zero, suc, ◌+◌, ◌%◌, ◌^◌, ◌<◌, ◌≤◌, ◌≡◌, ◌≢◌, refl, none, some, List, [], ◌∷◌, arith, ◌==◌,
  if◌then◌else◌, for_range_inv,
}
use native.Mathlib.Numerals.{add-one}
use progetto_sistemi_operati.Memory.{Head, Item, of_head, p_list, p_sib, p_child, pcb_free}
use progetto_sistemi_operati.Listx.{list_del, list_add, init_list_head}
use progetto_sistemi_operati.Listx.View.{View, Rings, enter, leave}
use progetto_sistemi_operati.Listx.Delete.{list_del-Rings}
use progetto_sistemi_operati.Listx.Init.{create, init_head-Rings, init_item-Rings}
use progetto_sistemi_operati.Listx.Queue.{list_empty-is_nil, next_head, list_add-Rings}
use progetto_sistemi_operati.Store.{Store, ok, on_links, pcb_of_list}
use progetto_sistemi_operati.Pcb.{
  max_proc, list_of_pcb, init_pcbs, free_pcb, clear_gpr, reset_pcb, alloc_pcb,
}
use progetto_sistemi_operati.Pcb.Queue.{lists}

-- The registers below the bound become 0, the others keep their values.
pub clear_gpr_lem :
    (n : ℕ) (g : ℕ → ℕ) (k : ℕ) → (k < n → clear_gpr n g k ≡ 0) × (n ≤ k → clear_gpr n g k ≡ g k)
unfolding clear_gpr
clear_gpr_lem n g k =
    for_range_inv (λ i (f : ℕ → ℕ). (k < i → f k ≡ 0) × (i ≤ k → f k ≡ g k))
      (λ c f j. if c == j then 0 else f j) (λ i f h. ground (arith, h.0, h.1)) n 0 n g (omega arith)
      (λ lt. absurd (omega arith), λ le. refl)

-- The indices below `n`, the largest first.
abbrev pub down : ℕ → List ℕ
down zero = []
down (suc n) = n ∷ down n

-- The view while `initPcbs` has added the first `i` PCBs to those of `v`.
pub record Filled (v : View) (i : ℕ) (s : Store) : Type 0 where
  pub view : View
  pub rings : Rings s.links view
  pub free : view.items pcb_free ≡ some (lists (down i))
  pub others : (h : Head) → h ≢ pcb_free → view.items h ≡ v.items h
  pub rest : (c : ℕ) → i ≤ c → view.owner (p_list c) ≡ none
  pub members : (c : ℕ) (h : Head) → view.owner (p_list c) ≡ some h → h ≡ pcb_free
  pub alike : (j : Item) → ((c : ℕ) → j ≢ p_list c) → view.owner j ≡ v.owner j

Filled-step :
    (v : View) (i : ℕ) (s : Store)
    → Filled v i s
    → Filled v (i + 1) (on_links (list_add (list_of_pcb i) (of_head pcb_free)) s)
Filled-step v i s f = record {
  view = enter pcb_free (p_list i) (lists (down (suc i))) f.view;
  rings =
      list_add-Rings s.links f.view pcb_free (p_list i) (lists (down i)) f.rings f.free
        (f.rest i (omega arith));
  free = rw (add-one i) (ground arith);
  others = λ h ne. ground (arith, f.others h ne);
  rest = λ c le. ground (arith, f.rest c (omega arith));
  members = λ c h o. ground (arith, f.members c h);
  alike = λ j ne. ground (arith, f.alike j ne, ne i);
}

-- Over well-formed lists in which no item is in the free list and no PCB is in any list, `initPcbs`
-- leaves the free list with exactly the PCBs 19 to 0, the largest first; the other lists and the
-- owners of all items that are not PCBs' queue links stay.
pub init_pcbs-Filled :
    (s : Store) (v : View)
    → Rings s.links v
    → ((j : Item) → v.owner j ≢ some pcb_free)
    → ((c : ℕ) → v.owner (p_list c) ≡ none)
    → Filled v max_proc (init_pcbs s)
unfolding init_pcbs
init_pcbs-Filled s v r none_free unlisted =
    for_range_inv (Filled v) (λ c. on_links (list_add (list_of_pcb c) (of_head pcb_free)))
      (Filled-step v) max_proc 0 max_proc (on_links (init_list_head (of_head pcb_free)) s)
      (omega arith)
      (record {
        view = create pcb_free v;
        rings = init_head-Rings s.links v pcb_free r none_free;
        free = ground arith;
        others = λ h ne. ground arith;
        rest = λ c le. unlisted c;
        members = λ c h o. absurd (ground (arith, unlisted c));
        alike = λ j ne. refl;
      })

-- `freePcb` puts a PCB that is in no list in front of the free ones.
pub free_pcb_lem :
    (s : Store) (v : View) (p : ℕ) (xs : List Item)
    → Rings s.links v
    → v.items pcb_free ≡ some xs
    → v.owner (p_list p) ≡ none
    → (free_pcb p s ≡ ok tt (on_links (list_add (list_of_pcb p) (of_head pcb_free)) s))
      × Rings
          (list_add (list_of_pcb p) (of_head pcb_free) s.links)
          (enter pcb_free (p_list p) (p_list p ∷ xs) v)
unfolding free_pcb
free_pcb_lem s v p xs r e free = (refl, list_add-Rings s.links v pcb_free (p_list p) xs r e free)

-- With no free PCB `allocPcb` returns null and changes nothing.
pub alloc_pcb-nil :
    (gpr_len : ℕ) (s : Store) (v : View)
    → Rings s.links v
    → v.items pcb_free ≡ some []
    → alloc_pcb gpr_len s ≡ ok none s
unfolding alloc_pcb
alloc_pcb-nil gpr_len s v r e = rw (list_empty-is_nil s.links v pcb_free [] r e)

-- The view behind `allocPcb`: the PCB is in no list, and it has an empty list of children.
abbrev pub allocated : ℕ → List ℕ → View → View
allocated p ps v = create (p_child p) (leave pcb_free (p_list p) (lists ps) v)

-- The state behind `allocPcb`.
abbrev pub after_alloc : ℕ → Store → ℕ → Store
after_alloc gpr_len s p = reset_pcb gpr_len p (on_links (list_del (list_of_pcb p)) s)

module _ (gpr_len : ℕ) (s : Store) (v : View) (p : ℕ) (ps : List ℕ) (r : Rings s.links v)
    (e : v.items pcb_free ≡ some (lists (p ∷ ps)))
    (childless : (i : Item) → v.owner i ≢ some (p_child p))
    (no_sib : v.owner (p_sib p) ≡ none) where
  pub alloc_pcb-cons : alloc_pcb gpr_len s ≡ ok (some p) (after_alloc gpr_len s p)
  unfolding alloc_pcb pcb_of_list
  alloc_pcb-cons = rw (
    list_empty-is_nil s.links v pcb_free (lists (p ∷ ps)) r e,
    next_head s.links v pcb_free (lists (p ∷ ps)) r e,
  )

  -- Behind `allocPcb`, which has taken the first free PCB (it had no children list in use and was no
  -- child), the lists are well formed: that PCB is in no list, the rest of the free list keeps its
  -- order, and the new process has an empty list of children.
  pub alloc_pcb-Rings : Rings (after_alloc gpr_len s p).links (allocated p ps v)
  unfolding reset_pcb
  alloc_pcb-Rings =
      init_item-Rings _ _ (p_sib p)
        (init_head-Rings _ _ (p_child p)
          (list_del-Rings s.links v pcb_free (p_list p) [] (lists ps) r e)
          (λ i o. childless i (ground arith)))
        (ground arith)

-- The new PCB has a pid of its own, no parent, no semaphore, no support structure, time and
-- priority 0 and a state of zeros; every other PCB is as before.
pub after_alloc-pcb :
    (gpr_len : ℕ) (s : Store) (p : ℕ)
    → let t = after_alloc gpr_len s p in
      let x = t.pcb p in
      (x.pid ≡ s.next_pid)
      × (t.next_pid ≡ (s.next_pid + 1) % 2 ^ 32)
      × (x.parent ≡ none)
      × (x.sem_add ≡ 0)
      × (x.support_struct ≡ 0)
      × (x.time ≡ 0)
      × (x.prio ≡ 0)
      × ((k : ℕ) → k < gpr_len → x.state.gpr k ≡ 0)
      × ((q : ℕ) → q ≢ p → t.pcb q ≡ s.pcb q)
unfolding reset_pcb
after_alloc-pcb gpr_len s p = (
  ground arith,
  refl,
  ground arith,
  ground arith,
  ground arith,
  ground arith,
  ground arith,
  λ k lt. ground (arith, (clear_gpr_lem gpr_len (s.pcb p).state.gpr k).0 lt),
  λ q ne. ground arith,
)

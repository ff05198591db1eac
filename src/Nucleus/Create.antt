-- ===== src/Nucleus/Create.antt =====
-- `CREATEPROCESS` of phase2/exceptions.c.
use progetto_sistemi_operati.Base.{
  ℕ, ◌+◌, ◌%◌, ◌^◌, ◌≤◌, ◌≡◌, ◌≢◌, refl, sym, none, some, List, [], ◌∷◌, arith, length, subst,
  ==_refl,
}
use progetto_sistemi_operati.Memory.{Links, Item, p_list, p_sib, p_child, pcb_free, ready_queue}
use progetto_sistemi_operati.Listx.View.{View, enter}
use progetto_sistemi_operati.Store.{Store, ok, on_pcb}
use progetto_sistemi_operati.Pcb.{max_proc, reset_pcb, clear_state, insert_child, insert_proc_q}
use progetto_sistemi_operati.Pcb.Queue.{lists, prio_in, insert_prio, insert_proc_q-insert_prio}
use progetto_sistemi_operati.Pcb.Free.{allocated, after_alloc, alloc_pcb-cons, alloc_pcb-Rings}
use progetto_sistemi_operati.Pcb.Tree.{Tree, sibs, adopted, insert_child-Tree}
use progetto_sistemi_operati.Nucleus.Platform.{Platform, incr}
use progetto_sistemi_operati.Nucleus.Functions.{copy_state}
use progetto_sistemi_operati.Nucleus.Saved.{Copied, copy_state-Copied}
use progetto_sistemi_operati.Nucleus.Syscalls.{arg, answer, resume, create_process}

-- The process `p` has been created by `q`: it is the first child of `q`, has no child itself, is
-- ready at the place of its priority, and bears the next pid, which the caller gets in a0.
pub record Created (u : Platform) (state : ℕ) (s : Store) (p q : ℕ) (ps cs ready : List ℕ)
    (t : Store) : Type 0 where
  pub view : View
  pub tree : Tree t view
  pub free : view.items pcb_free ≡ some (lists ps)
  pub children : view.items (p_child q) ≡ some (sibs (p ∷ cs))
  pub childless : view.items (p_child p) ≡ some []
  pub queued : view.items ready_queue ≡ some (lists (insert_prio (prio_in t) p ready))
  pub pid : (t.pcb p).pid ≡ s.next_pid
  pub parent : (t.pcb p).parent ≡ some q
  pub prio : (t.pcb p).prio ≡ arg state u.reg_a2 s
  pub support : (t.pcb p).support_struct ≡ arg state u.reg_a3 s
  pub starts :
      Copied u.gpr_len
        (t.pcb p).state
        ((answer u state s.next_pid s).machine.state_at (arg state u.reg_a1 s))
  pub others : (z : ℕ) → z ≢ p → t.pcb z ≡ s.pcb z
  pub told : arg state u.reg_a0 t ≡ s.next_pid
  pub next : t.next_pid ≡ (s.next_pid + 1) % 2 ^ 32
  pub count : t.process_count ≡ incr s.process_count
  pub running : t.current_process ≡ s.current_process

module _ (u : Platform) (state : ℕ) (s : Store) (v : View) (p q : ℕ) (ps cs ready : List ℕ)
    (tree : Tree s v) (e : v.items pcb_free ≡ some (lists (p ∷ ps)))
    (no_child : (i : Item) → v.owner i ≢ some (p_child p)) (orphan : (s.pcb p).parent ≡ none)
    (running : s.current_process ≡ some q) (other : q ≢ p)
    (children : v.items (p_child q) ≡ some (sibs cs))
    (queued : v.items ready_queue ≡ some (lists ready)) (room : length ready ≤ max_proc)
    (a1 : u.reg_a0 ≢ u.reg_a1) (a2 : u.reg_a0 ≢ u.reg_a2) (a3 : u.reg_a0 ≢ u.reg_a3) where
  no_sib : v.owner (p_sib p) ≡ none
  no_sib = ground (arith, tree.parent p, orphan)

  -- The new process before it becomes a child.
  abbrev filled : Store
  filled =
      let t = answer u state ((after_alloc u.gpr_len s p).pcb p).pid (after_alloc u.gpr_len s p) in
      on_pcb p
        (λ x. record x {
          state = copy_state u.gpr_len x.state (t.machine.state_at (arg state u.reg_a1 t));
          prio = arg state u.reg_a2 t;
          support_struct = arg state u.reg_a3 t;
        })
        t

  filled-Tree : Tree filled (allocated p ps v)
  unfolding reset_pcb
  filled-Tree = record {
    rings = alloc_pcb-Rings u.gpr_len s v p ps tree.rings e no_child no_sib;
    parent = λ c. ground (arith, tree.parent c, no_sib);
  }

  child :
      (insert_child (some q) (some p) filled ≡ ok tt (adopted q p filled))
      × Tree (adopted q p filled) (enter (p_child q) (p_sib p) (sibs (p ∷ cs)) (allocated p ps v))
  unfolding reset_pcb
  child =
      insert_child-Tree filled (allocated p ps v) filled-Tree q p cs
        (ground (arith, children, other)) (ground arith)

  adopts : insert_child s.current_process (some p) filled ≡ ok tt (adopted q p filled)
  adopts =
      subst (λ c. insert_child c (some p) filled ≡ ok tt (adopted q p filled)) (sym running) child.0

  abbrev finished : Links → Store
  finished m = record (adopted q p filled) { links = m; process_count = incr s.process_count }

  a1_kept : arg state u.reg_a1 (answer u state s.next_pid s) ≡ arg state u.reg_a1 s
  a1_kept = ground (arith, a1)

  filled-Copied :
      Copied u.gpr_len
        ((adopted q p filled).pcb p).state
        ((answer u state s.next_pid s).machine.state_at (arg state u.reg_a1 s))
  unfolding reset_pcb
  filled-Copied = rw (==_refl p) (
      subst
        (λ a.
          Copied u.gpr_len
            (copy_state u.gpr_len (clear_state u.gpr_len (s.pcb p).state)
              ((answer u state s.next_pid s).machine.state_at a))
            ((answer u state s.next_pid s).machine.state_at (arg state u.reg_a1 s)))
        (sym a1_kept) (copy_state-Copied u.gpr_len _ _))

  runs :
      (m : Links)
      → insert_proc_q ready_queue p (adopted q p filled)
        ≡ ok tt (record (adopted q p filled) { links = m })
      → create_process u state s ≡ resume state (finished m)
  unfolding create_process reset_pcb
  runs m inserted =
      let alloc = alloc_pcb-cons u.gpr_len s v p ps tree.rings e no_child no_sib in
      rw (alloc, adopts, inserted) refl

  -- On a well-formed process tree, with a free PCB that has neither parent nor children and at most
  -- `max_proc` processes ready, `CREATEPROCESS` takes the first free PCB, which becomes the first
  -- child of the caller and joins the ready queue at the place of the priority in a2, with the
  -- support structure in a3 and all of the state at the address in a1, its first `gpr_len` registers
  -- included, as it is once a0 of the caller holds the pid. The caller gets the new pid and goes
  -- on; the tree and all lists stay well formed, and no other PCB changes.
  pub create_process_lem :
      (t : Store) × (create_process u state s ≡ resume state t)
      × Created u state s p q ps cs ready t
  unfolding reset_pcb
  create_process_lem =
      let view = enter (p_child q) (p_sib p) (sibs (p ∷ cs)) (allocated p ps v) in
      let (m, inserted, rings) =
        insert_proc_q-insert_prio (adopted q p filled) view ready_queue p child.1.rings
          (ground arith) ready (ground (arith, queued)) room in
      let t = finished m in
      (
        t,
        runs m inserted,
        record {
          view = enter ready_queue (p_list p) (lists (insert_prio (prio_in t) p ready)) view;
          tree = record { rings = rings; parent = λ c. ground (arith, child.1.parent c) };
          free = ground arith;
          children = ground arith;
          childless = ground (arith, other);
          queued = ground arith;
          pid = ground arith;
          parent = ground arith;
          prio = ground (arith, a2);
          support = ground (arith, a3);
          starts = filled-Copied;
          others = λ z ne. ground (arith, ne);
          told = ground arith;
          next = refl;
          count = refl;
          running = refl;
        },
      )

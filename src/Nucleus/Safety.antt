-- ===== src/Nucleus/Safety.antt =====
-- What holds in every state that the steps of phase2 reach from the tables that `main` of
-- phase2/initial.c prepares.
use progetto_sistemi_operati.Base.{
  ℕ, zero, suc, ◌<◌, ◌≡◌, ◌≢◌, refl, sym, ◌∙◌, ap, subst, Option, some, none, ◌⊎◌, inl, inr, List,
  [], ◌∷◌, arith, In, Bool, true, false,
}
use progetto_sistemi_operati.Memory.{Item, p_list, s_link, ready_queue, pcb_free, semd_free}
use progetto_sistemi_operati.Listx.Removal.{All-at}
use progetto_sistemi_operati.Listx.Counts.{count-nil}
use progetto_sistemi_operati.Store.{Store, ok}
use progetto_sistemi_operati.Pcb.{max_proc, alloc_pcb, insert_proc_q, remove_proc_q}
use progetto_sistemi_operati.Pcb.Queue.{lists, remove_proc_q-nil}
use progetto_sistemi_operati.Pcb.Free.{down, after_alloc, alloc_pcb-nil}
use progetto_sistemi_operati.Pcb.Tree.{child_of}
use progetto_sistemi_operati.Asl.{insert_blocked, remove_blocked}
use progetto_sistemi_operati.Asl.View.{semds}
use progetto_sistemi_operati.Asl.Spec.{remove_blocked-queue}
use progetto_sistemi_operati.Asl.Waiting.{waiting}
use progetto_sistemi_operati.Nucleus.Platform.{Platform}
use progetto_sistemi_operati.Nucleus.Functions.{kill_process}
use progetto_sistemi_operati.Nucleus.Kernel.{Lists}
use progetto_sistemi_operati.Nucleus.Forest.{end}
use progetto_sistemi_operati.Nucleus.Tables.{Fresh, tables, tables-Fresh, tables_lem}
use progetto_sistemi_operati.Nucleus.Steady.{Steady, Steady-Kernel}
use progetto_sistemi_operati.Nucleus.Moves.{enqueued, dequeued}
use progetto_sistemi_operati.Nucleus.Waits.{blocked, unblocked}
use progetto_sistemi_operati.Nucleus.Spawning.{spawned}
use progetto_sistemi_operati.Nucleus.Sound.{Sound}
use progetto_sistemi_operati.Nucleus.Ended.{kill_process-Held}
use progetto_sistemi_operati.Nucleus.Steps.{Reach, here, then}
use progetto_sistemi_operati.Nucleus.Moved.{no_process}
use progetto_sistemi_operati.Nucleus.Reached.{Step-Sound}

-- The globals of the kernel as the program starts with them.
pub record Blank (s : Store) : Type 0 where
  pub parents : (p : ℕ) → (s.pcb p).parent ≡ none
  pub awake : (p : ℕ) → (s.pcb p).sem_add ≡ 0
  pub idle : s.current_process ≡ none

In-lists_down : (n p : ℕ) → p < n → In (p_list p) (lists (down n))
In-lists_down zero p lt = absurd (omega arith)
In-lists_down (suc n) p lt = elim (last n p lt) [
  | inl e ↦ inl (ap p_list e)
  | inr less ↦ inr (In-lists_down n p less)
]
  where
    last : (n p : ℕ) → p < suc n → (p ≡ n) ⊎ (p < n)
    last n p lt = omega arith

In-semds_down : (n d : ℕ) → d < n → In (s_link d) (semds (down n))
In-semds_down zero d lt = absurd (omega arith)
In-semds_down (suc n) d lt = elim (last n d lt) [
  | inl e ↦ inl (ap s_link e)
  | inr less ↦ inr (In-semds_down n d less)
]
  where
    last : (n d : ℕ) → d < suc n → (d ≡ n) ⊎ (d < n)
    last n d lt = omega arith

lists_down-In : (n p : ℕ) → In (p_list p) (lists (down n)) → p < n
lists_down-In zero p i = absurd i
lists_down-In (suc n) p (inl e) = let f : p ≡ n = cc in omega (arith, f)
lists_down-In (suc n) p (inr i) = omega (arith, lists_down-In n p i)

semds_down-In : (n d : ℕ) → In (s_link d) (semds (down n)) → d < n
semds_down-In zero d i = absurd i
semds_down-In (suc n) d (inl e) = let f : d ≡ n = cc in omega (arith, f)
semds_down-In (suc n) d (inr i) = omega (arith, semds_down-In n d i)

no_semd : (p : ℕ) (ds : List ℕ) → In (p_list p) (semds ds) → ⊥
no_semd p [] i = i
no_semd p (d ∷ ds) (inl e) = cc
no_semd p (d ∷ ds) (inr i) = no_semd p ds i

no_pcb : (d : ℕ) (ps : List ℕ) → In (s_link d) (lists ps) → ⊥
no_pcb d [] i = i
no_pcb d (p ∷ ps) (inl e) = cc
no_pcb d (p ∷ ps) (inr i) = no_pcb d ps i

some_list : {xs ys : List Item} → some xs ≡ some ys → xs ≡ ys
some_list e = cc

module _ (t : Store) (f : Fresh t) (blank : Blank t) where
  abbrev start : Lists
  start = record {
    view = f.view;
    sems = [];
    spare = down max_proc;
    ready = [];
    free = down max_proc;
  }

  In-free : (i : Item) → f.view.owner i ≡ some pcb_free → In i (lists (down max_proc))
  In-free i o =
      let at = f.asl.rings.listed i pcb_free o in subst (In i) (some_list (sym at.1 ∙ f.free)) at.2

  In-spare : (i : Item) → f.view.owner i ≡ some semd_free → In i (semds (down max_proc))
  In-spare i o =
      let at = f.asl.rings.listed i semd_free o in
      subst (In i) (some_list (sym at.1 ∙ f.asl.free)) at.2

  all_free : (p : ℕ) → p < max_proc → f.view.owner (p_list p) ≡ some pcb_free
  all_free p lt =
      All-at (λ i. f.view.owner i ≡ some pcb_free) (p_list p) (lists (down max_proc))
        (f.asl.rings.owned _ _ f.free) (In-lists_down max_proc p lt)

  all_spare : (d : ℕ) → d < max_proc → f.view.owner (s_link d) ≡ some semd_free
  all_spare d lt =
      All-at (λ i. f.view.owner i ≡ some semd_free) (s_link d) (semds (down max_proc))
        (f.asl.rings.owned _ _ f.asl.free) (In-semds_down max_proc d lt)

  start-Steady : Steady t start
  start-Steady = record {
    asl = f.asl;
    parent = λ c. f.no_child c ∙ ap child_of (sym (blank.parents c));
    queued = f.ready;
    free = f.free;
    pcbs = λ p h o. elim (f.owners (p_list p) h o) [
      | inl e ↦ lists_down-In max_proc p (In-free (p_list p) (o ∙ ap some e))
      | inr e ↦ absurd (no_semd p (down max_proc) (In-spare (p_list p) (o ∙ ap some e)))
    ];
    semds = λ d h o. elim (f.owners (s_link d) h o) [
      | inl e ↦ absurd (no_pcb d (down max_proc) (In-free (s_link d) (o ∙ ap some e)))
      | inr e ↦ semds_down-In max_proc d (In-spare (s_link d) (o ∙ ap some e))
    ];
    slots = λ d lt. inr (all_spare d lt);
    placed = λ p lt. inl (all_free p lt);
    orphan = λ p free. (blank.parents p, blank.awake p);
    kids = λ p lt used. absurd (used (all_free p lt));
    childless = λ p free i o. elim (f.owners i _ o) [ inl e ↦ cc | inr e ↦ cc ];
  }

  start-Sound : Sound t
  start-Sound = record {
    lists = start;
    family = end;
    held = record {
      steady = start-Steady;
      grows = tt;
      once = λ z. omega (arith, count-nil z);
      live = λ p i. absurd i;
      alive = λ p lt used. used (all_free p lt);
      founders = λ p i. absurd i;
    };
    running = λ p e. no_process t.current_process p blank.idle e;
  }

tables-Blank : (s : Store) → Blank s → Blank (tables s)
tables-Blank s b = record {
  parents = λ p. ap (λ t. (t.pcb p).parent) (tables_lem s) ∙ b.parents p;
  awake = λ p. ap (λ t. (t.pcb p).sem_add) (tables_lem s) ∙ b.awake p;
  idle = ap (λ t. t.current_process) (tables_lem s) ∙ b.idle;
}

pub Reach-kept : (u : Platform) (s t : Store) → Reach u s t → Sound s → Sound t
Reach-kept u s _ here h = h
Reach-kept u s t' (then {t = t} reach step) h = Step-Sound u t t' step (Reach-kept u s t reach h)

-- From tables prepared with no process running and no PCB that has a parent or names a semaphore, and
-- after any number of the steps of Step in any order (processes are made, become ready, run, block,
-- wake and end, but none ends another), every descriptor is in the list of active semaphores or in that
-- of free descriptors, and every PCB has its place: it is free, ready, in the queue of the one
-- semaphore that it names, or in no queue at all. A free PCB has no parent and no children; the PCBs
-- in use are the nodes of trees, each once, with the lists of children and the parents that agree; and
-- the running process is in use and in no queue.
pub Reach-Sound : (u : Platform) (s t : Store) → Blank s → Reach u (tables s) t → Sound t
Reach-Sound u s t blank reach =
    Reach-kept u (tables s) t reach (start-Sound (tables s) (tables-Fresh s) (tables-Blank s blank))

-- The calls by which phase2 moves, makes and ends processes return.
pub record Safe (u : Platform) (t : Store) : Type 0 where
  pub joins :
      (p : ℕ)
      → t.current_process ≡ some p
      → (t' : Store) × (insert_proc_q ready_queue p t ≡ ok tt t')
  pub leaves : (o : Option ℕ) × (t' : Store) × (remove_proc_q ready_queue t ≡ ok o t')
  pub waits :
      (key p : ℕ)
      → key ≢ 0
      → t.current_process ≡ some p
      → (full : Bool) × (t' : Store) × (insert_blocked key p t ≡ ok full t')
  pub wakes : (key : ℕ) → key ≢ 0 → (o : Option ℕ) × (t' : Store) × (remove_blocked key t ≡ ok o t')
  pub makes : (o : Option ℕ) × (t' : Store) × (alloc_pcb u.gpr_len t ≡ ok o t')
  pub ends :
      (p : ℕ) → t.current_process ≡ some p → (t' : Store) × (kill_process u (some p) t ≡ ok tt t')

module _ (u : Platform) (t : Store) (h : Sound t) where
  leaves_then :
      (ps : List ℕ)
      → h.lists.ready ≡ ps
      → (o : Option ℕ) × (t' : Store) × (remove_proc_q ready_queue t ≡ ok o t')
  leaves_then [] e = (
    none,
    t,
    remove_proc_q-nil t h.lists.view ready_queue h.held.steady.asl.rings
        (h.held.steady.queued ∙ ap (λ qs. some (lists qs)) e),
  )
  leaves_then (p ∷ ps) e =
      let moved = dequeued t h.lists h.held.steady p ps e in (some p, moved.0, moved.2)

  wakes_then :
      (key : ℕ) (ps : List ℕ)
      → key ≢ 0
      → waiting key h.lists.sems ≡ ps
      → (o : Option ℕ) × (t' : Store) × (remove_blocked key t ≡ ok o t')
  wakes_then key [] nonzero e =
      let steady = h.held.steady in
      let woken =
        remove_blocked-queue t h.lists.view h.lists.spare key [] h.lists.sems steady.asl
          (Steady-Kernel t h.lists steady).few e in
      (none, woken.0, woken.1)
  wakes_then key (p ∷ ps) nonzero e =
      let moved = unblocked t h.lists h.held.steady key nonzero p ps e in (some p, moved.0, moved.2)

  makes_then :
      (ps : List ℕ)
      → h.lists.free ≡ ps
      → (o : Option ℕ) × (t' : Store) × (alloc_pcb u.gpr_len t ≡ ok o t')
  makes_then [] e = (
    none,
    t,
    alloc_pcb-nil u.gpr_len t h.lists.view h.held.steady.asl.rings
        (h.held.steady.free ∙ ap (λ qs. some (lists qs)) e),
  )
  makes_then (p ∷ ps) e =
      (some p, after_alloc u.gpr_len t p, (spawned t h.lists h.held.steady p u.gpr_len ps e).0)

  Sound-Safe : Safe u t
  Sound-Safe = record {
    joins = λ p e.
        let moved = enqueued t h.lists h.held.steady p (h.running p e).0 in (moved.0, moved.2);
    leaves = leaves_then h.lists.ready refl;
    waits = λ key p nonzero e.
        elim (blocked t h.lists h.held.steady key nonzero p (h.running p e).0) [
          | inl moved ↦ (false, moved.0, moved.2)
          | inr full ↦ (true, t, full)
        ];
    wakes = λ key nonzero. wakes_then key (waiting key h.lists.sems) nonzero refl;
    makes = makes_then h.lists.free refl;
    ends = λ p e.
        let ended = kill_process-Held u p t h.lists h.family h.held (h.running p e).1 in
        (ended.0, ended.3);
  }

-- In every state that the steps of Step reach from tables prepared with no process running and no
-- PCB that has a parent or names a semaphore, `insertProcQ` of the running process into the ready queue,
-- `removeProcQ` from it, `insertBlocked` of the running process and `removeBlocked` on any nonzero
-- key, `allocPcb`, and `killProcess` of the running process all return: the loops end within their
-- fuel, and none of the calls faults.
pub Reach-Safe : (u : Platform) (s t : Store) → Blank s → Reach u (tables s) t → Safe u t
Reach-Safe u s t blank reach = Sound-Safe u t (Reach-Sound u s t blank reach)

-- ===== src/Nucleus/Killed.antt =====
-- What is left when processes have ended by `killProcess` of phase2/functions.c, one after the other.
use progetto_sistemi_operati.Asl.Outcome.{Slot}
use progetto_sistemi_operati.Base.{
  ℕ, ◌≡◌, ◌≢◌, sym, ◌∙◌, ap, none, some, List, [], ◌∷◌, ◌++◌, All, NotIn, Distinct,
}
use progetto_sistemi_operati.Memory.{Head, p_list, p_child, s_link}
use progetto_sistemi_operati.Listx.Removal.{
  erase, each, each-append, each-same, In-each-erase, NotIn-append_left, NotIn-append_right,
  All-apart, All-apart_left,
}
use progetto_sistemi_operati.Listx.Sequences.{All-append}
use progetto_sistemi_operati.Store.{Store}
use progetto_sistemi_operati.Asl.Waiting.{waiting}
use progetto_sistemi_operati.Nucleus.Platform.{Platform, decr}
use progetto_sistemi_operati.Nucleus.Kernel.{Lists, Kernel, Placed, Placed-same}
use progetto_sistemi_operati.Nucleus.Leaving.{softer}

-- A PCB as a process that has ended leaves it.
pub record Over (t : Store) (l : Lists) (z : ℕ) : Type 0 where
  pub parent : (t.pcb z).parent ≡ none
  pub awake : (t.pcb z).sem_add ≡ 0
  pub childless : l.view.items (p_child z) ≡ some []

-- The processes `dead` have ended in this order: each has left its queue, where the others keep
-- their order, and its PCB has become the first free one. The counts of processes and of soft
-- blocked processes have fallen for each of them. But for the list of children of `loose` nothing
-- of another process has changed.
pub record Killed (u : Platform) (loose : ℕ) (dead : List ℕ) (s : Store) (k : Lists) (t : Store)
    (l : Lists) : Type 0 where
  pub kernel : Kernel t l
  pub ready : l.ready ≡ each erase dead k.ready
  pub free : l.free ≡ each ◌∷◌ dead k.free
  pub queues : (j : ℕ) → j ≢ 0 → waiting j l.sems ≡ each erase dead (waiting j k.sems)
  pub children :
      (z : ℕ) → z ≢ loose → NotIn z dead → l.view.items (p_child z) ≡ k.view.items (p_child z)
  pub owners : (z : ℕ) → NotIn z dead → l.view.owner (p_list z) ≡ k.view.owner (p_list z)
  pub descriptors :
      (d : ℕ) (h : Head)
      → l.view.owner (s_link d) ≡ some h
      → (h' : Head) × (k.view.owner (s_link d) ≡ some h')
  pub slots : (d : ℕ) → Slot k.view d → Slot l.view d
  pub others : (z : ℕ) → NotIn z dead → t.pcb z ≡ s.pcb z
  pub over : All (Over t l) dead
  pub count : t.process_count ≡ each (λ m n. decr n) dead s.process_count
  pub soft : t.soft_block_count ≡ each (λ m. softer u (s.pcb m).sem_add) dead s.soft_block_count
  pub current : t.current_process ≡ s.current_process
  pub machine : t.machine ≡ s.machine
  pub pids : t.next_pid ≡ s.next_pid

-- A process that is not among the dead stays where it is.
pub Killed-Placed :
    (u : Platform) (loose : ℕ) (dead : List ℕ) (s : Store) (k : Lists) (t : Store) (l : Lists)
    → Killed u loose dead s k t l
    → (z : ℕ) → NotIn z dead
    → Placed s k z
    → Placed t l z
Killed-Placed u loose dead s k t l d z n =
    Placed-same s k t l z (ap (λ x. x.sem_add) (d.others z n)) (d.owners z n) (λ blocked stands.
      rw (d.queues (s.pcb z).sem_add blocked)
        (In-each-erase z dead (waiting (s.pcb z).sem_add k.sems) n stands))

-- First some processes end, and then others.
module _ (u : Platform) (first loose : ℕ) (xs ys : List ℕ) (apart : Distinct (xs ++ ys))
    (kept : NotIn loose xs) (unlike : (z : ℕ) → z ≢ loose → NotIn z ys → z ≢ first) (s : Store)
    (k : Lists) (t : Store) (l : Lists) (t' : Store) (l' : Lists) (c : Killed u first xs s k t l)
    (d : Killed u loose ys t l t' l') where
  still_ended :
      (zs : List ℕ)
      → NotIn loose zs
      → All (λ z. NotIn z ys) zs
      → All (Over t l) zs
      → All (Over t' l') zs
  still_ended [] m n o = tt
  still_ended (z ∷ zs) m n o = (
    let same = d.others z n.0 in
        record {
          parent = ap (λ x. x.parent) same ∙ o.0.parent;
          awake = ap (λ x. x.sem_add) same ∙ o.0.awake;
          childless = d.children z (λ e. m.0 (sym e)) n.0 ∙ o.0.childless;
        },
    still_ended zs m.1 n.1 o.1,
  )

  same_soft :
      (zs : List ℕ)
      → All (λ z. NotIn z xs) zs
      → All (λ m. (b : ℕ) → softer u (t.pcb m).sem_add b ≡ softer u (s.pcb m).sem_add b) zs
  same_soft [] n = tt
  same_soft (z ∷ zs) n = ((λ b. ap (λ x. softer u x.sem_add b) (c.others z n.0)), same_soft zs n.1)

  pub Killed-append : Killed u loose (xs ++ ys) s k t' l'
  Killed-append = record {
    kernel = d.kernel;
    ready = d.ready ∙ ap (each erase ys) c.ready ∙ sym (each-append erase xs ys k.ready);
    free = d.free ∙ ap (each ◌∷◌ ys) c.free ∙ sym (each-append ◌∷◌ xs ys k.free);
    queues = λ j ne.
        d.queues j ne
        ∙ ap (each erase ys) (c.queues j ne)
        ∙ sym (each-append erase xs ys (waiting j k.sems));
    children = λ z ne n.
        d.children z ne (NotIn-append_right z xs ys n)
        ∙ c.children z (unlike z ne (NotIn-append_right z xs ys n)) (NotIn-append_left z xs ys n);
    owners =
        λ z n. d.owners z (NotIn-append_right z xs ys n) ∙ c.owners z (NotIn-append_left z xs ys n);
    descriptors = λ e g o. let mid = d.descriptors e g o in c.descriptors e mid.0 mid.1;
    slots = λ e slot. d.slots e (c.slots e slot);
    others =
        λ z n. d.others z (NotIn-append_right z xs ys n) ∙ c.others z (NotIn-append_left z xs ys n);
    over =
        All-append (Over t' l') xs ys (still_ended xs kept (All-apart xs ys apart) c.over) d.over;
    count =
        d.count
        ∙ ap (each (λ m n. decr n) ys) c.count
        ∙ sym (each-append (λ m n. decr n) xs ys s.process_count);
    soft =
        d.soft
        ∙ each-same (λ m. softer u (t.pcb m).sem_add) (λ m. softer u (s.pcb m).sem_add) ys
            t.soft_block_count (same_soft ys (All-apart_left xs ys apart))
        ∙ ap (each (λ m. softer u (s.pcb m).sem_add) ys) c.soft
        ∙ sym (each-append (λ m. softer u (s.pcb m).sem_add) xs ys s.soft_block_count);
    current = d.current ∙ c.current;
    machine = d.machine ∙ c.machine;
    pids = d.pids ∙ c.pids;
  }

-- ===== src/Nucleus/Sound.antt =====
-- The processes of phase2 as a whole: the lists of the kernel, and the trees in which each process in
-- use has one place.
use progetto_sistemi_operati.Base.{ℕ, ◌<◌, ◌≡◌, ◌≢◌, sym, ◌∙◌, none, some, inl, inr, In, subst}
use progetto_sistemi_operati.Memory.{p_list, pcb_free}
use progetto_sistemi_operati.Store.{Store}
use progetto_sistemi_operati.Pcb.{max_proc}
use progetto_sistemi_operati.Nucleus.Kernel.{Lists}
use progetto_sistemi_operati.Nucleus.Forest.{Forest, end, tree, roots, members, Grows}
use progetto_sistemi_operati.Nucleus.Family.{Once, Grows-kept, In-root, In-rest}
use progetto_sistemi_operati.Nucleus.Blocking.{owner_before}
use progetto_sistemi_operati.Nucleus.Steady.{Steady, Quiet, Quiet-Steady, Still}
use progetto_sistemi_operati.Nucleus.Moves.{Loose}

pub roots-In : (z : ℕ) (f : Forest) → In z (roots f) → In z (members f)
roots-In z end i = i
roots-In z (tree c kids rest) (inl e) =
    subst (λ a. In a (members (tree c kids rest))) (sym e) (In-root c kids rest)
roots-In z (tree c kids rest) (inr i) = In-rest z c kids rest (roots-In z rest i)

-- Every list and PCB has its place, the trees are those of the lists of children, they hold each
-- PCB in use once and no other, and their roots have no parent.
pub record Held (s : Store) (k : Lists) (f : Forest) : Type 0 where
  pub steady : Steady s k
  pub grows : Grows k.view f
  pub once : Once f
  pub live : (p : ℕ) → In p (members f) → (p < max_proc) × (k.view.owner (p_list p) ≢ some pcb_free)
  pub alive : (p : ℕ) → p < max_proc → k.view.owner (p_list p) ≢ some pcb_free → In p (members f)
  pub founders : (p : ℕ) → In p (roots f) → (s.pcb p).parent ≡ none

-- So it is, and the running process is in use, apart from all queues, and names no semaphore.
pub record Sound (s : Store) : Type 0 where
  pub lists : Lists
  pub family : Forest
  pub held : Held s lists family
  pub running : (p : ℕ) → s.current_process ≡ some p → Loose s lists p × In p (members family)

pub Still-Held :
    (s : Store) (k : Lists) (t : Store) (l : Lists) (f : Forest)
    → Still s k t l
    → Steady t l
    → Held s k f
    → Held t l f
Still-Held s k t l f still steady h = record {
  steady = steady;
  grows = Grows-kept k.view l.view f (λ z i. still.children z) h.grows;
  once = h.once;
  live = λ p i.
      let old = h.live p i in
      (
        old.0,
        λ free. old.1 (
            owner_before s t k.view l.view pcb_free (p_list p) h.steady.asl.rings steady.asl.rings
              still.unused free),
      );
  alive = λ p lt used. h.alive p lt (λ free. used (
      owner_before t s l.view k.view pcb_free (p_list p) steady.asl.rings h.steady.asl.rings
        (sym still.unused) free));
  founders = λ p i. still.parents p ∙ h.founders p i;
}

pub Quiet-Held : (s t : Store) (k : Lists) (f : Forest) → Quiet s t → Held s k f → Held t k f
Quiet-Held s t k f q h = record {
  steady = Quiet-Steady s t k q h.steady;
  grows = h.grows;
  once = h.once;
  live = h.live;
  alive = h.alive;
  founders = λ p i. q.parent p ∙ h.founders p i;
}

pub Quiet-Loose : (s t : Store) (k : Lists) (p : ℕ) → Quiet s t → Loose s k p → Loose t k p
Quiet-Loose s t k p q at = record {
  unlisted = at.unlisted;
  awake = q.sem_add p ∙ at.awake;
  known = at.known;
}

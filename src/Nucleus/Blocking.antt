-- ===== src/Nucleus/Blocking.antt =====
-- The lists of the kernel behind `insertBlocked` and `removeBlocked` of phase1/asl.c.
use progetto_sistemi_operati.Base.{
  ℕ, ◌<◌, ◌≡◌, ◌≢◌, sym, ◌∙◌, ap, subst, none, some, ◌⊎◌, inl, inr, List, arith, All, In, NotIn,
  ℕ_discrete,
}
use progetto_sistemi_operati.Memory.{
  Head, Item, p_list, p_child, s_procq, pcb_free, ready_queue, semd_active, semd_free,
}
use progetto_sistemi_operati.Listx.View.{View, Rings}
use progetto_sistemi_operati.Listx.Removal.{In-cases, All-at, In-NotIn}
use progetto_sistemi_operati.Store.{Store}
use progetto_sistemi_operati.Pcb.{max_proc}
use progetto_sistemi_operati.Pcb.Tree.{child_of}
use progetto_sistemi_operati.Asl.Waiting.{waiting}
use progetto_sistemi_operati.Asl.Quit.{waiting-keyed}
use progetto_sistemi_operati.Asl.Spec.{Became}
use progetto_sistemi_operati.Nucleus.Kernel.{Lists, Placed, Placed-same}
use progetto_sistemi_operati.Nucleus.Leaving.{waiting-owned}
use progetto_sistemi_operati.Nucleus.Steady.{Steady, Still}

-- An item of a list that has not changed was in it before.
pub owner_before :
    (s t : Store) (v w : View) (h : Head) (i : Item)
    → Rings s.links v
    → Rings t.links w
    → w.items h ≡ v.items h
    → w.owner i ≡ some h
    → v.owner i ≡ some h
owner_before s t v w h i r r' same o =
    let at = r'.listed i h o in
    All-at (λ j. v.owner j ≡ some h) i at.0 (r.owned h at.0 (sym same ∙ at.1)) at.2

module _ (s : Store) (k : Lists) (h : Steady s k) (key : ℕ) (nonzero : key ≢ 0) (q : List ℕ)
    (t : Store) (b : Became s k.view key q k.sems t) (members : (z : ℕ) → In z q → z < max_proc)
    (gone : (z : ℕ) → NotIn z q → In z (waiting key k.sems) → b.view.owner (p_list z) ≡ none) where
  abbrev pub became : Lists
  became = record k { view = b.view; sems = b.sems'; spare = b.spare' }

  parent_same : (z : ℕ) → (t.pcb z).parent ≡ (s.pcb z).parent
  parent_same z = ap (λ x. x.parent) (b.pcbs z)

  -- The lists that are not the semaphores' own are as they were.
  before :
      (g : Head) (i : Item)
      → g ≢ semd_free
      → g ≢ semd_active
      → ((d : ℕ) → g ≢ s_procq d)
      → b.view.owner i ≡ some g
      → k.view.owner i ≡ some g
  before g i f a d = owner_before s t k.view b.view g i h.asl.rings b.asl.rings (b.lists g f a d)

  free_before :
      (z : ℕ) → b.view.owner (p_list z) ≡ some pcb_free → k.view.owner (p_list z) ≡ some pcb_free
  free_before z = before pcb_free (p_list z) (λ e. cc) (λ e. cc) (λ d e. cc)

  -- A PCB in the queue of the key.
  Placed-In : (z : ℕ) → In z q → Placed t became z
  Placed-In z i =
      let names : (t.pcb z).sem_add ≡ key =
        All-at (λ p. (t.pcb p).sem_add ≡ key) z q
          (subst (All (λ p. (t.pcb p).sem_add ≡ key)) b.queue
            (waiting-keyed t b.view key b.sems' b.asl.holds))
          i in
      inr ((λ e. nonzero (sym names ∙ e)), rw (names, b.queue) i)

  Placed-out : (z : ℕ) → NotIn z q → NotIn z (waiting key k.sems) → Placed s k z → Placed t became z
  Placed-out z out away =
      Placed-same s k t became z (ap (λ x. x.sem_add) (b.apart z out away)) (b.owners z out away)
        (λ blocked stands. elim (ℕ_discrete (s.pcb z).sem_add key) [
          | yes e ↦
              absurd (
                In-NotIn z (waiting key k.sems) (subst (λ j. In z (waiting j k.sems)) e stands)
                  away)
          | no ne ↦ subst (In z) (sym (b.same (s.pcb z).sem_add ne)) stands
        ])

  Placed-then :
      (z : ℕ) → z < max_proc → (b.view.owner (p_list z) ≡ some pcb_free) ⊎ Placed t became z
  Placed-then z lt = elim (In-cases z q) [
    | inl i ↦ inr (Placed-In z i)
    | inr out ↦ elim (In-cases z (waiting key k.sems)) [
      | inl i ↦ inr (inl (b.left z out i, inl (gone z out i)))
      | inr away ↦ elim (h.placed z lt) [
        | inl free ↦ inl (b.owners z out away ∙ free)
        | inr at ↦ inr (Placed-out z out away at)
      ]
    ]
  ]

  numbered : (z : ℕ) (g : Head) → b.view.owner (p_list z) ≡ some g → z < max_proc
  numbered z g o = elim (In-cases z q) [
    | inl i ↦ members z i
    | inr out ↦ elim (In-cases z (waiting key k.sems)) [
      | inl i ↦ let none_left = gone z out i in absurd (ground (arith, none_left, o))
      | inr away ↦ h.pcbs z g (sym (b.owners z out away) ∙ o)
    ]
  ]

  -- A free PCB is in no queue of the semaphore, and keeps its fields.
  free_apart : (z : ℕ) → b.view.owner (p_list z) ≡ some pcb_free → t.pcb z ≡ s.pcb z
  free_apart z free = elim (In-cases z q) [
    | inl i ↦
        let at =
          waiting-owned t b.view key b.sems' z b.asl.rings b.asl.holds
            (subst (In z) (sym b.queue) i) in
        absurd (ground (arith, at.1, free))
    | inr out ↦ elim (In-cases z (waiting key k.sems)) [
      | inl i ↦ let none_left = gone z out i in absurd (ground (arith, none_left, free))
      | inr away ↦ b.apart z out away
    ]
  ]

  pub Became-Steady : Steady t became
  Became-Steady = record {
    asl = b.asl;
    parent = λ c. b.siblings c ∙ h.parent c ∙ ap child_of (sym (parent_same c));
    queued = b.lists ready_queue (λ e. cc) (λ e. cc) (λ d e. cc) ∙ h.queued;
    free = b.lists pcb_free (λ e. cc) (λ e. cc) (λ d e. cc) ∙ h.free;
    pcbs = numbered;
    semds = λ d g o. let old = b.descriptors d g o in h.semds d old.0 old.1;
    slots = λ d lt. b.slots d (h.slots d lt);
    placed = Placed-then;
    orphan = λ z free.
        let old = h.orphan z (free_before z free) in
        (parent_same z ∙ old.0, ap (λ x. x.sem_add) (free_apart z free) ∙ old.1);
    kids = λ z lt used.
        let (xs, e) = h.kids z lt (λ free. used (
          owner_before t s b.view k.view pcb_free (p_list z) b.asl.rings h.asl.rings
            (sym (b.lists pcb_free (λ e. cc) (λ e. cc) (λ d e. cc))) free)) in
        (xs, b.lists (p_child z) (λ e. cc) (λ e. cc) (λ d e. cc) ∙ e);
    childless = λ z free i o.
        h.childless z (free_before z free) i
          (before (p_child z) i (λ e. cc) (λ e. cc) (λ d e. cc) o);
  }

  pub Became-Still : Still s k t became
  Became-Still = record {
    children = λ z. b.lists (p_child z) (λ e. cc) (λ e. cc) (λ d e. cc);
    unused = b.lists pcb_free (λ e. cc) (λ e. cc) (λ d e. cc);
    parents = parent_same;
    current = ap (λ x. x.current_process) b.globals;
  }

  -- A process apart from all lists, and not in the queue now, stays apart.
  pub Became-Loose :
      (z : ℕ)
      → NotIn z q
      → k.view.owner (p_list z) ≡ none
      → (s.pcb z).sem_add ≡ 0
      → (b.view.owner (p_list z) ≡ none) × ((t.pcb z).sem_add ≡ 0)
  Became-Loose z out unlisted awake = elim (In-cases z (waiting key k.sems)) [
    | inl i ↦
        let at = waiting-owned s k.view key k.sems z h.asl.rings h.asl.holds i in
        absurd (ground (arith, unlisted, at.1))
    | inr away ↦ (b.owners z out away ∙ unlisted, ap (λ x. x.sem_add) (b.apart z out away) ∙ awake)
  ]

-- ===== src/Nucleus/Forest.antt =====
-- Trees of processes, as `killProcess` of phase2/functions.c takes them apart.
use progetto_sistemi_operati.Base.{
  inl, inr, ℕ, suc, ◌+◌, ◌≡◌, ◌≢◌, refl, sym, ◌∙◌, ap, subst, some, List, [], ◌∷◌, ◌++◌, arith, All,
  In, NotIn, Distinct,
}
use progetto_sistemi_operati.Memory.{p_sib, p_child}
use progetto_sistemi_operati.Listx.View.{View, leave}
use progetto_sistemi_operati.Listx.Sequences.{All-append_left, All-append_right}
use progetto_sistemi_operati.Listx.Removal.{each-same, All-map, In-NotIn}
use progetto_sistemi_operati.Store.{Store, ok}
use progetto_sistemi_operati.Pcb.Tree.{Tree, sibs, orphaned}
use progetto_sistemi_operati.Nucleus.Platform.{Platform}
use progetto_sistemi_operati.Nucleus.Functions.{kill_children, kill}
use progetto_sistemi_operati.Nucleus.Wakes.{Asl-same}
use progetto_sistemi_operati.Nucleus.Kernel.{Lists, Kernel, Placed, Placed-same}
use progetto_sistemi_operati.Nucleus.Leaving.{softer}
use progetto_sistemi_operati.Nucleus.Killed.{Killed, Killed-Placed}

-- Sibling processes, each with its children.
pub data Forest : Type 0 where
  end : Forest
  tree : ℕ → Forest → Forest → Forest

abbrev pub roots : Forest → List ℕ
roots end = []
roots (tree c kids rest) = c ∷ roots rest

-- The processes in the order in which they end: the children first.
abbrev pub members : Forest → List ℕ
members end = []
members (tree c kids rest) = (members kids ++ c ∷ []) ++ members rest

abbrev pub size : Forest → ℕ
size end = 0
size (tree c kids rest) = suc (size kids + size rest)

-- The lists of children are those of the forest.
abbrev pub Grows : View → Forest → Type 0
Grows v end = Unit
Grows v (tree c kids rest) =
    (v.items (p_child c) ≡ some (sibs (roots kids))) × Grows v kids × Grows v rest

pub Grows-same :
    (v w : View) (f : Forest)
    → All (λ z. w.items (p_child z) ≡ v.items (p_child z)) (members f)
    → Grows v f
    → Grows w f
Grows-same v w end a g = tt
Grows-same v w (tree c kids rest) a g =
    let first = All-append_left _ (members kids ++ c ∷ []) (members rest) a in
    let here =
      All-append_right (λ z. w.items (p_child z) ≡ v.items (p_child z)) (members kids) (c ∷ [])
        first in
    (
      here.0 ∙ g.0,
      Grows-same v w kids (All-append_left _ (members kids) (c ∷ []) first) g.1,
      Grows-same v w rest
          (All-append_right (λ z. w.items (p_child z) ≡ v.items (p_child z))
            (members kids ++ c ∷ []) (members rest) a)
          g.2,
    )

-- The child `c` is taken from `p`, whose other children are `cs`.
module _ (s : Store) (k : Lists) (h : Kernel s k) (p c : ℕ) (cs : List ℕ)
    (tree : Tree (orphaned c s) (leave (p_child p) (p_sib c) (sibs cs) k.view)) where
  abbrev pub parted : Lists
  parted = record k { view = leave (p_child p) (p_sib c) (sibs cs) k.view }

  pub parted-Kernel : Kernel (orphaned c s) parted
  parted-Kernel = record {
    asl =
        Asl-same s k.view (orphaned c s) parted.view refl (λ z. ground arith) (λ z. ground arith)
          k.sems k.spare (ground arith) (ground arith) tree.rings h.asl;
    parent = tree.parent;
    queued = ground (arith, h.queued);
    free = ground (arith, h.free);
    few = h.few;
    room = h.room;
    short = h.short;
  }

  pub parted-Placed : (z : ℕ) → Placed s k z → Placed (orphaned c s) parted z
  parted-Placed z a =
      Placed-same s k (orphaned c s) parted z (ground arith) (ground arith) (λ b i. i) a

  -- What ends behind that step ends behind `s`.
  pub parted-Killed :
      (u : Platform) (dead : List ℕ) (t : Store) (l : Lists)
      → In c dead
      → Killed u c dead (orphaned c s) parted t l
      → Killed u p dead s k t l
  parted-Killed u dead t l i d = record {
    kernel = d.kernel;
    ready = d.ready;
    free = d.free;
    queues = d.queues;
    children = λ z ne n. d.children z (unlike z n) n ∙ ground (arith, ne);
    owners = λ z n. d.owners z n ∙ ground arith;
    descriptors = λ e g o. let mid = d.descriptors e g o in (mid.0, ground (arith, mid.1));
    slots = λ e slot.
        d.slots e (elim slot [ inl a ↦ inl (ground (arith, a)) | inr a ↦ inr (ground (arith, a)) ]);
    others = λ z n. d.others z n ∙ ground (arith, unlike z n);
    over = d.over;
    count = d.count;
    soft =
        d.soft
        ∙ each-same (λ m. softer u ((orphaned c s).pcb m).sem_add) (λ m. softer u (s.pcb m).sem_add)
            dead s.soft_block_count (same_soft dead);
    current = d.current;
    machine = d.machine;
    pids = d.pids;
  }
    where
      unlike : (z : ℕ) → NotIn z dead → z ≢ c
      unlike z n e = In-NotIn z dead (subst (λ a. In a dead) (sym e) i) n

      same_soft :
          (zs : List ℕ)
          → All
              (λ m.
                (b : ℕ) → softer u ((orphaned c s).pcb m).sem_add b ≡ softer u (s.pcb m).sem_add b)
              zs
      same_soft [] = tt
      same_soft (z ∷ zs) = ((λ b. ap (λ a. softer u a b) (ground arith)), same_soft zs)

-- The children of `p` end, and leave it without any.
pub record Orphans (u : Platform) (f : Forest) (p rounds depth : ℕ) (s : Store) (k : Lists)
    : Type 0 where
  pub after : Store
  pub lists : Lists
  pub run : kill_children rounds (kill u depth) p s ≡ ok tt after
  pub killed : Killed u p (members f) s k after lists
  pub childless : lists.view.items (p_child p) ≡ some []

-- What holds before.
pub record Rooted (f : Forest) (p : ℕ) (s : Store) (k : Lists) : Type 0 where
  pub kernel : Kernel s k
  pub children : k.view.items (p_child p) ≡ some (sibs (roots f))
  pub grows : Grows k.view f
  pub placed : All (Placed s k) (members f)
  pub distinct : Distinct (p ∷ members f)

-- It holds still if others end before.
pub Rooted-later :
    (u : Platform) (loose : ℕ) (dead : List ℕ) (s : Store) (k : Lists) (t : Store) (l : Lists)
    (d : Killed u loose dead s k t l) (f : Forest) (p : ℕ)
    → l.view.items (p_child p) ≡ some (sibs (roots f))
    → Grows k.view f
    → All (Placed s k) (members f)
    → Distinct (p ∷ members f)
    → All (λ z. NotIn z (loose ∷ dead)) (members f)
    → Rooted f p t l
Rooted-later u loose dead s k t l d f p children grows placed distinct apart = record {
  kernel = d.kernel;
  children = children;
  grows =
      Grows-same k.view l.view f
        (All-map _ (λ z. l.view.items (p_child z) ≡ k.view.items (p_child z))
          (λ z n. d.children z n.0 n.1) (members f) apart)
        grows;
  placed = placed_later (members f) apart placed;
  distinct = distinct;
}
  where
    placed_later :
        (zs : List ℕ)
        → All (λ z. NotIn z (loose ∷ dead)) zs
        → All (Placed s k) zs
        → All (Placed t l) zs
    placed_later [] n a = tt
    placed_later (z ∷ zs) n a =
        (Killed-Placed u loose dead s k t l d z n.0.1 a.0, placed_later zs n.1 a.1)

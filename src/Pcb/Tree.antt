-- ===== src/Pcb/Tree.antt =====
-- The tree of processes of phase1/pcb.c: the list of children of each PCB, and its parent.
use progetto_sistemi_operati.Base.{
  ℕ, ◌≡◌, refl, true, Option, none, some, List, [], ◌∷◌, ◌++◌, arith,
}
use progetto_sistemi_operati.Memory.{Head, Item, of_head, p_sib, p_child}
use progetto_sistemi_operati.Listx.{list_add, list_del, init_list_head}
use progetto_sistemi_operati.Listx.View.{View, Rings, enter, leave}
use progetto_sistemi_operati.Listx.Delete.{list_del-Rings}
use progetto_sistemi_operati.Listx.Init.{init_item-Rings}
use progetto_sistemi_operati.Listx.Queue.{next_head, list_add-Rings}
use progetto_sistemi_operati.Store.{Store, ok, on_links, on_pcb, pcb_of_sib}
use progetto_sistemi_operati.Pcb.{
  sib_of_pcb, empty_child, insert_child, detach, remove_child, out_child,
}

-- The links of a sequence of children.
abbrev pub sibs : List ℕ → List Item
sibs [] = []
sibs (p ∷ ps) = p_sib p ∷ sibs ps

pub sibs-append : (ps qs : List ℕ) → sibs (ps ++ qs) ≡ sibs ps ++ sibs qs
sibs-append [] qs = refl
sibs-append (p ∷ ps) qs = rw (sibs-append ps qs)

abbrev pub child_of : Option ℕ → Option Head
child_of none = none
child_of (some q) = some (p_child q)

-- A PCB is in the list of children of its parent, and in no other.
pub record Tree (s : Store) (v : View) : Type 0 where
  pub rings : Rings s.links v
  pub parent : (c : ℕ) → v.owner (p_sib c) ≡ child_of (s.pcb c).parent

-- The states behind `insertChild`, `removeChild` and `outChild`.
abbrev pub adopted : ℕ → ℕ → Store → Store
adopted q p s =
    on_links (list_add (sib_of_pcb p) (of_head (p_child q)))
      (on_pcb p (λ x. record x { parent = some q }) s)

abbrev pub orphaned : ℕ → Store → Store
orphaned c s =
    on_links (init_list_head (sib_of_pcb c))
      (on_pcb c (λ x. record x { parent = none }) (on_links (list_del (sib_of_pcb c)) s))

module _ (s : Store) (v : View) (t : Tree s v) where
  pub empty_child_iff :
      (p : ℕ) (cs : List ℕ)
      → v.items (p_child p) ≡ some (sibs cs)
      → (empty_child (some p) s ≡ true → cs ≡ []) × (cs ≡ [] → empty_child (some p) s ≡ true)
  unfolding empty_child
  empty_child_iff p [] e =
      (λ q. refl, λ q. ground (arith, next_head s.links v (p_child p) [] t.rings e))
  empty_child_iff p (c ∷ cs) e =
      (λ q. ground (arith, next_head s.links v (p_child p) (sibs (c ∷ cs)) t.rings e), λ q. cc)

  -- On a well-formed tree `insertChild` makes a PCB without parent the first child of another, whose
  -- other children stay in order, and the tree stays well formed: a PCB is in the list of children of
  -- its parent and in no other.
  pub insert_child-Tree :
      (q p : ℕ) (cs : List ℕ)
      → v.items (p_child q) ≡ some (sibs cs)
      → (s.pcb p).parent ≡ none
      → (insert_child (some q) (some p) s ≡ ok tt (adopted q p s))
        × Tree (adopted q p s) (enter (p_child q) (p_sib p) (sibs (p ∷ cs)) v)
  unfolding insert_child
  insert_child-Tree q p cs e orphan = (
    refl,
    record {
      rings =
          list_add-Rings s.links v (p_child q) (p_sib p) (sibs cs) t.rings e
            (ground (arith, t.parent p));
      parent = λ c. ground (arith, t.parent c);
    },
  )

  -- A child leaves the list of its parent, wherever it stands.
  detach-Tree :
      (q p : ℕ) (before after : List ℕ)
      → v.items (p_child q) ≡ some (sibs (before ++ p ∷ after))
      → (detach p s ≡ ok (some p) (orphaned p s))
        × Tree (orphaned p s) (leave (p_child q) (p_sib p) (sibs (before ++ after)) v)
  unfolding detach
  detach-Tree q p before after e = (
    refl,
    record {
      rings =
          init_item-Rings _ _ (p_sib p)
            (rw (sibs-append before after) (
              list_del-Rings s.links v (p_child q) (p_sib p) (sibs before) (sibs after) t.rings
                (rw (sibs-append before (p ∷ after)) at e)))
            (ground arith);
      parent = λ c. ground (arith, t.parent c);
    },
  )

  -- On a well-formed tree `removeChild` takes the first child of a PCB away and returns it; the child
  -- has no parent then, its siblings keep their order, and the tree stays well formed.
  pub remove_child-cons :
      (q c : ℕ) (cs : List ℕ)
      → v.items (p_child q) ≡ some (sibs (c ∷ cs))
      → (remove_child (some q) s ≡ ok (some c) (orphaned c s))
        × Tree (orphaned c s) (leave (p_child q) (p_sib c) (sibs cs) v)
  unfolding remove_child empty_child pcb_of_sib
  remove_child-cons q c cs e = (
    ground (
      arith,
      next_head s.links v (p_child q) (sibs (c ∷ cs)) t.rings e,
      (detach-Tree q c [] cs e).0,
    ),
    (detach-Tree q c [] cs e).1,
  )

  -- Without children it returns null and changes nothing.
  pub remove_child-nil :
      (q : ℕ) → v.items (p_child q) ≡ some [] → remove_child (some q) s ≡ ok none s
  unfolding remove_child empty_child
  remove_child-nil q e = ground (arith, next_head s.links v (p_child q) [] t.rings e)

  -- On a well-formed tree `outChild` takes a child away from its parent, wherever it stands among its
  -- siblings, and returns it; it has no parent then, the siblings keep their order, and the tree stays
  -- well formed.
  pub out_child-found :
      (q p : ℕ) (before after : List ℕ)
      → (s.pcb p).parent ≡ some q
      → v.items (p_child q) ≡ some (sibs (before ++ p ∷ after))
      → (out_child (some p) s ≡ ok (some p) (orphaned p s))
        × Tree (orphaned p s) (leave (p_child q) (p_sib p) (sibs (before ++ after)) v)
  unfolding out_child
  out_child-found q p before after par e =
      (ground (arith, (detach-Tree q p before after e).0), (detach-Tree q p before after e).1)

  pub out_child-orphan : (p : ℕ) → (s.pcb p).parent ≡ none → out_child (some p) s ≡ ok none s
  unfolding out_child
  out_child-orphan p orphan = ground arith

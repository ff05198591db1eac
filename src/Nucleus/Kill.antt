-- ===== src/Nucleus/Kill.antt =====
-- `killProcess` of phase2/functions.c over a whole tree of processes.
use progetto_sistemi_operati.Base.{
  ℕ, zero, suc, ◌+◌, ◌≤◌, ◌<◌, ◌≡◌, ◌≢◌, refl, sym, ◌∙◌, ap, false, none, some, List, [], ◌∷◌, ◌++◌,
  arith, All, NotIn, Distinct, inl, inr, Bool-cases,
}
use progetto_sistemi_operati.Memory.{p_sib, p_child}
use progetto_sistemi_operati.Listx.View.{leave}
use progetto_sistemi_operati.Listx.Sequences.{All-append_left, All-append_right, In-insert}
use progetto_sistemi_operati.Listx.Removal.{
  each, NotIn-append_left, NotIn-append_right, Distinct-append_left, Distinct-append_right,
  All-apart_left, All-map, Distinct-snoc,
}
use progetto_sistemi_operati.Store.{Store, ok}
use progetto_sistemi_operati.Pcb.{max_proc, empty_child, remove_child}
use progetto_sistemi_operati.Pcb.Tree.{
  Tree, sibs, orphaned, empty_child_iff, remove_child-cons, out_child-orphan, out_child-found,
}
use progetto_sistemi_operati.Nucleus.Platform.{Platform}
use progetto_sistemi_operati.Nucleus.Functions.{kill_children, kill, kill_process}
use progetto_sistemi_operati.Nucleus.Kernel.{Lists, Kernel-Tree, Placed}
use progetto_sistemi_operati.Nucleus.Killed.{Killed, Killed-Placed, Killed-append}
use progetto_sistemi_operati.Nucleus.Burial.{bury-Killed}
use progetto_sistemi_operati.Nucleus.Forest.{
  Forest, end, tree, roots, members, size, Grows-same, parted, parted-Kernel, parted-Placed,
  parted-Killed, Orphans, Rooted, Rooted-later,
}

module _ (u : Platform) (c : ℕ) (kids rest : Forest) (p : ℕ) (s : Store) (k : Lists)
    (h : Rooted (tree c kids rest) p s k) where
  abbrev dying : List ℕ
  dying = members kids ++ c ∷ []

  p_apart : NotIn p dying
  p_apart = NotIn-append_left p dying (members rest) h.distinct.0

  dying-Distinct : Distinct dying
  dying-Distinct = Distinct-append_left dying (members rest) h.distinct.1

  c_apart : NotIn c (members kids)
  c_apart = (All-apart_left (members kids) (c ∷ []) dying-Distinct).0

  not_p : All (λ z. NotIn z (p ∷ [])) dying
  not_p = All-apart_left (p ∷ []) dying (p_apart, dying-Distinct)

  c_not_p : c ≢ p
  c_not_p = (All-append_right (λ z. NotIn z (p ∷ [])) (members kids) (c ∷ []) not_p).0.0

  dying-Placed : All (Placed s k) dying
  dying-Placed = All-append_left (Placed s k) dying (members rest) h.placed

  taken :
      (remove_child (some p) s ≡ ok (some c) (orphaned c s))
      × Tree (orphaned c s) (leave (p_child p) (p_sib c) (sibs (roots rest)) k.view)
  taken = remove_child-cons s k.view (Kernel-Tree s k h.kernel) p c (roots rest) h.children

  abbrev s1 : Store
  s1 = orphaned c s

  abbrev k1 : Lists
  k1 = parted s k h.kernel p c (roots rest) taken.1

  k1-Placed : All (Placed s1 k1) dying
  k1-Placed =
      All-map (Placed s k) (Placed s1 k1) (parted-Placed s k h.kernel p c (roots rest) taken.1)
        dying dying-Placed

  kids-Rooted : Rooted kids c s1 k1
  kids-Rooted = record {
    kernel = parted-Kernel s k h.kernel p c (roots rest) taken.1;
    children = ground (arith, c_not_p, h.grows.0);
    grows =
        Grows-same k.view k1.view kids
          (All-map (λ z. NotIn z (p ∷ []))
            (λ z. k1.view.items (p_child z) ≡ k.view.items (p_child z)) (λ z n. ground (arith, n.0))
            (members kids) (All-append_left (λ z. NotIn z (p ∷ [])) (members kids) (c ∷ []) not_p))
          h.grows.1;
    placed = All-append_left (Placed s1 k1) (members kids) (c ∷ []) k1-Placed;
    distinct = (c_apart, Distinct-append_left (members kids) (c ∷ []) dying-Distinct);
  }

  -- The first child, whose own children have ended, is buried.
  record FirstGone (depth : ℕ) : Type 0 where
    pub after : Store
    pub lists : Lists
    pub run : kill u (suc depth) c s1 ≡ ok tt after
    pub killed : Killed u p dying s k after lists
    pub children : lists.view.items (p_child p) ≡ some (sibs (roots rest))

  first_gone : (depth : ℕ) → Orphans u kids c (max_proc + 1) depth s1 k1 → FirstGone depth
  unfolding kill
  first_gone depth o =
      let same : o.after.pcb c ≡ s1.pcb c = o.killed.others c c_apart in
      let alone : (o.after.pcb c).parent ≡ none = ground (arith, same) in
      let (t, l, run, d) =
        bury-Killed u c none o.after o.after o.lists
          (out_child-orphan o.after o.lists.view (Kernel-Tree o.after o.lists o.killed.kernel) c
            alone)
          o.killed.kernel
          (Killed-Placed u c (members kids) s1 k1 o.after o.lists o.killed c c_apart
            (All-append_right (Placed s1 k1) (members kids) (c ∷ []) k1-Placed).0)
          alone o.childless in
      let both =
        Killed-append u c c (members kids) (c ∷ []) dying-Distinct c_apart (λ z ne n. ne) s1 k1
          o.after o.lists t l o.killed d in
      record {
        after = t;
        lists = l;
        run = rw (o.run, run) refl;
        killed =
            parted-Killed s k h.kernel p c (roots rest) taken.1 u dying t l
              (In-insert (members kids) c []) both;
        children = both.children p (λ e. c_not_p (sym e)) p_apart ∙ ground arith;
      }

  rest-Rooted : (depth : ℕ) (g : FirstGone depth) → Rooted rest p g.after g.lists
  rest-Rooted depth g =
      Rooted-later u p dying s k g.after g.lists g.killed rest p g.children h.grows.2
        (All-append_right (Placed s k) dying (members rest) h.placed)
        (
          NotIn-append_right p dying (members rest) h.distinct.0,
          Distinct-append_right dying (members rest) h.distinct.1,
        )
        (All-apart_left (p ∷ dying) (members rest) h.distinct)

  all_gone :
      (rounds depth : ℕ) (g : FirstGone depth)
      → Orphans u rest p rounds (suc depth) g.after g.lists
      → Orphans u (tree c kids rest) p (suc rounds) (suc depth) s k
  unfolding kill_children
  all_gone rounds depth g o =
      let more =
        empty_child_iff s k.view (Kernel-Tree s k h.kernel) p (c ∷ roots rest) h.children in
      let test : empty_child (some p) s ≡ false = elim (Bool-cases (empty_child (some p) s)) [
        | inl none_left ↦ let e = more.0 none_left in cc
        | inr some_left ↦ some_left
      ] in
      record {
        after = o.after;
        lists = o.lists;
        run = rw (test, taken.0, g.run) o.run;
        killed =
            Killed-append u p p dying (members rest) h.distinct.1 p_apart (λ z ne n. ne) s k g.after
              g.lists o.after o.lists g.killed o.killed;
        childless = o.childless;
      }

-- With fuel for the size of the forest, the loop of `killProcess` ends all processes of it.
kill_children-Orphans :
    (u : Platform) (f : Forest) (p rounds depth : ℕ)
    → size f < rounds
    → size f ≤ depth
    → size f ≤ max_proc
    → (s : Store) (k : Lists) → Rooted f p s k
    → Orphans u f p rounds depth s k
unfolding kill_children each
kill_children-Orphans u f p zero depth r d b s k h = absurd (omega arith)
kill_children-Orphans u end p (suc rounds) depth r d b s k h = record {
  after = s;
  lists = k;
  run = rw ((empty_child_iff s k.view (Kernel-Tree s k h.kernel) p [] h.children).1 refl) refl;
  killed = record {
    kernel = h.kernel;
    ready = refl;
    free = refl;
    queues = λ j ne. refl;
    children = λ z ne n. refl;
    owners = λ z n. refl;
    descriptors = λ c g o. (g, o);
    slots = λ d slot. slot;
    others = λ z n. refl;
    over = tt;
    count = refl;
    soft = refl;
    current = refl;
    machine = refl;
    pids = refl;
  };
  childless = h.children;
}
kill_children-Orphans u (tree c kids rest) p (suc rounds) zero r d b s k h = absurd (omega arith)
kill_children-Orphans u (tree c kids rest) p (suc rounds) (suc depth) r d b s k h =
    let first = first_gone u c kids rest p s k h depth (
      kill_children-Orphans u kids c (max_proc + 1) depth (omega arith) (omega arith) (omega arith)
        _ _ (kids-Rooted u c kids rest p s k h)) in
    all_gone u c kids rest p s k h rounds depth first (
      kill_children-Orphans u rest p rounds (suc depth) (omega arith) (omega arith) (omega arith) _
        _ (rest-Rooted u c kids rest p s k h depth first))

module _ (u : Platform) (f : Forest) (p : ℕ) (s : Store) (k : Lists) (h : Rooted f p s k)
    (at : Placed s k p) (fits : size f ≤ max_proc) where
  orphans : Orphans u f p (max_proc + 1) max_proc s k
  orphans = kill_children-Orphans u f p (max_proc + 1) max_proc (omega arith) fits fits s k h

  root_at : Placed orphans.after orphans.lists p
  root_at =
      Killed-Placed u p (members f) s k orphans.after orphans.lists orphans.killed p h.distinct.0 at

  abbrev ended : List ℕ
  ended = members f ++ p ∷ []

  ended-Distinct : Distinct ended
  ended-Distinct = Distinct-snoc (members f) p h.distinct.1 h.distinct.0

  kept_alone : (z : ℕ) → z ≢ p → NotIn z (p ∷ []) → z ≢ p
  kept_alone z ne n = ne

  -- On well-formed lists `killProcess` of a process without parent terminates and ends it with all
  -- its descendants, at most 21 processes in all, the children always before their parent.
  pub kill_process_root :
      (s.pcb p).parent ≡ none
      → (t : Store) × (l : Lists) × (kill_process u (some p) s ≡ ok tt t) × Killed u p ended s k t l
  unfolding kill_process kill
  kill_process_root orphan =
      let o = orphans in
      let alone : (o.after.pcb p).parent ≡ none =
        ap (λ x. x.parent) (o.killed.others p h.distinct.0) ∙ orphan in
      let (t, l, run, d) =
        bury-Killed u p none o.after o.after o.lists
          (out_child-orphan o.after o.lists.view (Kernel-Tree o.after o.lists o.killed.kernel) p
            alone)
          o.killed.kernel root_at alone o.childless in
      (
        t,
        l,
        rw (o.run, run) refl,
        Killed-append u p p (members f) (p ∷ []) ended-Distinct h.distinct.0 kept_alone s k o.after
            o.lists t l o.killed d,
      )

  module _ (q : ℕ) (before after : List ℕ) (par : (s.pcb p).parent ≡ some q)
      (siblings : k.view.items (p_child q) ≡ some (sibs (before ++ p ∷ after))) (other : q ≢ p)
      (outside : NotIn q (members f)) where
    -- The same for a process with a parent, which keeps its other children in order.
    pub kill_process_child :
        (t : Store) × (l : Lists) × (kill_process u (some p) s ≡ ok tt t)
        × Killed u q ended s k t l
        × (l.view.items (p_child q) ≡ some (sibs (before ++ after)))
    unfolding kill_process kill
    kill_process_child =
        let o = orphans in
        let same = o.killed.others p h.distinct.0 in
        let out =
          out_child-found o.after o.lists.view (Kernel-Tree o.after o.lists o.killed.kernel) q p
            before after (ap (λ x. x.parent) same ∙ par)
            (o.killed.children q other outside ∙ siblings) in
        let k' = parted o.after o.lists o.killed.kernel q p (before ++ after) out.1 in
        let (t, l, run, d) =
          bury-Killed u p (some p) o.after (orphaned p o.after) k' out.0
            (parted-Kernel o.after o.lists o.killed.kernel q p (before ++ after) out.1)
            (parted-Placed o.after o.lists o.killed.kernel q p (before ++ after) out.1 p root_at)
            (ground arith) (ground (arith, o.childless, other)) in
        (
          t,
          l,
          rw (o.run, run) refl,
          Killed-append u p q (members f) (p ∷ []) ended-Distinct outside (λ z ne n. n.0) s k
              o.after o.lists t l o.killed
              (parted-Killed o.after o.lists o.killed.kernel q p (before ++ after) out.1 u (p ∷ [])
                t l (inl refl) d),
          d.children q other (other, tt) ∙ ground arith,
        )

-- ===== src/Nucleus/Begun.antt =====
-- `allocPcb` and `insertChild` of phase1/pcb.c on the processes as a whole.
use progetto_sistemi_operati.Base.{
  ℕ, ◌<◌, ◌≡◌, ◌≢◌, refl, sym, ◌∙◌, ap, subst, some, none, inl, inr, List, [], ◌∷◌, arith, In,
  ℕ_discrete, ◌==◌, Bool-cases, eq_of_==,
}
use progetto_sistemi_operati.Memory.{p_list, pcb_free}
use progetto_sistemi_operati.Listx.Counts.{
  count, count-pos, count_self, count-other, count-nil, In-of_count,
}
use progetto_sistemi_operati.Store.{Store, ok}
use progetto_sistemi_operati.Pcb.{max_proc, insert_child}
use progetto_sistemi_operati.Pcb.Queue.{lists}
use progetto_sistemi_operati.Pcb.Free.{after_alloc}
use progetto_sistemi_operati.Pcb.Tree.{adopted}
use progetto_sistemi_operati.Nucleus.Kernel.{Lists}
use progetto_sistemi_operati.Nucleus.Forest.{Forest, end, tree, members}
use progetto_sistemi_operati.Nucleus.Family.{Once, count-tree, Grows-kept, In-rest}
use progetto_sistemi_operati.Nucleus.Graft.{graft, roots-graft, count-graft, Grows-graft}
use progetto_sistemi_operati.Nucleus.Blocking.{owner_before}
use progetto_sistemi_operati.Nucleus.Moves.{Loose}
use progetto_sistemi_operati.Nucleus.Spawning.{handed, spawned, fostered}
use progetto_sistemi_operati.Nucleus.Sound.{Held, roots-In}

module _ (gpr_len : ℕ) (s : Store) (k : Lists) (f : Forest) (h : Held s k f) (p : ℕ) (ps : List ℕ)
    (first : k.free ≡ p ∷ ps) where
  abbrev t : Store
  t = after_alloc gpr_len s p

  abbrev l : Lists
  l = handed s k h.steady p gpr_len ps first

  unused : k.view.owner (p_list p) ≡ some pcb_free
  unused = (h.steady.asl.rings.owned _ _ (h.steady.free ∙ ap (λ qs. some (lists qs)) first)).0

  new : (z : ℕ) → In z (members f) → z ≢ p
  new z i e = (h.live z i).1 (subst (λ a. k.view.owner (p_list a) ≡ some pcb_free) (sym e) unused)

  new_count : count p (members f) ≡ 0
  new_count = elim (Bool-cases (count p (members f) == 0)) [
    | inl e ↦ eq_of_== (count p (members f)) 0 e
    | inr ne ↦ absurd (new p (In-of_count p (members f) (ground arith)) refl)
  ]

  -- The first free PCB becomes the root of a tree of its own.
  pub founded : Held t l (tree p end f)
  founded =
      let (run, steady, loose, alone, parents, kept) = spawned s k h.steady p gpr_len ps first in
      record {
        steady = steady;
        grows = (
          ground arith,
          tt,
          Grows-kept k.view l.view f (λ z i. let ne = new z i in ground (arith, ne)) h.grows,
        );
        once = λ z. elim (Bool-cases (p == z)) [
          | inl same ↦
              let e = eq_of_== p z same in
              let none_old = subst (λ a. count a (members f) ≡ 0) e new_count in
              let one = subst (λ a. count a (p ∷ []) ≡ 1) e (count_self p) in
              omega (arith, count-tree z p end f, count-nil z, none_old, one)
          | inr differ ↦
              omega (arith, count-tree z p end f, count-nil z, count-other z p differ, h.once z)
        ];
        live = λ z i. elim i [
          | inl e ↦ (
            subst (λ a. a < max_proc) (sym e) loose.known,
            λ free. absurd (ground (arith, free, e)),
          )
          | inr i ↦
              let old = h.live z i in
              (old.0, λ free. old.1 (let ne = new z i in ground (arith, ne, free)))
        ];
        alive = λ z lt used. elim (ℕ_discrete z p) [
          | yes e ↦ inl e
          | no ne ↦ inr (h.alive z lt (λ free. used (ground (arith, ne, free))))
        ];
        founders = λ z i. elim i [
          | inl e ↦ subst (λ a. (t.pcb a).parent ≡ none) (sym e) alone
          | inr i ↦ parents z (new z (roots-In z f i)) ∙ h.founders z i
        ];
      }

module _ (s : Store) (k : Lists) (f : Forest) (p : ℕ) (h : Held s k (tree p end f))
    (loose : Loose s k p) (q : ℕ) (other : In q (members f)) where
  differ : q ≢ p
  differ e =
      let one = subst (λ a. count a (p ∷ []) ≡ 1) (sym e) (count_self p) in
      absurd (omega (arith, h.once q, count-tree q p end f, one, count-pos q (members f) other))

  old-Once : Once f
  old-Once z = omega (arith, h.once z, count-tree z p end f)

  same_count : (z : ℕ) → count z (members (graft q p f)) ≡ count z (members (tree p end f))
  same_count z =
      omega (arith, count-graft z q p f old-Once other, count-tree z p end f, count-nil z)

  to_new : (z : ℕ) → In z (members (tree p end f)) → In z (members (graft q p f))
  to_new z i =
      In-of_count z (members (graft q p f))
        (omega (arith, same_count z, count-pos z (members (tree p end f)) i))

  to_old : (z : ℕ) → In z (members (graft q p f)) → In z (members (tree p end f))
  to_old z i =
      In-of_count z (members (tree p end f))
        (omega (arith, same_count z, count-pos z (members (graft q p f)) i))

  not_p : (z : ℕ) → In z (members f) → z ≢ p
  not_p z i e =
      let one = subst (λ a. count a (p ∷ []) ≡ 1) (sym e) (count_self p) in
      absurd (omega (arith, h.once z, count-tree z p end f, one, count-pos z (members f) i))

  -- The root becomes the first child of a process of the other trees.
  pub adopted-Held :
      (l : Lists) × (insert_child (some q) (some p) s ≡ ok tt (adopted q p s))
      × Held (adopted q p s) l (graft q p f)
      × Loose (adopted q p s) l p
      × ((z : ℕ) → Loose s k z → Loose (adopted q p s) l z)
      × ((z : ℕ) → In z (members (tree p end f)) → In z (members (graft q p f)))
  adopted-Held =
      let q_live = h.live q (In-rest q p end f other) in
      let (l, run, steady, apart, kept, same_free, same_kids, (xs, here, more)) =
        fostered s k h.steady p q q_live.0 q_live.1 loose (h.founders p (inl refl)) in
      (
        l,
        run,
        record {
          steady = steady;
          grows =
              Grows-graft k.view l.view q p xs here more
                (same_kids p (λ e. differ (sym e)) ∙ h.grows.0) f (λ z i. same_kids z) old-Once
                h.grows.2;
          once = λ z. omega (arith, h.once z, same_count z);
          live = λ z i.
              let old = h.live z (to_old z i) in
              (
                old.0,
                λ free. old.1 (
                    owner_before s (adopted q p s) k.view l.view pcb_free (p_list z)
                      h.steady.asl.rings steady.asl.rings same_free free),
              );
          alive = λ z lt used. to_new z (
              h.alive z lt (λ free. used (
                owner_before (adopted q p s) s l.view k.view pcb_free (p_list z) steady.asl.rings
                  h.steady.asl.rings (sym same_free) free)));
          founders = λ z i.
              let old = subst (In z) (roots-graft q p f) i in
              let ne = not_p z (roots-In z f old) in
              let root = h.founders z (inr old) in ground (arith, ne, root);
        },
        apart,
        kept,
        to_new,
      )

-- ===== src/Nucleus/Spawning.antt =====
-- A new process on the lists of the whole kernel: `allocPcb` and `insertChild` of phase1/pcb.c.
use progetto_sistemi_operati.Base.{
  ℕ, ◌<◌, ◌≡◌, ◌≢◌, refl, ◌∙◌, ap, subst, none, some, inl, inr, List, [], ◌∷◌, arith, ℕ_discrete,
}
use progetto_sistemi_operati.Memory.{Item, p_list, p_sib, p_child, pcb_free}
use progetto_sistemi_operati.Listx.View.{enter}
use progetto_sistemi_operati.Listx.Queue.{list_add-Rings}
use progetto_sistemi_operati.Store.{Store, ok}
use progetto_sistemi_operati.Pcb.{max_proc, reset_pcb, alloc_pcb, insert_child}
use progetto_sistemi_operati.Pcb.Queue.{lists}
use progetto_sistemi_operati.Pcb.Free.{allocated, after_alloc, alloc_pcb-cons, alloc_pcb-Rings}
use progetto_sistemi_operati.Pcb.Tree.{adopted}
use progetto_sistemi_operati.Nucleus.Wakes.{Asl-same}
use progetto_sistemi_operati.Nucleus.Kernel.{Lists, Placed-same}
use progetto_sistemi_operati.Nucleus.Steady.{Steady}
use progetto_sistemi_operati.Nucleus.Moves.{Loose}

module _ (s : Store) (k : Lists) (h : Steady s k) (p : ℕ) where
  module _ (gpr_len : ℕ) (ps : List ℕ) (first : k.free ≡ p ∷ ps) where
    here : k.view.items pcb_free ≡ some (lists (p ∷ ps))
    here = h.free ∙ ap (λ qs. some (lists qs)) first

    was_free : k.view.owner (p_list p) ≡ some pcb_free
    was_free = (h.asl.rings.owned _ _ here).0

    no_sib : k.view.owner (p_sib p) ≡ none
    no_sib = ground (arith, h.parent p, (h.orphan p was_free).0)

    abbrev pub handed : Lists
    handed = record k { view = allocated p ps k.view; free = ps }

    same_sem : (z : ℕ) → ((after_alloc gpr_len s p).pcb z).sem_add ≡ (s.pcb z).sem_add
    unfolding reset_pcb
    same_sem z = elim (ℕ_discrete z p) [
      | yes e ↦ let old = (h.orphan p was_free).1 in ground (arith, e, old)
      | no ne ↦ ground (arith, ne)
    ]

    -- The first free PCB becomes a process without parent, apart from all lists.
    pub spawned :
        let t = after_alloc gpr_len s p in
        (alloc_pcb gpr_len s ≡ ok (some p) t)
        × Steady t handed
        × Loose t handed p
        × ((t.pcb p).parent ≡ none)
        × ((z : ℕ) → z ≢ p → (t.pcb z).parent ≡ (s.pcb z).parent)
        × ((z : ℕ) → z ≢ p → Loose s k z → Loose t handed z)
    unfolding reset_pcb
    spawned =
        let t = after_alloc gpr_len s p in
        let l = handed in
        (
          alloc_pcb-cons gpr_len s k.view p ps h.asl.rings here (h.childless p was_free) no_sib,
          record {
            asl =
                Asl-same s k.view t l.view refl (λ z. same_sem z) (λ z. ground arith) k.sems k.spare
                  (ground arith) (ground arith)
                  (alloc_pcb-Rings gpr_len s k.view p ps h.asl.rings here (h.childless p was_free)
                    no_sib)
                  h.asl;
            parent = λ c. ground (arith, h.parent c, no_sib);
            queued = ground (arith, h.queued);
            free = ground arith;
            pcbs = λ z g o. h.pcbs z g (ground (arith, o));
            semds = λ d g o. h.semds d g (ground (arith, o));
            slots = λ d lt. elim (h.slots d lt) [
              | inl a ↦ inl (ground (arith, a))
              | inr a ↦ inr (ground (arith, a))
            ];
            placed = λ z lt. elim (ℕ_discrete z p) [
              | yes e ↦ inr (inl (ground (arith, e), inl (ground (arith, e))))
              | no ne ↦ elim (h.placed z lt) [
                | inl free ↦ inl (ground (arith, free, ne))
                | inr at ↦
                    inr (
                      Placed-same s k t l z (ground (arith, ne)) (ground (arith, ne)) (λ b i. i) at)
              ]
            ];
            orphan = λ z free. elim (ℕ_discrete z p) [
              | yes e ↦ absurd (ground (arith, e, free))
              | no ne ↦
                  let old = h.orphan z (ground (arith, ne, free)) in
                  (ground (arith, ne, old.0), ground (arith, ne, old.1))
            ];
            kids = λ z lt used. elim (ℕ_discrete z p) [
              | yes e ↦ ([], ground (arith, e))
              | no ne ↦
                  let (xs, e) = h.kids z lt (λ free. used (ground (arith, ne, free))) in
                  (xs, ground (arith, ne, e))
            ];
            childless = λ z free i o. elim (ℕ_discrete z p) [
              | yes e ↦ absurd (ground (arith, e, free))
              | no ne ↦ h.childless z (ground (arith, ne, free)) i (ground (arith, o))
            ];
          },
          record {
            unlisted = ground arith;
            awake = ground arith;
            known = h.pcbs p pcb_free was_free;
          },
          ground arith,
          λ z ne. ground (arith, ne),
          λ z ne at. record {
            unlisted = ground (arith, ne, at.unlisted);
            awake = ground (arith, ne, at.awake);
            known = at.known;
          },
        )

  -- A process without parent becomes the first child of another.
  module _ (q : ℕ) (known : q < max_proc) (used : k.view.owner (p_list q) ≢ some pcb_free)
      (loose : Loose s k p) (alone : (s.pcb p).parent ≡ none) where
    pub fostered :
        (l : Lists) × (insert_child (some q) (some p) s ≡ ok tt (adopted q p s))
        × Steady (adopted q p s) l
        × Loose (adopted q p s) l p
        × ((z : ℕ) → Loose s k z → Loose (adopted q p s) l z)
        × (l.view.items pcb_free ≡ k.view.items pcb_free)
        × ((z : ℕ) → z ≢ q → l.view.items (p_child z) ≡ k.view.items (p_child z))
        × ((xs : List Item) × (k.view.items (p_child q) ≡ some xs)
            × (l.view.items (p_child q) ≡ some (p_sib p ∷ xs)))
    unfolding insert_child
    fostered =
        let (xs, e) = h.kids q known used in
        let no_parent : k.view.owner (p_sib p) ≡ none = ground (arith, h.parent p, alone) in
        let rings =
          list_add-Rings s.links k.view (p_child q) (p_sib p) xs h.asl.rings e no_parent in
        let l = record k { view = enter (p_child q) (p_sib p) (p_sib p ∷ xs) k.view } in
        let t = adopted q p s in
        (
          l,
          refl,
          record {
            asl =
                Asl-same s k.view t l.view refl (λ z. ground arith) (λ z. ground arith) k.sems
                  k.spare (ground arith) (ground arith) rings h.asl;
            parent = λ c. ground (arith, h.parent c);
            queued = ground (arith, h.queued);
            free = ground (arith, h.free);
            pcbs = λ z g o. h.pcbs z g (ground (arith, o));
            semds = λ d g o. h.semds d g (ground (arith, o));
            slots = λ d lt. elim (h.slots d lt) [
              | inl a ↦ inl (ground (arith, a))
              | inr a ↦ inr (ground (arith, a))
            ];
            placed = λ z lt. elim (h.placed z lt) [
              | inl free ↦ inl (ground (arith, free))
              | inr at ↦ inr (Placed-same s k t l z (ground arith) (ground arith) (λ b i. i) at)
            ];
            orphan = λ z free.
                let was : k.view.owner (p_list z) ≡ some pcb_free = ground (arith, free) in
                let ne : z ≢ p = λ same.
                  let listed : k.view.owner (p_list p) ≡ some pcb_free =
                    subst (λ a. k.view.owner (p_list a) ≡ some pcb_free) same was in
                  absurd (ground (arith, listed, loose.unlisted)) in
                let old = h.orphan z was in (ground (arith, ne, old.0), ground (arith, ne, old.1));
            kids = λ z lt live. elim (ℕ_discrete z q) [
              | yes same ↦ (p_sib p ∷ xs, ground (arith, same))
              | no ne ↦
                  let (ys, f) = h.kids z lt (λ free. live (ground (arith, free))) in
                  (ys, ground (arith, ne, f))
            ];
            childless = λ z free i o.
                let was : k.view.owner (p_list z) ≡ some pcb_free = ground (arith, free) in
                let ne : z ≢ q =
                  λ same. used (subst (λ a. k.view.owner (p_list a) ≡ some pcb_free) same was) in
                h.childless z was i (ground (arith, o, ne));
          },
          record {
            unlisted = ground (arith, loose.unlisted);
            awake = ground (arith, loose.awake);
            known = loose.known;
          },
          λ z at. record {
            unlisted = ground (arith, at.unlisted);
            awake = ground (arith, at.awake);
            known = at.known;
          },
          ground arith,
          λ z ne. ground (arith, ne),
          (xs, e, ground arith),
        )

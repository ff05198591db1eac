-- ===== src/Nucleus/Killing.antt =====
-- The lists of the whole kernel behind `killProcess` of phase2/functions.c.
use progetto_sistemi_operati.Base.{
  ℕ, ◌<◌, ◌≡◌, ◌≢◌, sym, ◌∙◌, ap, subst, some, ◌⊎◌, inl, inr, List, [], ◌∷◌, In, NotIn, ℕ_discrete,
}
use progetto_sistemi_operati.Memory.{Item, p_list, p_child, pcb_free}
use progetto_sistemi_operati.Listx.Removal.{each, In-cases, All-at}
use progetto_sistemi_operati.Store.{Store}
use progetto_sistemi_operati.Pcb.{max_proc}
use progetto_sistemi_operati.Pcb.Queue.{lists}
use progetto_sistemi_operati.Nucleus.Platform.{Platform}
use progetto_sistemi_operati.Nucleus.Kernel.{Lists}
use progetto_sistemi_operati.Nucleus.Killed.{Over, Killed, Killed-Placed}
use progetto_sistemi_operati.Nucleus.Blocking.{owner_before}
use progetto_sistemi_operati.Nucleus.Steady.{Steady}

-- The PCBs that have ended are free.
In-each_cons : (z : ℕ) (dead ps : List ℕ) → In z dead ⊎ In z ps → In z (each ◌∷◌ dead ps)
unfolding each
In-each_cons z [] ps (inl i) = absurd i
In-each_cons z [] ps (inr i) = i
In-each_cons z (m ∷ dead) ps (inl (inl e)) = In-each_cons z dead (m ∷ ps) (inr (inl e))
In-each_cons z (m ∷ dead) ps (inl (inr i)) = In-each_cons z dead (m ∷ ps) (inl i)
In-each_cons z (m ∷ dead) ps (inr i) = In-each_cons z dead (m ∷ ps) (inr (inr i))

In-lists : (p : ℕ) (qs : List ℕ) → In p qs → In (p_list p) (lists qs)
In-lists p [] i = i
In-lists p (q ∷ qs) (inl e) = inl (ap p_list e)
In-lists p (q ∷ qs) (inr i) = inr (In-lists p qs i)

module _ (u : Platform) (q : ℕ) (dead : List ℕ) (s : Store) (k : Lists) (t : Store) (l : Lists)
    (h : Steady s k) (d : Killed u q dead s k t l) (known : (z : ℕ) → In z dead → z < max_proc)
    (live : (z : ℕ) → k.view.owner (p_list z) ≡ some pcb_free → NotIn z dead)
    (kept : k.view.owner (p_list q) ≢ some pcb_free)
    (children : NotIn q dead → (xs : List Item) × (l.view.items (p_child q) ≡ some xs)) where
  pub dead_free : (z : ℕ) → In z dead → l.view.owner (p_list z) ≡ some pcb_free
  dead_free z i =
      let listed : In z l.free = rw d.free (In-each_cons z dead k.free (inl i)) in
      All-at (λ j. l.view.owner j ≡ some pcb_free) (p_list z) (lists l.free)
        (d.kernel.asl.rings.owned _ _ d.kernel.free) (In-lists z l.free listed)

  Over-at : (z : ℕ) → In z dead → Over t l z
  Over-at z i = All-at (Over t l) z dead d.over i

  vacant :
      (z : ℕ) → l.view.items (p_child z) ≡ some [] → (i : Item) → l.view.owner i ≢ some (p_child z)
  vacant z e i o =
      let at = d.kernel.asl.rings.listed i (p_child z) o in
      let none_in : at.0 ≡ [] = some_inj (sym at.1 ∙ e) in subst (In i) none_in at.2
    where
      some_inj : {xs ys : List Item} → some xs ≡ some ys → xs ≡ ys
      some_inj e = cc

  -- The end of processes keeps everything in its place.
  pub Killed-Steady : Steady t l
  Killed-Steady = record {
    asl = d.kernel.asl;
    parent = d.kernel.parent;
    queued = d.kernel.queued;
    free = d.kernel.free;
    pcbs = λ z g o. elim (In-cases z dead) [
      | inl i ↦ known z i
      | inr out ↦ h.pcbs z g (sym (d.owners z out) ∙ o)
    ];
    semds = λ e g o. let old = d.descriptors e g o in h.semds e old.0 old.1;
    slots = λ e lt. d.slots e (h.slots e lt);
    placed = λ z lt. elim (In-cases z dead) [
      | inl i ↦ inl (dead_free z i)
      | inr out ↦ elim (h.placed z lt) [
        | inl free ↦ inl (d.owners z out ∙ free)
        | inr at ↦ inr (Killed-Placed u q dead s k t l d z out at)
      ]
    ];
    orphan = λ z free. elim (In-cases z dead) [
      | inl i ↦ ((Over-at z i).parent, (Over-at z i).awake)
      | inr out ↦
          let old = h.orphan z (sym (d.owners z out) ∙ free) in
          let same = d.others z out in
          (ap (λ x. x.parent) same ∙ old.0, ap (λ x. x.sem_add) same ∙ old.1)
    ];
    kids = λ z lt used. elim (In-cases z dead) [
      | inl i ↦ absurd (used (dead_free z i))
      | inr out ↦ elim (ℕ_discrete z q) [
        | yes e ↦
            let (xs, f) = children (subst (λ a. NotIn a dead) e out) in
            (xs, subst (λ a. l.view.items (p_child a) ≡ some xs) (sym e) f)
        | no ne ↦
            let (xs, f) = h.kids z lt (λ free. used (d.owners z out ∙ free)) in
            (xs, d.children z ne out ∙ f)
      ]
    ];
    childless = λ z free i. elim (In-cases z dead) [
      | inl dies ↦ vacant z (Over-at z dies).childless i
      | inr out ↦ λ o.
          let was : k.view.owner (p_list z) ≡ some pcb_free = sym (d.owners z out) ∙ free in
          let ne : z ≢ q = λ e. kept (subst (λ a. k.view.owner (p_list a) ≡ some pcb_free) e was) in
          h.childless z was i (
            owner_before s t k.view l.view (p_child z) i h.asl.rings d.kernel.asl.rings
              (d.children z ne out) o)
    ];
  }

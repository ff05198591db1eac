-- ===== src/Nucleus/Ended.antt =====
-- `killProcess` of phase2/functions.c on the processes as a whole.
use progetto_sistemi_operati.Base.{
  ℕ, ◌+◌, ◌≤◌, ◌<◌, ◌≡◌, ◌≢◌, refl, sym, ◌∙◌, ap, subst, some, none, inl, inr, List, Option, [],
  ◌∷◌, ◌++◌, arith, length, All, In, NotIn, Bool-cases, ◌==◌, eq_of_==,
}
use progetto_sistemi_operati.Memory.{Item, p_list, p_sib, p_child, pcb_free}
use progetto_sistemi_operati.Listx.Removal.{
  erase, erase-mid, Spot, spot, All-at, In-NotIn, In-cases, length-le_bound, NotIn-append_left,
}
use progetto_sistemi_operati.Listx.Counts.{
  count, count-append, count-pos, count_self, In-of_count, NotIn-of_count, Distinct-of_count,
}
use progetto_sistemi_operati.Store.{Store, ok}
use progetto_sistemi_operati.Pcb.{max_proc}
use progetto_sistemi_operati.Pcb.Tree.{sibs, child_of}
use progetto_sistemi_operati.Nucleus.Platform.{Platform}
use progetto_sistemi_operati.Nucleus.Functions.{kill_process}
use progetto_sistemi_operati.Nucleus.Kernel.{Lists, Placed}
use progetto_sistemi_operati.Nucleus.Killed.{Killed}
use progetto_sistemi_operati.Nucleus.Forest.{Forest, end, tree, roots, members, size, Grows, Rooted}
use progetto_sistemi_operati.Nucleus.Kill.{kill_process_root, kill_process_child}
use progetto_sistemi_operati.Nucleus.Family.{Part, AtRoot, Below, stand}
use progetto_sistemi_operati.Nucleus.Killing.{dead_free, Killed-Steady}
use progetto_sistemi_operati.Nucleus.Steady.{Steady-Kernel}
use progetto_sistemi_operati.Nucleus.Sound.{Held, roots-In}

length-append : (xs ys : List ℕ) → length (xs ++ ys) ≡ length xs + length ys
length-append [] ys = omega arith
length-append (x ∷ xs) ys = omega (arith, length-append xs ys)

length-members : (f : Forest) → length (members f) ≡ size f
length-members end = refl
length-members (tree c kids rest) = omega (
  arith,
  length-append (members kids ++ c ∷ []) (members rest),
  length-append (members kids) (c ∷ []),
  length-members kids,
  length-members rest,
)

All-of_In : {A : ℕ → Type 0} (xs : List ℕ) → ((z : ℕ) → In z xs → A z) → All A xs
All-of_In [] f = tt
All-of_In (x ∷ xs) f = (f x (inl refl), All-of_In xs (λ z i. f z (inr i)))

In-sibs : (z : ℕ) (ps : List ℕ) → In z ps → In (p_sib z) (sibs ps)
In-sibs z [] i = i
In-sibs z (p ∷ ps) (inl e) = inl (ap p_sib e)
In-sibs z (p ∷ ps) (inr i) = inr (In-sibs z ps i)

erase-In : (z p : ℕ) (qs : List ℕ) → In z (erase p qs) → In z qs
unfolding erase
erase-In z p [] i = i
erase-In z p (q ∷ qs) i = elim (Bool-cases (q == p)) [
  | inl same ↦ inr (rw same at i)
  | inr differ ↦ elim (rw differ at i) [ inl e ↦ inl e | inr j ↦ inr (erase-In z p qs j) ]
]

module _ (u : Platform) (p : ℕ) (s : Store) (k : Lists) (f : Forest) (h : Held s k f)
    (part : Part k.view p f) where
  abbrev dead : List ℕ
  dead = members part.kids ++ p ∷ []

  count-dead : (z : ℕ) → count z dead ≡ count z (members part.kids) + count z (p ∷ [])
  count-dead z = count-append z (members part.kids) (p ∷ [])

  dead-In : (z : ℕ) → In z dead → In z (members f)
  dead-In z i =
      In-of_count z (members f) (omega (arith, part.split z, count-dead z, count-pos z dead i))

  rest-In : (z : ℕ) → In z (members part.rest) → In z (members f)
  rest-In z i =
      In-of_count z (members f) (omega (arith, part.split z, count-pos z (members part.rest) i))

  rest_out : (z : ℕ) → In z (members part.rest) → NotIn z dead
  rest_out z i =
      NotIn-of_count z dead
        (omega (arith, part.split z, h.once z, count-dead z, count-pos z (members part.rest) i))

  kids_once : (z : ℕ) → count z (members part.kids) ≤ 1
  kids_once z = omega (arith, part.split z, h.once z)

  kid-In : (z : ℕ) → In z (members part.kids) → In z (members f)
  kid-In z i =
      In-of_count z (members f) (omega (arith, part.split z, count-pos z (members part.kids) i))

  fits : size part.kids ≤ max_proc
  fits =
      let few =
        length-le_bound max_proc (members part.kids)
          (Distinct-of_count (members part.kids) kids_once)
          (All-of_In (members part.kids) (λ z i. (h.live z (kid-In z i)).0)) in
      omega (arith, few, length-members part.kids)

  p-In : In p (members f)
  p-In = In-of_count p (members f) (omega (arith, part.split p, count_self p))

  stands : (z : ℕ) → In z (members f) → Placed s k z
  stands z i =
      let at = h.live z i in
      elim (h.steady.placed z at.0) [ inl free ↦ absurd (at.1 free) | inr placed ↦ placed ]

  rooted : Rooted part.kids p s k
  rooted = record {
    kernel = Steady-Kernel s k h.steady;
    children = part.here;
    grows = part.grows;
    placed = All-of_In (members part.kids) (λ z i. stands z (kid-In z i));
    distinct = (
      NotIn-of_count p (members part.kids) (omega (arith, part.split p, h.once p, count_self p)),
      Distinct-of_count (members part.kids) kids_once,
    );
  }

  module _ (q : ℕ) (t : Store) (l : Lists) (d : Killed u q dead s k t l)
      (q_used : k.view.owner (p_list q) ≢ some pcb_free)
      (q_kids : NotIn q dead → (xs : List Item) × (l.view.items (p_child q) ≡ some xs))
      (grown : Grows l.view part.rest)
      (sub : (z : ℕ) → In z (roots part.rest) → In z (roots f)) where
    known : (z : ℕ) → In z dead → z < max_proc
    known z i = (h.live z (dead-In z i)).0

    used : (z : ℕ) → k.view.owner (p_list z) ≡ some pcb_free → NotIn z dead
    used z free = elim (In-cases z dead) [
      | inl i ↦ absurd ((h.live z (dead-In z i)).1 free)
      | inr out ↦ out
    ]

    ended-Held : Held t l part.rest
    ended-Held = record {
      steady = Killed-Steady u q dead s k t l h.steady d known used q_used q_kids;
      grows = grown;
      once = λ z. omega (arith, part.split z, h.once z);
      live = λ z i.
          let old = h.live z (rest-In z i) in
          (old.0, λ free. old.1 (sym (d.owners z (rest_out z i)) ∙ free));
      alive = λ z lt live. elim (In-cases z dead) [
        | inl i ↦ absurd (live (dead_free u q dead s k t l h.steady d known used q_used q_kids z i))
        | inr out ↦ stays z out (h.alive z lt (λ free. live (d.owners z out ∙ free)))
      ];
      founders = λ z i.
          ap (λ x. x.parent) (d.others z (rest_out z (roots-In z part.rest i)))
          ∙ h.founders z (sub z i);
    }
      where
        stays : (z : ℕ) → NotIn z dead → In z (members f) → In z (members part.rest)
        stays z out i = elim (Bool-cases (count z (members part.rest) == 0)) [
          | inl none_left ↦
              let gone = eq_of_== (count z (members part.rest)) 0 none_left in
              absurd (
                In-NotIn z dead
                  (In-of_count z dead
                    (omega (arith, part.split z, count-dead z, gone, count-pos z (members f) i)))
                  out)
          | inr some_left ↦ In-of_count z (members part.rest) (ground arith)
        ]

child_inj : (o : Option ℕ) (q : ℕ) → some (p_child q) ≡ child_of o → o ≡ some q
child_inj none q e = cc
child_inj (some r) q e = cc

module _ (u : Platform) (p : ℕ) (s : Store) (k : Lists) (f : Forest) (h : Held s k f) where
  abbrev Ended : Type 0
  Ended =
      (t : Store) × (l : Lists) × (g : Forest) × (kill_process u (some p) s ≡ ok tt t)
      × Held t l g
      × (t.current_process ≡ s.current_process)

  at_root : AtRoot k.view p f → Ended
  at_root a =
      let part = a.part in
      let (t, l, run, d) =
        kill_process_root u part.kids p s k (rooted u p s k f h part)
          (stands u p s k f h part p (p-In u p s k f h part)) (fits u p s k f h part)
          (h.founders p a.root) in
      let self_dead : NotIn p (dead u p s k f h part) → ⊥ = λ n.
        In-NotIn p (dead u p s k f h part)
          (In-of_count p (dead u p s k f h part)
            (omega (arith, count-dead u p s k f h part p, count_self p)))
          n in
      (
        t,
        l,
        part.rest,
        run,
        ended-Held u p s k f h part p t l d (h.live p (p-In u p s k f h part)).1
            (λ n. absurd (self_dead n))
            (a.regrow l.view (λ z i.
              let out = rest_out u p s k f h part z i in
              d.children z (λ e. self_dead (subst (λ c. NotIn c (dead u p s k f h part)) e out))
                out))
            (λ z i. erase-In z p (roots f) (subst (In z) a.roots_left i)),
        d.current,
      )

  below : Below k.view p f → Ended
  below b =
      let part = b.part in
      let at : Spot p b.cs = elim (spot p b.cs) [
        | inl at ↦ at
        | inr out ↦ absurd (In-NotIn p b.cs b.child out)
      ] in
      let siblings : k.view.items (p_child b.q) ≡ some (sibs (at.front ++ p ∷ at.back)) =
        b.siblings ∙ ap (λ cs. some (sibs cs)) at.split in
      let fewer : erase p b.cs ≡ at.front ++ at.back =
        ap (erase p) at.split ∙ erase-mid p at.front at.back at.first in
      let owned : k.view.owner (p_sib p) ≡ some (p_child b.q) =
        All-at (λ i. k.view.owner i ≡ some (p_child b.q)) (p_sib p) (sibs b.cs)
          (h.steady.asl.rings.owned _ _ b.siblings) (In-sibs p b.cs b.child) in
      let par : (s.pcb p).parent ≡ some b.q =
        child_inj (s.pcb p).parent b.q (sym owned ∙ h.steady.parent p) in
      let q_out = rest_out u p s k f h part b.q b.stays in
      let other : b.q ≢ p = λ e.
        In-NotIn p (dead u p s k f h part)
          (In-of_count p (dead u p s k f h part)
            (omega (arith, count-dead u p s k f h part p, count_self p)))
          (subst (λ c. NotIn c (dead u p s k f h part)) e q_out) in
      let (t, l, run, d, left) =
        kill_process_child u part.kids p s k (rooted u p s k f h part)
          (stands u p s k f h part p (p-In u p s k f h part)) (fits u p s k f h part) b.q at.front
          at.back par siblings other (NotIn-append_left b.q (members part.kids) (p ∷ []) q_out) in
      (
        t,
        l,
        part.rest,
        run,
        ended-Held u p s k f h part b.q t l d (h.live b.q (rest-In u p s k f h part b.q b.stays)).1
            (λ n. (sibs (at.front ++ at.back), left))
            (b.regrow l.view (λ z i ne. d.children z ne (rest_out u p s k f h part z i))
              (left ∙ ap (λ cs. some (sibs cs)) (sym fewer)))
            (λ z i. subst (In z) b.roots_same i),
        d.current,
      )

  -- `killProcess` of a process in use terminates, and the processes that are left hold.
  pub kill_process-Held : In p (members f) → Ended
  kill_process-Held i = elim (stand k.view p f h.grows h.once i) [
    | inl a ↦ at_root a
    | inr b ↦ below b
  ]

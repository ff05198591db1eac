-- ===== src/Nucleus/Graft.antt =====
-- The forest of processes with a new one.
use progetto_sistemi_operati.Base.{
  ℕ, ◌+◌, ◌≡◌, ◌≢◌, refl, sym, ◌∙◌, ap, subst, some, false, inl, inr, List, [], ◌∷◌, arith, In,
  Bool-cases, ◌==◌, eq_of_==, if◌then◌else◌,
}
use progetto_sistemi_operati.Memory.{Item, p_sib, p_child}
use progetto_sistemi_operati.Listx.View.{View}
use progetto_sistemi_operati.Listx.Counts.{
  count, count-pos, count_self, count-other, count-nil, In-of_count,
}
use progetto_sistemi_operati.Pcb.Tree.{sibs}
use progetto_sistemi_operati.Nucleus.Forest.{Forest, end, tree, roots, members, Grows}
use progetto_sistemi_operati.Nucleus.Family.{
  Once, count-tree, In-kids, In-rest, In-root, Grows-kept, not_root_kids, not_root_rest,
}

-- The new process `p`, without children, is the first child of `q`.
pub graft : ℕ → ℕ → Forest → Forest
graft q p end = end
graft q p (tree c kids rest) =
    if c == q then tree c (tree p end kids) rest else tree c (graft q p kids) (graft q p rest)

graft-missing : (q p : ℕ) (f : Forest) → count q (members f) ≡ 0 → graft q p f ≡ f
unfolding graft
graft-missing q p end e = refl
graft-missing q p (tree c kids rest) e =
    let parts = count-tree q c kids rest in
    let differ : (c == q) ≡ false = elim (Bool-cases (c == q)) [
      | inl same ↦
          let one : count q (c ∷ []) ≡ 1 =
            subst (λ a. count q (a ∷ []) ≡ 1) (sym (eq_of_== c q same)) (count_self q) in
          absurd (omega (arith, parts, one))
      | inr differ ↦ differ
    ] in
    rw (
      differ,
      graft-missing q p kids (omega (arith, parts)),
      graft-missing q p rest (omega (arith, parts)),
    )

pub roots-graft : (q p : ℕ) (f : Forest) → roots (graft q p f) ≡ roots f
unfolding graft
roots-graft q p end = refl
roots-graft q p (tree c kids rest) = elim (Bool-cases (c == q)) [
  | inl same ↦ rw same refl
  | inr differ ↦ rw differ (ap (◌∷◌ c) (roots-graft q p rest))
]

pub count-graft :
    (z q p : ℕ) (f : Forest)
    → Once f
    → In q (members f)
    → count z (members (graft q p f)) ≡ count z (p ∷ []) + count z (members f)
unfolding graft
count-graft z q p end once i = absurd i
count-graft z q p (tree c kids rest) once i = elim (Bool-cases (c == q)) [
  | inl same ↦ rw same (
      omega (
        arith,
        count-tree z c (tree p end kids) rest,
        count-tree z p end kids,
        count-tree z c kids rest,
        count-nil z,
      ))
  | inr differ ↦
      let parts = count-tree q c kids rest in
      let some_in = count-pos q (members (tree c kids rest)) i in
      let one = once q in
      let not_c = count-other q c differ in
      let kids_once : Once kids = λ y. omega (arith, once y, count-tree y c kids rest) in
      let rest_once : Once rest = λ y. omega (arith, once y, count-tree y c kids rest) in
      rw differ (elim (Bool-cases (count q (members kids) == 0)) [
        | inl out ↦
            let gone : count q (members kids) ≡ 0 = eq_of_== (count q (members kids)) 0 out in
            let same = ap (λ f. count z (members f)) (graft-missing q p kids gone) in
            let later =
              count-graft z q p rest rest_once (In-of_count q (members rest) (omega arith)) in
            omega (
              arith,
              count-tree z c (graft q p kids) (graft q p rest),
              same,
              later,
              count-tree z c kids rest,
            )
        | inr below ↦
            let gone : count q (members rest) ≡ 0 = ground (arith, below, parts, one) in
            let same = ap (λ f. count z (members f)) (graft-missing q p rest gone) in
            let later =
              count-graft z q p kids kids_once (In-of_count q (members kids) (omega arith)) in
            omega (
              arith,
              count-tree z c (graft q p kids) (graft q p rest),
              same,
              later,
              count-tree z c kids rest,
            )
      ])
]

some_inj : {A : Type 0} {a b : A} → some a ≡ some b → a ≡ b
some_inj e = cc

module _ (v w : View) (q p : ℕ) (xs : List Item) (here : v.items (p_child q) ≡ some xs)
    (more : w.items (p_child q) ≡ some (p_sib p ∷ xs)) (fresh : w.items (p_child p) ≡ some []) where
  pub Grows-graft :
      (f : Forest)
      → ((z : ℕ) → In z (members f) → z ≢ q → w.items (p_child z) ≡ v.items (p_child z))
      → Once f
      → Grows v f
      → Grows w (graft q p f)
  unfolding graft
  Grows-graft end same once g = tt
  Grows-graft (tree c kids rest) same once g = elim (Bool-cases (c == q)) [
    | inl at ↦
        let e : c ≡ q = eq_of_== c q at in
        let old : xs ≡ sibs (roots kids) =
          some_inj (sym here ∙ ap (λ a. v.items (p_child a)) (sym e) ∙ g.0) in
        rw at (
          ap (λ a. w.items (p_child a)) e ∙ more ∙ ap (λ ys. some (p_sib p ∷ ys)) old,
          (
            fresh,
            tt,
            Grows-kept v w kids
                (λ z i. same z (In-kids z c kids rest i) (λ f.
                  not_root_kids v p c kids rest g once z (count-pos z (members kids) i)
                    (f ∙ sym e)))
                g.1,
          ),
          Grows-kept v w rest
              (λ z i. same z (In-rest z c kids rest i) (λ f.
                not_root_rest v p c kids rest g once z (count-pos z (members rest) i) (f ∙ sym e)))
              g.2,
        )
    | inr ne ↦ rw ne (
      same c (In-root c kids rest) (λ e. absurd (ground (arith, ne, e)))
          ∙ g.0
          ∙ ap (λ r. some (sibs r)) (sym (roots-graft q p kids)),
      Grows-graft kids (λ z i. same z (In-kids z c kids rest i))
          (λ z. omega (arith, once z, count-tree z c kids rest)) g.1,
      Grows-graft rest (λ z i. same z (In-rest z c kids rest i))
          (λ z. omega (arith, once z, count-tree z c kids rest)) g.2,
    )
  ]

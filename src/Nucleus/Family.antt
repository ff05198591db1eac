-- ===== src/Nucleus/Family.antt =====
-- The processes of the kernel as a forest: where a process stands in it, and what is left without
-- it and its descendants.
use progetto_sistemi_operati.Base.{
  ℕ, ◌+◌, ◌≤◌, ◌<◌, ◌≡◌, ◌≢◌, refl, sym, ◌∙◌, ap, subst, some, ◌⊎◌, inl, inr, List, [], ◌∷◌, ◌++◌,
  arith, In,
}
use progetto_sistemi_operati.Memory.{p_child}
use progetto_sistemi_operati.Listx.View.{View}
use progetto_sistemi_operati.Listx.Removal.{erase, In-append_cases}
use progetto_sistemi_operati.Listx.Counts.{count, count-append, count-pos, count_self, In-of_count}
use progetto_sistemi_operati.Pcb.Tree.{sibs}
use progetto_sistemi_operati.Nucleus.Forest.{Forest, end, tree, roots, members, Grows}

pub count-tree :
    (z c : ℕ) (kids rest : Forest)
    → count z (members (tree c kids rest))
      ≡ count z (members kids) + count z (c ∷ []) + count z (members rest)
count-tree z c kids rest =
    count-append z (members kids ++ c ∷ []) (members rest)
    ∙ ap (λ n. n + count z (members rest)) (count-append z (members kids) (c ∷ []))

-- The process `p` with its descendants, and the rest of the forest.
pub record Part (v : View) (p : ℕ) (f : Forest) : Type 0 where
  pub kids : Forest
  pub rest : Forest
  pub here : v.items (p_child p) ≡ some (sibs (roots kids))
  pub grows : Grows v kids
  pub split :
      (z : ℕ)
      → count z (members f) ≡ count z (members kids) + count z (p ∷ []) + count z (members rest)

-- It is one of the roots.
pub record AtRoot (v : View) (p : ℕ) (f : Forest) : Type 0 where
  pub part : Part v p f
  pub root : In p (roots f)
  pub roots_left : roots part.rest ≡ erase p (roots f)
  pub regrow :
      (w : View)
      → ((z : ℕ) → In z (members part.rest) → w.items (p_child z) ≡ v.items (p_child z))
      → Grows w part.rest

-- It is a child of `q`, whose children are `cs`.
pub record Below (v : View) (p : ℕ) (f : Forest) : Type 0 where
  pub part : Part v p f
  pub q : ℕ
  pub cs : List ℕ
  pub child : In p cs
  pub siblings : v.items (p_child q) ≡ some (sibs cs)
  pub stays : In q (members part.rest)
  pub roots_same : roots part.rest ≡ roots f
  pub regrow :
      (w : View)
      → ((z : ℕ) → In z (members part.rest) → z ≢ q → w.items (p_child z) ≡ v.items (p_child z))
      → w.items (p_child q) ≡ some (sibs (erase p cs))
      → Grows w part.rest

pub In-kids :
    (z c : ℕ) (kids rest : Forest) → In z (members kids) → In z (members (tree c kids rest))
In-kids z c kids rest i =
    In-of_count z (members (tree c kids rest))
      (omega (arith, count-tree z c kids rest, count-pos z (members kids) i))

pub In-rest :
    (z c : ℕ) (kids rest : Forest) → In z (members rest) → In z (members (tree c kids rest))
In-rest z c kids rest i =
    In-of_count z (members (tree c kids rest))
      (omega (arith, count-tree z c kids rest, count-pos z (members rest) i))

pub In-root : (c : ℕ) (kids rest : Forest) → In c (members (tree c kids rest))
In-root c kids rest =
    In-of_count c (members (tree c kids rest))
      (omega (arith, count-tree c c kids rest, count_self c))

pub Grows-kept :
    (v w : View) (f : Forest)
    → ((z : ℕ) → In z (members f) → w.items (p_child z) ≡ v.items (p_child z))
    → Grows v f
    → Grows w f
Grows-kept v w end same g = tt
Grows-kept v w (tree c kids rest) same g = (
  same c (In-root c kids rest) ∙ g.0,
  Grows-kept v w kids (λ z i. same z (In-kids z c kids rest i)) g.1,
  Grows-kept v w rest (λ z i. same z (In-rest z c kids rest i)) g.2,
)

-- No process stands in the forest twice.
abbrev pub Once : Forest → Type 0
Once f = (z : ℕ) → count z (members f) ≤ 1

module _ (v : View) (p c : ℕ) (kids rest : Forest) (g : Grows v (tree c kids rest))
    (once : Once (tree c kids rest)) where
  -- No process stands in the forest twice.
  root_kids : count c (members kids) ≡ 0
  root_kids = omega (arith, once c, count-tree c c kids rest, count_self c)

  root_rest : count c (members rest) ≡ 0
  root_rest = omega (arith, once c, count-tree c c kids rest, count_self c)

  pub not_root_kids : (z : ℕ) → 0 < count z (members kids) → z ≢ c
  not_root_kids z lt e =
      absurd (omega (arith, subst (λ a. 0 < count a (members kids)) e lt, root_kids))

  pub not_root_rest : (z : ℕ) → 0 < count z (members rest) → z ≢ c
  not_root_rest z lt e =
      absurd (omega (arith, subst (λ a. 0 < count a (members rest)) e lt, root_rest))

  not_both : (z y : ℕ) → 0 < count z (members kids) → 0 < count y (members rest) → z ≢ y
  not_both z y lt lt' e = absurd (
      omega (
        arith,
        once y,
        count-tree y c kids rest,
        subst (λ a. 0 < count a (members kids)) e lt,
        lt',
      ))

  at_top : p ≡ c → AtRoot v p (tree c kids rest)
  unfolding erase
  at_top e = record {
    part = record {
      kids = kids;
      rest = rest;
      here = subst (λ a. v.items (p_child a) ≡ some (sibs (roots kids))) (sym e) g.0;
      grows = g.1;
      split = λ z.
          count-tree z c kids rest
          ∙ ap (λ a. count z (members kids) + count z (a ∷ []) + count z (members rest)) (sym e);
    };
    root = inl e;
    roots_left = ground (arith, e);
    regrow = λ w same. Grows-kept v w rest same g.2;
  }

  Below-top : AtRoot v p kids → Below v p (tree c kids rest)
  Below-top a = record {
    part = record {
      kids = a.part.kids;
      rest = tree c a.part.rest rest;
      here = a.part.here;
      grows = a.part.grows;
      split = λ z.
          omega (arith, count-tree z c kids rest, a.part.split z, count-tree z c a.part.rest rest);
    };
    q = c;
    cs = roots kids;
    child = a.root;
    siblings = g.0;
    stays = In-root c a.part.rest rest;
    roots_same = refl;
    regrow = λ w same fewer. (
      fewer ∙ ap (λ r. some (sibs r)) (sym a.roots_left),
      a.regrow w (λ z i.
          same z (In-kids z c a.part.rest rest i)
            (not_root_kids z (omega (arith, a.part.split z, count-pos z (members a.part.rest) i)))),
      Grows-kept v w rest
          (λ z i.
            same z (In-rest z c a.part.rest rest i)
              (not_root_rest z (count-pos z (members rest) i)))
          g.2,
    );
  }

  Below-kids : Below v p kids → Below v p (tree c kids rest)
  Below-kids b = record {
    part = record {
      kids = b.part.kids;
      rest = tree c b.part.rest rest;
      here = b.part.here;
      grows = b.part.grows;
      split = λ z.
          omega (arith, count-tree z c kids rest, b.part.split z, count-tree z c b.part.rest rest);
    };
    q = b.q;
    cs = b.cs;
    child = b.child;
    siblings = b.siblings;
    stays = In-kids b.q c b.part.rest rest b.stays;
    roots_same = refl;
    regrow = λ w same fewer.
        let q_in : 0 < count b.q (members kids) =
          omega (arith, b.part.split b.q, count-pos b.q (members b.part.rest) b.stays) in
        (
          same c (In-root c b.part.rest rest) (λ e. not_root_kids b.q q_in (sym e))
              ∙ g.0
              ∙ ap (λ r. some (sibs r)) (sym b.roots_same),
          b.regrow w (λ z i. same z (In-kids z c b.part.rest rest i)) fewer,
          Grows-kept v w rest
              (λ z i.
                same z (In-rest z c b.part.rest rest i)
                  (λ e. not_both b.q z q_in (count-pos z (members rest) i) (sym e)))
              g.2,
        );
  }

  root_later : p ≢ c → AtRoot v p rest → AtRoot v p (tree c kids rest)
  unfolding erase
  root_later ne a = record {
    part = record {
      kids = a.part.kids;
      rest = tree c kids a.part.rest;
      here = a.part.here;
      grows = a.part.grows;
      split = λ z.
          omega (arith, count-tree z c kids rest, a.part.split z, count-tree z c kids a.part.rest);
    };
    root = inr a.root;
    roots_left = ground (arith, ne, a.roots_left);
    regrow = λ w same. (
      same c (In-root c kids a.part.rest) ∙ g.0,
      Grows-kept v w kids (λ z i. same z (In-kids z c kids a.part.rest i)) g.1,
      a.regrow w (λ z i. same z (In-rest z c kids a.part.rest i)),
    );
  }

  Below-later : Below v p rest → Below v p (tree c kids rest)
  Below-later b = record {
    part = record {
      kids = b.part.kids;
      rest = tree c kids b.part.rest;
      here = b.part.here;
      grows = b.part.grows;
      split = λ z.
          omega (arith, count-tree z c kids rest, b.part.split z, count-tree z c kids b.part.rest);
    };
    q = b.q;
    cs = b.cs;
    child = b.child;
    siblings = b.siblings;
    stays = In-rest b.q c kids b.part.rest b.stays;
    roots_same = ap (◌∷◌ c) b.roots_same;
    regrow = λ w same fewer.
        let q_in : 0 < count b.q (members rest) =
          omega (arith, b.part.split b.q, count-pos b.q (members b.part.rest) b.stays) in
        (
          same c (In-root c kids b.part.rest) (λ e. not_root_rest b.q q_in (sym e)) ∙ g.0,
          Grows-kept v w kids
              (λ z i.
                same z (In-kids z c kids b.part.rest i)
                  (not_both z b.q (count-pos z (members kids) i) q_in))
              g.1,
          b.regrow w (λ z i. same z (In-rest z c kids b.part.rest i)) fewer,
        );
  }

-- Every process of a forest stands at a root or below a process.
pub stand :
    (v : View) (p : ℕ) (f : Forest)
    → Grows v f
    → Once f
    → In p (members f)
    → AtRoot v p f ⊎ Below v p f
stand v p end g once i = absurd i
stand v p (tree c kids rest) g once i =
    let in_parts = In-append_cases p (members kids ++ c ∷ []) (members rest) i in
    let kids_once : Once kids = λ z. omega (arith, once z, count-tree z c kids rest) in
    let rest_once : Once rest = λ z. omega (arith, once z, count-tree z c kids rest) in
    elim in_parts [
      | inl first ↦ elim (In-append_cases p (members kids) (c ∷ []) first) [
        | inl below ↦ elim (stand v p kids g.1 kids_once below) [
          | inl a ↦ inr (Below-top v p c kids rest g once a)
          | inr b ↦ inr (Below-kids v p c kids rest g once b)
        ]
        | inr at ↦ elim at [
          | inl e ↦ inl (at_top v p c kids rest g once e)
          | inr none_left ↦ absurd none_left
        ]
      ]
      | inr later ↦ elim (stand v p rest g.2 rest_once later) [
        | inl a ↦ inl (
            root_later v p c kids rest g once
              (not_root_rest v p c kids rest g once p (count-pos p (members rest) later)) a)
        | inr b ↦ inr (Below-later v p c kids rest g once b)
      ]
    ]

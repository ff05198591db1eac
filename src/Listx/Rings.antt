-- ===== src/Listx/Rings.antt =====
-- What a write to one list leaves alone: the other lists of the view.
use progetto_sistemi_operati.Base.{
  ◌≡◌, ◌≢◌, refl, ◌∙◌, ap, Option, some, ◌⊎◌, List, [], ◌∷◌, ◌++◌, arith, NotIn, Distinct, All,
  last_of, first_of,
}
use progetto_sistemi_operati.Memory.{Head, Item, Addr, null, of_head, of_item, Links}
use progetto_sistemi_operati.Listx.Seg.{Seg, SameOutside, Seg-frame}
use progetto_sistemi_operati.Listx.View.{View, addrs, put_items, put_owner}

pub addrs-append : (xs ys : List Item) → addrs (xs ++ ys) ≡ addrs xs ++ addrs ys
addrs-append [] ys = refl
addrs-append (x ∷ xs) ys = rw (addrs-append xs ys)

pub NotIn-addrs : (i : Item) (xs : List Item) → NotIn i xs → NotIn (of_item i) (addrs xs)
NotIn-addrs i [] n = tt
NotIn-addrs i (x ∷ xs) n = (λ e. n.0 (cc), NotIn-addrs i xs n.1)

pub head-NotIn-addrs : (h : Head) (xs : List Item) → NotIn (of_head h) (addrs xs)
head-NotIn-addrs h [] = tt
head-NotIn-addrs h (x ∷ xs) = (λ e. cc, head-NotIn-addrs h xs)

Distinct-addrs : (xs : List Item) → Distinct xs → Distinct (addrs xs)
Distinct-addrs [] d = tt
Distinct-addrs (x ∷ xs) d = (NotIn-addrs x xs d.0, Distinct-addrs xs d.1)

pub Distinct-ring : (h : Head) (xs : List Item) → Distinct xs → Distinct (of_head h ∷ addrs xs)
Distinct-ring h xs d = (head-NotIn-addrs h xs, Distinct-addrs xs d)

-- An address of the list of `h`: the sentinel, or an item that the list owns.
abbrev pub Kin : View → Head → Addr → Type 0
Kin v h null = ⊥
Kin v h (of_head k) = k ≡ h
Kin v h (of_item j) = v.owner j ≡ some h

pub last_of-Kin :
    (v : View) (h : Head) (a : Addr) (xs : List Item)
    → Kin v h a
    → All (λ i. v.owner i ≡ some h) xs
    → Kin v h (last_of a (addrs xs))
last_of-Kin v h a [] k o = k
last_of-Kin v h a (x ∷ xs) k o = last_of-Kin v h (of_item x) xs o.0 o.1

pub first_of-Kin :
    (v : View) (h : Head) (a : Addr) (xs : List Item)
    → Kin v h a
    → All (λ i. v.owner i ≡ some h) xs
    → Kin v h (first_of (addrs xs) a)
first_of-Kin v h a [] k o = k
first_of-Kin v h a (x ∷ xs) k o = o.0

ne-Kin_head : (v : View) (h k : Head) (a : Addr) → h ≢ k → Kin v h a → of_head k ≢ a
ne-Kin_head v h k null ne kin = λ e. cc
ne-Kin_head v h k (of_head l) ne kin = ground arith
ne-Kin_head v h k (of_item j) ne kin = λ e. cc

ne-Kin_item :
    (v : View) (h k : Head) (a : Addr) (i : Item)
    → h ≢ k
    → v.owner i ≡ some k
    → Kin v h a
    → of_item i ≢ a
ne-Kin_item v h k null i ne o kin = λ e. cc
ne-Kin_item v h k (of_head l) i ne o kin = λ e. cc
ne-Kin_item v h k (of_item j) i ne o kin = ground arith

-- What touches only a new item and addresses of the list of `h` spares every other list.
other-NotIn :
    (v : View) (h k : Head) (i : Item) (p n : Addr) (zs : List Item)
    → h ≢ k
    → ((j : Item) → v.owner j ≡ some k → j ≢ i)
    → Kin v h p
    → Kin v h n
    → All (λ j. v.owner j ≡ some k) zs
    → All (λ x. NotIn x (of_item i ∷ p ∷ n ∷ [])) (addrs zs)
other-NotIn v h k i p n [] ne out kp kn o = tt
other-NotIn v h k i p n (z ∷ zs) ne out kp kn o = (
  (λ e. out z o.0 (cc), (ne-Kin_item v h k p z ne o.0 kp, (ne-Kin_item v h k n z ne o.0 kn, tt))),
  other-NotIn v h k i p n zs ne out kp kn o.1,
)

pub other-Seg :
    (v : View) (m m' : Links) (h k : Head) (i : Item) (p n : Addr) (zs : List Item)
    → h ≢ k
    → SameOutside (of_item i ∷ p ∷ n ∷ []) m m'
    → ((j : Item) → v.owner j ≡ some k → j ≢ i)
    → Kin v h p
    → Kin v h n
    → All (λ j. v.owner j ≡ some k) zs
    → Seg m (of_head k) (addrs zs) (of_head k)
    → Seg m' (of_head k) (addrs zs) (of_head k)
other-Seg v m m' h k i p n zs ne same out kp kn o s =
    let spared : NotIn (of_head k) (of_item i ∷ p ∷ n ∷ []) =
      (λ e. cc, (ne-Kin_head v h k p ne kp, (ne-Kin_head v h k n ne kn, tt))) in
    Seg-frame m m' (of_item i ∷ p ∷ n ∷ []) (of_head k) (addrs zs) (of_head k) same spared
      (other-NotIn v h k i p n zs ne out kp kn o) spared s

-- The content of a list after a write, and after a change of owner.
pub put_items-cases :
    (h k : Head) (xs zs : List Item) (f : Head → Option (List Item))
    → put_items h xs f k ≡ some zs
    → ((h ≡ k) × (xs ≡ zs)) ⊎ ((h ≢ k) × (f k ≡ some zs))
put_items-cases h k xs zs f e = ground arith

pub owned-NotIn :
    (v : View) (h : Head) (i : Item) (xs : List Item)
    → v.owner i ≢ some h
    → All (λ j. v.owner j ≡ some h) xs
    → NotIn i xs
owned-NotIn v h i [] ne o = tt
owned-NotIn v h i (x ∷ xs) ne o = (λ e. ne (ap v.owner e ∙ o.0), owned-NotIn v h i xs ne o.1)

-- A change of owner of items outside a list leaves the list's items with theirs.
pub All-put_owner :
    (v : View) (h : Head) (i : Item) (o : Option Head) (xs : List Item)
    → NotIn i xs
    → All (λ j. v.owner j ≡ some h) xs
    → All (λ j. put_owner i o v.owner j ≡ some h) xs
All-put_owner v h i o [] n a = tt
All-put_owner v h i o (x ∷ xs) n a = (ground arith, All-put_owner v h i o xs n.1 a.1)

-- ===== src/Listx/Queue.antt =====
-- The functions of headers/listx.h on a sentinel's list, in terms of the sequence that it holds.
use progetto_sistemi_operati.Base.{
  ◌≡◌, Bool, true, false, none, some, List, [], ◌∷◌, ◌++◌, arith, append-nil, last_of, first_of,
}
use progetto_sistemi_operati.Memory.{Head, Item, of_head, of_item, Links}
use progetto_sistemi_operati.Listx.{list_add, list_add_tail, list_empty}
use progetto_sistemi_operati.Listx.Seg.{next-Seg, prev-Seg, next-Seg_after}
use progetto_sistemi_operati.Listx.View.{View, Rings, addrs, enter}
use progetto_sistemi_operati.Listx.Insert.{list_add_between-Rings}
use progetto_sistemi_operati.Listx.Delete.{prev_at}
use progetto_sistemi_operati.Listx.Rings.{addrs-append}

abbrev pub is_nil : List Item → Bool
is_nil [] = true
is_nil (x ∷ xs) = false

module _ (m : Links) (v : View) (h : Head) (xs : List Item) (r : Rings m v)
    (e : v.items h ≡ some xs) where
  pub next_head : m.next (of_head h) ≡ first_of (addrs xs) (of_head h)
  next_head = next-Seg m (of_head h) (addrs xs) (of_head h) (r.ring h xs e)

  pub prev_head : m.prev (of_head h) ≡ last_of (of_head h) (addrs xs)
  prev_head = prev-Seg m (of_head h) (addrs xs) (of_head h) (r.ring h xs e)

-- `list_empty` says whether the sequence is empty.
pub list_empty-is_nil :
    (m : Links) (v : View) (h : Head) (xs : List Item)
    → Rings m v
    → v.items h ≡ some xs
    → list_empty (of_head h) m ≡ is_nil xs
unfolding list_empty
list_empty-is_nil m v h [] r e = ground (arith, next_head m v h [] r e)
list_empty-is_nil m v h (x ∷ xs) r e = ground (arith, next_head m v h (x ∷ xs) r e)

module _ (m : Links) (v : View) (h : Head) (i : Item) (xs : List Item) (r : Rings m v)
    (e : v.items h ≡ some xs) (free : v.owner i ≡ none) where
  -- `list_add` puts a free item in front.
  pub list_add-Rings : Rings (list_add (of_item i) (of_head h) m) (enter h i (i ∷ xs) v)
  unfolding list_add
  list_add-Rings = rw (next_head m v h xs r e) (list_add_between-Rings m v h i [] xs r e free)

  -- `list_add_tail` puts a free item at the end.
  pub list_add_tail-Rings :
      Rings (list_add_tail (of_item i) (of_head h) m) (enter h i (xs ++ i ∷ []) v)
  unfolding list_add_tail
  list_add_tail-Rings =
      rw (prev_head m v h xs r e) (list_add_between-Rings m v h i xs [] r (rw append-nil e) free)

-- `list_add` behind the predecessor of an item puts a free item in front of that item.
pub list_add-Rings_before :
    (m : Links) (v : View) (h : Head) (i : Item) (xs : List Item) (y : Item) (ys : List Item)
    → Rings m v
    → v.items h ≡ some (xs ++ y ∷ ys)
    → v.owner i ≡ none
    → Rings (list_add (of_item i) (m.prev (of_item y)) m) (enter h i (xs ++ i ∷ y ∷ ys) v)
unfolding list_add
list_add-Rings_before m v h i xs y ys r e free =
    let after : m.next (last_of (of_head h) (addrs xs)) ≡ of_item y =
      next-Seg_after m (of_head h) (addrs xs) (addrs (y ∷ ys)) (of_head h)
        (rw (addrs-append xs (y ∷ ys)) at (r.ring h _ e)) in
    rw (prev_at m v h y xs ys r e, after) (list_add_between-Rings m v h i xs (y ∷ ys) r e free)

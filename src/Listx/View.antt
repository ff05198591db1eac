-- ===== src/Listx/View.antt =====
-- The abstract view of the kernel's lists: every initialised sentinel stands for a sequence of
-- items, and an item is in one list at most.
use progetto_sistemi_operati.Base.{◌≡◌, ite, Option, none, some, List, [], ◌∷◌, Distinct, All, In}
use progetto_sistemi_operati.Memory.{
  Head, Item, Addr, of_head, of_item, Head-discrete, Item-discrete, Links,
}
use progetto_sistemi_operati.Listx.Seg.{Seg}

pub record View : Type 0 where
  pub items : Head → Option (List Item)
  pub owner : Item → Option Head

abbrev pub addrs : List Item → List Addr
addrs [] = []
addrs (i ∷ xs) = of_item i ∷ addrs xs

-- The memory holds the lists of the view.
pub record Rings (m : Links) (v : View) : Type 0 where
  pub ring :
      (h : Head) (xs : List Item) → v.items h ≡ some xs → Seg m (of_head h) (addrs xs) (of_head h)
  pub distinct : (h : Head) (xs : List Item) → v.items h ≡ some xs → Distinct xs
  pub owned : (h : Head) (xs : List Item) → v.items h ≡ some xs → All (λ i. v.owner i ≡ some h) xs
  pub listed :
      (i : Item) (h : Head)
      → v.owner i ≡ some h
      → (xs : List Item) × (v.items h ≡ some xs) × In i xs

abbrev pub put_items : Head → List Item → (Head → Option (List Item)) → Head → Option (List Item)
put_items h xs f k = ite (Head-discrete h k) (some xs) (f k)

abbrev pub put_owner : Item → Option Head → (Item → Option Head) → Item → Option Head
put_owner i o f j = ite (Item-discrete i j) o (f j)

-- `i` joins the list of `h`, which becomes `xs`.
abbrev pub enter : Head → Item → List Item → View → View
enter h i xs v = record { items = put_items h xs v.items; owner = put_owner i (some h) v.owner }

-- `i` leaves the list of `h`, which becomes `xs`.
abbrev pub leave : Head → Item → List Item → View → View
leave h i xs v = record { items = put_items h xs v.items; owner = put_owner i none v.owner }

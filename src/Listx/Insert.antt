-- ===== src/Listx/Insert.antt =====
-- `__list_add` refines the insertion of an item into a sequence.
use progetto_sistemi_operati.Base.{
  ◌≡◌, ◌≢◌, refl, subst, none, some, inl, inr, List, ◌∷◌, ◌++◌, arith, NotIn, Distinct, All, In,
  last_of, first_of,
}
use progetto_sistemi_operati.Memory.{
  Head, Item, of_head, of_item, Item-discrete, Head-discrete, Links,
}
use progetto_sistemi_operati.Listx.{list_add_between}
use progetto_sistemi_operati.Listx.Seg.{Seg, list_add_between-Seg, list_add_between-SameOutside}
use progetto_sistemi_operati.Listx.View.{View, Rings, addrs, enter}
use progetto_sistemi_operati.Listx.Sequences.{
  Distinct-insert, In-insert, In-insert_of_In, All-insert, All-append_left, All-append_right,
}
use progetto_sistemi_operati.Listx.Rings.{
  addrs-append, NotIn-addrs, head-NotIn-addrs, Distinct-ring, last_of-Kin, first_of-Kin, other-Seg,
  put_items-cases, All-put_owner, owned-NotIn,
}

module _ (m : Links) (v : View) (h : Head) (i : Item) (xs ys : List Item) (r : Rings m v)
    (e : v.items h ≡ some (xs ++ ys)) (free : v.owner i ≡ none) where
  after : Links
  after =
      list_add_between (of_item i) (last_of (of_head h) (addrs xs))
        (first_of (addrs ys) (of_head h)) m

  out : NotIn i (xs ++ ys)
  out = owned-NotIn v h i (xs ++ ys) (λ o. cc) (r.owned h _ e)

  grown : Seg after (of_head h) (addrs (xs ++ i ∷ ys)) (of_head h)
  unfolding after
  grown = rw (addrs-append xs (i ∷ ys)) (
      list_add_between-Seg (of_item i) m (of_head h) (addrs xs) (addrs ys) (of_head h)
        (rw (addrs-append xs ys) at (Distinct-ring h (xs ++ ys) (r.distinct h _ e)))
        (rw (addrs-append xs ys) at (head-NotIn-addrs h (xs ++ ys)))
        (λ q. cc, rw (addrs-append xs ys) at (NotIn-addrs i (xs ++ ys) out)) (λ q. cc)
        (rw (addrs-append xs ys) at (r.ring h _ e)))

  kept :
      (k : Head) (zs : List Item)
      → h ≢ k
      → v.items k ≡ some zs
      → Seg after (of_head k) (addrs zs) (of_head k)
  unfolding after
  kept k zs ne f =
      other-Seg v m after h k i (last_of (of_head h) (addrs xs)) (first_of (addrs ys) (of_head h))
        zs ne (list_add_between-SameOutside _ _ _ _) (λ j o q. ground arith)
        (last_of-Kin v h (of_head h) xs refl (All-append_left _ xs ys (r.owned h _ e)))
        (first_of-Kin v h (of_head h) ys refl (All-append_right _ xs ys (r.owned h _ e)))
        (r.owned k zs f) (r.ring k zs f)

  grown_view : View
  grown_view = enter h i (xs ++ i ∷ ys) v

  other_owner :
      (k : Head) (zs : List Item)
      → h ≢ k
      → v.items k ≡ some zs
      → All (λ j. grown_view.owner j ≡ some k) zs
  unfolding grown_view
  other_owner k zs ne f =
      All-put_owner v k i (some h) zs (owned-NotIn v k i zs (λ o. cc) (r.owned k zs f))
        (r.owned k zs f)

  list_of :
      (j : Item) (k : Head)
      → grown_view.owner j ≡ some k
      → (zs : List Item) × (grown_view.items k ≡ some zs) × In j zs
  unfolding grown_view
  list_of j k o = elim (Item-discrete i j) [
    | yes same ↦
        (xs ++ i ∷ ys, ground arith, subst (λ a. In a (xs ++ i ∷ ys)) same (In-insert xs i ys))
    | no other ↦ elim (Head-discrete h k) [
      | yes same ↦
          let at = r.listed j h (ground arith) in
          let inside : In j (xs ++ ys) = subst (In j) (ground (arith, at.1)) at.2 in
          (xs ++ i ∷ ys, ground arith, In-insert_of_In j xs i ys inside)
      | no ne ↦ let at = r.listed j k (ground arith) in (at.0, ground (arith, at.1), at.2)
    ]
  ]

  -- On well-formed lists `__list_add`, given an item that is in no list and two neighbours of the
  -- list of `h` (the sentinel may be either), inserts the item between them; no other list changes,
  -- and the lists stay well formed.
  pub list_add_between-Rings :
      Rings
        (list_add_between
          (of_item i)
          (last_of (of_head h) (addrs xs))
          (first_of (addrs ys) (of_head h))
          m)
        (enter h i (xs ++ i ∷ ys) v)
  unfolding after grown_view
  list_add_between-Rings = record {
    ring = λ k zs f. elim (put_items-cases h k _ zs v.items f) [
      | inl (same, same') ↦
          subst (λ l. Seg after (of_head l) (addrs zs) (of_head l)) same
            (subst (λ l. Seg after (of_head h) (addrs l) (of_head h)) same' grown)
      | inr (ne, f') ↦ kept k zs ne f'
    ];
    distinct = λ k zs f. elim (put_items-cases h k _ zs v.items f) [
      | inl (same, same') ↦ subst Distinct same' (Distinct-insert xs i ys (r.distinct h _ e) out)
      | inr (ne, f') ↦ r.distinct k zs f'
    ];
    owned = λ k zs f. elim (put_items-cases h k _ zs v.items f) [
      | inl (same, same') ↦
          subst (λ l. All (λ j. grown_view.owner j ≡ some l) zs) same
            (subst (All (λ j. grown_view.owner j ≡ some h)) same' (
              All-insert (λ j. grown_view.owner j ≡ some h) xs i ys
                (All-put_owner v h i (some h) (xs ++ ys) out (r.owned h _ e)) (ground arith)))
      | inr (ne, f') ↦ other_owner k zs ne f'
    ];
    listed = list_of;
  }

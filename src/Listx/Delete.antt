-- ===== src/Listx/Delete.antt =====
-- `list_del` refines the removal of an item from a sequence.
use progetto_sistemi_operati.Base.{
  ◌≡◌, ◌≢◌, refl, sym, subst, none, some, inl, inr, List, ◌∷◌, ◌++◌, arith, NotIn, Distinct, All,
  In, last_of, first_of,
}
use progetto_sistemi_operati.Memory.{
  Head, Item, of_head, of_item, Item-discrete, Head-discrete, Links,
}
use progetto_sistemi_operati.Listx.{list_del}
use progetto_sistemi_operati.Listx.Seg.{
  Seg, list_del-Seg, list_del-SameOutside, prev-Seg_mid, next-Seg_mid,
}
use progetto_sistemi_operati.Listx.View.{View, Rings, addrs, leave}
use progetto_sistemi_operati.Listx.Sequences.{
  Distinct-remove, In-remove_of_In, All-remove, All-append_left, All-append_right,
}
use progetto_sistemi_operati.Listx.Rings.{
  addrs-append, NotIn-addrs, head-NotIn-addrs, Distinct-ring, last_of-Kin, first_of-Kin, other-Seg,
  put_items-cases, All-put_owner, owned-NotIn,
}

module _ (m : Links) (v : View) (h : Head) (i : Item) (xs ys : List Item) (r : Rings m v)
    (e : v.items h ≡ some (xs ++ i ∷ ys)) where
  parts-Distinct : Distinct (xs ++ ys) × NotIn i (xs ++ ys)
  parts-Distinct = Distinct-remove xs i ys (r.distinct h _ e)

  owned_parts : All (λ j. v.owner j ≡ some h) (xs ++ ys) × (v.owner i ≡ some h)
  owned_parts = All-remove (λ j. v.owner j ≡ some h) xs i ys (r.owned h _ e)

  ring_parts : Seg m (of_head h) (addrs xs ++ of_item i ∷ addrs ys) (of_head h)
  ring_parts = rw (addrs-append xs (i ∷ ys)) at (r.ring h _ e)

  shrunk : Seg (list_del (of_item i) m) (of_head h) (addrs (xs ++ ys)) (of_head h)
  shrunk = rw (addrs-append xs ys) (
      list_del-Seg (of_item i) m (of_head h) (addrs xs) (addrs ys) (of_head h)
        (rw (addrs-append xs ys) at (Distinct-ring h (xs ++ ys) parts-Distinct.0))
        (rw (addrs-append xs ys) at (head-NotIn-addrs h (xs ++ ys)))
        (λ q. cc, rw (addrs-append xs ys) at (NotIn-addrs i (xs ++ ys) parts-Distinct.1)) (λ q. cc)
        ring_parts)

  -- The neighbours that `list_del` links to each other.
  pub prev_at : m.prev (of_item i) ≡ last_of (of_head h) (addrs xs)
  prev_at = prev-Seg_mid m (of_head h) (addrs xs) (of_item i) (addrs ys) (of_head h) ring_parts

  pub next_at : m.next (of_item i) ≡ first_of (addrs ys) (of_head h)
  next_at = next-Seg_mid m (of_head h) (addrs xs) (of_item i) (addrs ys) (of_head h) ring_parts

  kept :
      (k : Head) (zs : List Item)
      → h ≢ k
      → v.items k ≡ some zs
      → Seg (list_del (of_item i) m) (of_head k) (addrs zs) (of_head k)
  kept k zs ne f =
      other-Seg v m (list_del (of_item i) m) h k i (last_of (of_head h) (addrs xs))
        (first_of (addrs ys) (of_head h)) zs ne (list_del-SameOutside _ _ _ m prev_at next_at)
        (λ j o q. ne (ground (arith, owned_parts.1)))
        (last_of-Kin v h (of_head h) xs refl (All-append_left _ xs ys owned_parts.0))
        (first_of-Kin v h (of_head h) ys refl (All-append_right _ xs ys owned_parts.0))
        (r.owned k zs f) (r.ring k zs f)

  left_view : View
  left_view = leave h i (xs ++ ys) v

  other_owner :
      (k : Head) (zs : List Item)
      → h ≢ k
      → v.items k ≡ some zs
      → All (λ j. left_view.owner j ≡ some k) zs
  unfolding left_view
  other_owner k zs ne f =
      All-put_owner v k i none zs
        (owned-NotIn v k i zs (λ o. ne (ground (arith, owned_parts.1))) (r.owned k zs f))
        (r.owned k zs f)

  list_of :
      (j : Item) (k : Head)
      → left_view.owner j ≡ some k
      → (zs : List Item) × (left_view.items k ≡ some zs) × In j zs
  unfolding left_view
  list_of j k o = elim (Item-discrete i j) [
    | yes same ↦ absurd (ground arith)
    | no other ↦ elim (Head-discrete h k) [
      | yes same ↦
          let at = r.listed j h (ground arith) in
          let inside : In j (xs ++ i ∷ ys) = subst (In j) (ground (arith, at.1)) at.2 in
          (xs ++ ys, ground arith, In-remove_of_In j xs i ys (λ q. other (sym q)) inside)
      | no ne ↦ let at = r.listed j k (ground arith) in (at.0, ground (arith, at.1), at.2)
    ]
  ]

  -- On well-formed lists `list_del` takes an item out of its list, wherever it stands; the others
  -- keep their order, no other list changes, and the lists stay well formed.
  pub list_del-Rings : Rings (list_del (of_item i) m) (leave h i (xs ++ ys) v)
  unfolding left_view
  list_del-Rings = record {
    ring = λ k zs f. elim (put_items-cases h k _ zs v.items f) [
      | inl (same, same') ↦
          subst (λ l. Seg (list_del (of_item i) m) (of_head l) (addrs zs) (of_head l)) same
            (subst (λ l. Seg (list_del (of_item i) m) (of_head h) (addrs l) (of_head h)) same'
              shrunk)
      | inr (ne, f') ↦ kept k zs ne f'
    ];
    distinct = λ k zs f. elim (put_items-cases h k _ zs v.items f) [
      | inl (same, same') ↦ subst Distinct same' parts-Distinct.0
      | inr (ne, f') ↦ r.distinct k zs f'
    ];
    owned = λ k zs f. elim (put_items-cases h k _ zs v.items f) [
      | inl (same, same') ↦
          subst (λ l. All (λ j. left_view.owner j ≡ some l) zs) same
            (subst (All (λ j. left_view.owner j ≡ some h)) same'
              (All-put_owner v h i none (xs ++ ys) parts-Distinct.1 owned_parts.0))
      | inr (ne, f') ↦ other_owner k zs ne f'
    ];
    listed = list_of;
  }

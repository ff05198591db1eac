-- ===== src/Listx/Init.antt =====
-- `INIT_LIST_HEAD` on a sentinel makes an empty list; on an item outside every list it changes none.
use progetto_sistemi_operati.Base.{
  ◌≡◌, ◌≢◌, refl, ◌∙◌, ap, subst, none, some, inl, inr, List, [], ◌∷◌, arith, NotIn, Distinct, All,
  In,
}
use progetto_sistemi_operati.Memory.{Head, Item, Addr, of_head, of_item, Head-discrete, Links}
use progetto_sistemi_operati.Listx.{init_list_head}
use progetto_sistemi_operati.Listx.Seg.{
  Seg, SameOutside, Seg-frame, init_list_head-Seg, init_list_head-SameOutside,
}
use progetto_sistemi_operati.Listx.View.{View, Rings, addrs, put_items}
use progetto_sistemi_operati.Listx.Rings.{put_items-cases}

-- A sentinel's list becomes empty.
abbrev pub create : Head → View → View
create h v = record v { items = put_items h [] v.items }

-- What touches one address outside the list leaves the list.
spared :
    (a : Addr) (zs : List Item)
    → ((j : Item) → In j zs → of_item j ≢ a)
    → All (λ x. NotIn x (a ∷ [])) (addrs zs)
spared a [] ne = tt
spared a (z ∷ zs) ne = ((ne z (inl refl), tt), spared a zs (λ j n. ne j (inr n)))

pub Rings-frame :
    (m m' : Links) (v : View) (a : Addr)
    → SameOutside (a ∷ []) m m'
    → ((k : Head) → of_head k ≢ a)
    → ((k : Head) (zs : List Item) → v.items k ≡ some zs → (j : Item) → In j zs → of_item j ≢ a)
    → Rings m v
    → Rings m' v
Rings-frame m m' v a same hs js r = record {
  ring = λ k zs f.
      Seg-frame m m' (a ∷ []) (of_head k) (addrs zs) (of_head k) same (hs k, tt)
        (spared a zs (js k zs f)) (hs k, tt) (r.ring k zs f);
  distinct = r.distinct;
  owned = r.owned;
  listed = r.listed;
}

All-In :
    (v : View) (k : Head) (zs : List Item) (j : Item)
    → All (λ i. v.owner i ≡ some k) zs
    → In j zs
    → v.owner j ≡ some k
All-In v k [] j o n = absurd n
All-In v k (z ∷ zs) j o (inl q) = ap v.owner q ∙ o.0
All-In v k (z ∷ zs) j o (inr n) = All-In v k zs j o.1 n

pub init_item-Rings :
    (m : Links) (v : View) (i : Item)
    → Rings m v
    → v.owner i ≡ none
    → Rings (init_list_head (of_item i) m) v
init_item-Rings m v i r free =
    Rings-frame m _ v (of_item i) (init_list_head-SameOutside (of_item i) m) (λ k q. cc)
      (λ k zs f j n q. let o = All-In v k zs j (r.owned k zs f) n in ground arith) r

module _ (m : Links) (v : View) (h : Head) (r : Rings m v)
    (vacant : (i : Item) → v.owner i ≢ some h) where
  kept :
      (k : Head) (zs : List Item)
      → h ≢ k
      → v.items k ≡ some zs
      → Seg (init_list_head (of_head h) m) (of_head k) (addrs zs) (of_head k)
  kept k zs ne f =
      Seg-frame m _ (of_head h ∷ []) (of_head k) (addrs zs) (of_head k)
        (init_list_head-SameOutside (of_head h) m) (λ q. ne (cc), tt)
        (spared (of_head h) zs (λ j n q. cc)) (λ q. ne (cc), tt) (r.ring k zs f)

  -- Where no item has the sentinel for its list, it becomes an empty list.
  pub init_head-Rings : Rings (init_list_head (of_head h) m) (create h v)
  init_head-Rings = record {
    ring = λ k zs f. elim (put_items-cases h k _ zs v.items f) [
      | inl (same, same') ↦
          subst (λ l. Seg (init_list_head (of_head h) m) (of_head l) (addrs zs) (of_head l)) same
            (subst (λ l. Seg (init_list_head (of_head h) m) (of_head h) (addrs l) (of_head h)) same'
              (init_list_head-Seg (of_head h) m))
      | inr (ne, f') ↦ kept k zs ne f'
    ];
    distinct = λ k zs f. elim (put_items-cases h k _ zs v.items f) [
      | inl (same, same') ↦ subst Distinct same' tt
      | inr (ne, f') ↦ r.distinct k zs f'
    ];
    owned = λ k zs f. elim (put_items-cases h k _ zs v.items f) [
      | inl (same, same') ↦ subst (All (λ j. v.owner j ≡ some k)) same' tt
      | inr (ne, f') ↦ r.owned k zs f'
    ];
    listed = λ i k o. elim (Head-discrete h k) [
      | yes same ↦ absurd (vacant i (ground arith))
      | no ne ↦ let at = r.listed i k o in (at.0, ground (arith, at.1), at.2)
    ];
  }

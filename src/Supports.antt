-- ===== src/Supports.antt =====
-- The free support structures of phase3/initProc.c. A structure is its index in `supportPool`.
use progetto_sistemi_operati.Base.{
  ℕ, ◌≡◌, refl, Option, none, some, List, [], ◌∷◌, if◌then◌else◌, arith,
}
use progetto_sistemi_operati.Memory.{Addr, Item, of_head, of_item, s_list, support_free}
use progetto_sistemi_operati.Listx.{list_add, list_del, list_empty}
use progetto_sistemi_operati.Listx.View.{View, Rings, enter, leave}
use progetto_sistemi_operati.Listx.Queue.{list_empty-is_nil, next_head, list_add-Rings}
use progetto_sistemi_operati.Listx.Delete.{list_del-Rings}
use progetto_sistemi_operati.Store.{
  Store, Cmd, ok, pure, gets, modify, ◌>>=◌, ◌>>◌, on_links, support_of_list,
}

abbrev pub list_of_support : ℕ → Addr
list_of_support u = of_item (s_list u)

unfoldable pub deallocate_support : ℕ → Cmd (Unit {0})
deallocate_support u = modify (on_links (list_add (list_of_support u) (of_head support_free)))

unfoldable pub allocate_support : Cmd (Option ℕ)
allocate_support s =
    if list_empty (of_head support_free) s.links
    then ok none s
    else (do
      entry ← gets (λ s. s.links.next (of_head support_free))
      modify (on_links (list_del entry))
      u ← support_of_list entry
      pure (some u))
        s

-- On well-formed lists `allocateSupport` returns null and changes nothing where no structure is
-- free, and takes the first free one out of the list otherwise, which keeps the lists well formed.
pub allocate_support_lem :
    (s : Store) (v : View) (xs : List Item)
    → Rings s.links v
    → v.items support_free ≡ some xs
    → (xs ≡ [] → allocate_support s ≡ ok none s)
      × ((u : ℕ) (ys : List Item)
          → xs ≡ s_list u ∷ ys
          → (allocate_support s ≡ ok (some u) (on_links (list_del (list_of_support u)) s))
            × Rings (list_del (list_of_support u) s.links) (leave support_free (s_list u) ys v))
unfolding allocate_support support_of_list
allocate_support_lem s v xs r e = (
  λ nil. rw (list_empty-is_nil s.links v support_free xs r e, nil) refl,
  λ u ys cons.
      let e' : v.items support_free ≡ some (s_list u ∷ ys) = rw (← cons) e in
      (
        rw
            (
              list_empty-is_nil s.links v support_free (s_list u ∷ ys) r e',
              next_head s.links v support_free (s_list u ∷ ys) r e',
            )
            refl,
        list_del-Rings s.links v support_free (s_list u) [] ys r e',
      ),
)

-- A support structure that is in no list and is given back is the next one to be handed out: on
-- well-formed lists `allocateSupport` behind `deallocateSupport` returns it, and leaves the list of
-- free structures as it was and all lists well formed.
pub allocate_support-deallocate_support :
    (s : Store) (v : View) (u : ℕ) (xs : List Item)
    → Rings s.links v
    → v.items support_free ≡ some xs
    → v.owner (s_list u) ≡ none
    → (t : Store) × (w : View) × ((deallocate_support u >>= λ _. allocate_support) s
        ≡ ok (some u) t)
      × Rings t.links w
      × (w.items support_free ≡ some xs)
      × (w.owner (s_list u) ≡ none)
      × (t.pcb ≡ s.pcb)
unfolding deallocate_support
allocate_support-deallocate_support s v u xs r e free =
    let s1 = on_links (list_add (list_of_support u) (of_head support_free)) s in
    let v1 = enter support_free (s_list u) (s_list u ∷ xs) v in
    let r1 = list_add-Rings s.links v support_free (s_list u) xs r e free in
    let f1 : v1.items support_free ≡ some (s_list u ∷ xs) = ground arith in
    let (run, rings) = (allocate_support_lem s1 v1 (s_list u ∷ xs) r1 f1).1 u xs refl in
    (
      on_links (list_del (list_of_support u)) s1,
      leave support_free (s_list u) xs v1,
      run,
      rings,
      ground arith,
      ground arith,
      refl,
    )

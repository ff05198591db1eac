-- ===== src/Pcb/Queue.antt =====
-- The process queues of phase1/pcb.c as sequences of PCBs.
use progetto_sistemi_operati.Base.{
  ℕ, zero, suc, ◌+◌, ◌≡◌, refl, ◌<◌, ◌≤◌, none, some, List, [], ◌∷◌, ◌++◌, arith, append-nil,
  if◌then◌else◌, Bool-cases, inl, inr, length, first_of, NotIn,
}
use progetto_sistemi_operati.Memory.{Head, Item, of_head, p_list, Links}
use progetto_sistemi_operati.Listx.{list_del, list_add, list_add_tail}
use progetto_sistemi_operati.Listx.View.{View, Rings, addrs, enter, leave}
use progetto_sistemi_operati.Listx.Delete.{list_del-Rings, next_at}
use progetto_sistemi_operati.Listx.Queue.{
  list_empty-is_nil, next_head, list_add_tail-Rings, list_add-Rings_before,
}
use progetto_sistemi_operati.Store.{Store, ok, on_links, signed_lt, pcb_of_list}
use progetto_sistemi_operati.Pcb.{
  list_of_pcb, max_proc, insert_loop, insert_proc_q, head_proc_q, remove_proc_q, out_loop,
  out_proc_q,
}

-- The links of a sequence of PCBs.
abbrev pub lists : List ℕ → List Item
lists [] = []
lists (p ∷ ps) = p_list p ∷ lists ps

pub lists-append : (ps qs : List ℕ) → lists (ps ++ qs) ≡ lists ps ++ lists qs
lists-append [] qs = refl
lists-append (p ∷ ps) qs = rw (lists-append ps qs)

pub lists-snoc :
    (qs : List ℕ) (q : ℕ) (zs : List Item) → lists (qs ++ q ∷ []) ++ zs ≡ lists qs ++ p_list q ∷ zs
lists-snoc [] q zs = refl
lists-snoc (x ∷ qs) q zs = rw (lists-snoc qs q zs)

-- The place that a PCB takes by its priority: in front of the first PCB of lower priority.
unfoldable pub insert_prio : (ℕ → ℕ) → ℕ → List ℕ → List ℕ
insert_prio prio p [] = p ∷ []
insert_prio prio p (q ∷ qs) =
    if signed_lt (prio q) (prio p) then p ∷ q ∷ qs else q ∷ insert_prio prio p qs

abbrev pub prio_in : Store → ℕ → ℕ
prio_in s p = (s.pcb p).prio

module _ (s : Store) (v : View) (h : Head) (p : ℕ) (r : Rings s.links v)
    (free : v.owner (p_list p) ≡ none) where
  insert_loop-insert_prio :
      (fuel : ℕ) (qs ps : List ℕ)
      → v.items h ≡ some (lists qs ++ lists ps)
      → length ps < fuel
      → (m : Links) × (insert_loop fuel h p (first_of (addrs (lists ps)) (of_head h)) s
          ≡ ok tt (record s { links = m }))
        × Rings m (enter h (p_list p) (lists qs ++ lists (insert_prio (prio_in s) p ps)) v)
  unfolding insert_loop insert_prio pcb_of_list
  insert_loop-insert_prio zero qs ps e fuel = absurd (omega arith)
  insert_loop-insert_prio (suc k) qs [] e fuel = (
    list_add_tail (list_of_pcb p) (of_head h) s.links,
    ground arith,
    list_add_tail-Rings s.links v h (p_list p) (lists qs) r (rw append-nil at e) free,
  )
  insert_loop-insert_prio (suc k) qs (q ∷ ps) e fuel =
      elim (Bool-cases (signed_lt (prio_in s q) (prio_in s p))) [
        | inl lower ↦ (
          list_add (list_of_pcb p) (s.links.prev (list_of_pcb q)) s.links,
          ground arith,
          rw lower (
              list_add-Rings_before s.links v h (p_list p) (lists qs) (p_list q) (lists ps) r e
                free),
        )
        | inr higher ↦
            let rest =
              insert_loop-insert_prio k (qs ++ q ∷ []) ps (rw (lists-snoc qs q (lists ps)) e)
                (omega arith) in
            let step = next_at s.links v h (p_list q) (lists qs) (lists ps) r e in
            (
              rest.0,
              ground (arith, step, rest.1),
              rw higher (rw (lists-snoc qs q (lists (insert_prio (prio_in s) p ps))) at rest.2),
            )
      ]

  -- On a queue of at most `max_proc` PCBs `insertProcQ` returns: it has put a PCB that was in no list
  -- in front of the first PCB of lower priority, or at the end where there is none. No other list
  -- and nothing but links has changed, and the lists are well formed.
  pub insert_proc_q-insert_prio :
      (ps : List ℕ)
      → v.items h ≡ some (lists ps)
      → length ps ≤ max_proc
      → (m : Links) × (insert_proc_q h p s ≡ ok tt (record s { links = m }))
        × Rings m (enter h (p_list p) (lists (insert_prio (prio_in s) p ps)) v)
  unfolding insert_proc_q
  insert_proc_q-insert_prio ps e short =
      rw (next_head s.links v h (lists ps) r e)
        (insert_loop-insert_prio (max_proc + 1) [] ps e (omega arith))

module _ (s : Store) (v : View) (h : Head) (r : Rings s.links v) where
  -- On an empty queue `removeProcQ` and `headProcQ` return null and change nothing.
  pub remove_proc_q-nil : v.items h ≡ some [] → remove_proc_q h s ≡ ok none s
  unfolding remove_proc_q
  remove_proc_q-nil e = rw (list_empty-is_nil s.links v h [] r e)

  pub head_proc_q-nil : v.items h ≡ some [] → head_proc_q h s ≡ ok none s
  unfolding head_proc_q
  head_proc_q-nil e = rw (list_empty-is_nil s.links v h [] r e)

  module _ (p : ℕ) (ps : List ℕ) (e : v.items h ≡ some (lists (p ∷ ps))) where
    pub head_proc_q-cons : head_proc_q h s ≡ ok (some p) s
    unfolding head_proc_q pcb_of_list
    head_proc_q-cons = rw (
      list_empty-is_nil s.links v h (lists (p ∷ ps)) r e,
      next_head s.links v h (lists (p ∷ ps)) r e,
    )

    -- `removeProcQ` takes the first PCB out and returns it.
    pub remove_proc_q-cons :
        (remove_proc_q h s ≡ ok (some p) (on_links (list_del (list_of_pcb p)) s))
        × Rings (list_del (list_of_pcb p) s.links) (leave h (p_list p) (lists ps) v)
    unfolding remove_proc_q pcb_of_list
    remove_proc_q-cons = (
      rw (
        list_empty-is_nil s.links v h (lists (p ∷ ps)) r e,
        next_head s.links v h (lists (p ∷ ps)) r e,
      ),
      list_del-Rings s.links v h (p_list p) [] (lists ps) r e,
    )

module _ (s : Store) (v : View) (h : Head) (p : ℕ) (r : Rings s.links v) where
  out_loop-found :
      (fuel : ℕ) (qs before : List ℕ) (after : List ℕ)
      → v.items h ≡ some (lists qs ++ lists (before ++ p ∷ after))
      → NotIn p before
      → length before < fuel
      → out_loop fuel h p (first_of (addrs (lists (before ++ p ∷ after))) (of_head h)) s
        ≡ ok (some p) (on_links (list_del (list_of_pcb p)) s)
  unfolding out_loop pcb_of_list
  out_loop-found zero qs before after e n fuel = absurd (omega arith)
  out_loop-found (suc k) qs [] after e n fuel = ground arith
  out_loop-found (suc k) qs (q ∷ before) after e n fuel = ground (
    arith,
    next_at s.links v h (p_list q) (lists qs) (lists (before ++ p ∷ after)) r e,
    out_loop-found k (qs ++ q ∷ []) before after
        (rw (lists-snoc qs q (lists (before ++ p ∷ after))) e) n.1 (omega arith),
  )

  out_loop-missing :
      (fuel : ℕ) (qs ps : List ℕ)
      → v.items h ≡ some (lists qs ++ lists ps)
      → NotIn p ps
      → length ps < fuel
      → out_loop fuel h p (first_of (addrs (lists ps)) (of_head h)) s ≡ ok none s
  unfolding out_loop pcb_of_list
  out_loop-missing zero qs ps e n fuel = absurd (omega arith)
  out_loop-missing (suc k) qs [] e n fuel = ground arith
  out_loop-missing (suc k) qs (q ∷ ps) e n fuel = ground (
    arith,
    next_at s.links v h (p_list q) (lists qs) (lists ps) r e,
    out_loop-missing k (qs ++ q ∷ []) ps (rw (lists-snoc qs q (lists ps)) e) n.1 (omega arith),
  )

  -- `outProcQ` takes a PCB out wherever it stands in the queue, behind at most `max_proc` others,
  -- and returns it; the others keep their order, and no other list changes.
  pub out_proc_q-found :
      (before after : List ℕ)
      → v.items h ≡ some (lists (before ++ p ∷ after))
      → NotIn p before
      → length before ≤ max_proc
      → (out_proc_q h p s ≡ ok (some p) (on_links (list_del (list_of_pcb p)) s))
        × Rings (list_del (list_of_pcb p) s.links) (leave h (p_list p) (lists (before ++ after)) v)
  unfolding out_proc_q
  out_proc_q-found before after e n short = (
    rw (next_head s.links v h (lists (before ++ p ∷ after)) r e)
        (out_loop-found (max_proc + 1) [] before after e n (omega arith)),
    rw (lists-append before after) (
        list_del-Rings s.links v h (p_list p) (lists before) (lists after) r
          (rw (lists-append before (p ∷ after)) at e)),
  )

  -- Where the PCB is not in the queue, `outProcQ` returns null and changes nothing.
  pub out_proc_q-missing :
      (ps : List ℕ)
      → v.items h ≡ some (lists ps)
      → NotIn p ps
      → length ps ≤ max_proc
      → out_proc_q h p s ≡ ok none s
  unfolding out_proc_q
  out_proc_q-missing ps e n short =
      rw (next_head s.links v h (lists ps) r e)
        (out_loop-missing (max_proc + 1) [] ps e n (omega arith))

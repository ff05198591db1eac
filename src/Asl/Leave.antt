-- ===== src/Asl/Leave.antt =====
-- A blocked PCB leaves its semaphore, which becomes inactive with its last PCB.
use progetto_sistemi_operati.Base.{
  ℕ, ◌≡◌, ◌≢◌, refl, ◌∙◌, ap, subst, some, List, [], ◌∷◌, ◌++◌, arith, All, NotIn,
}
use progetto_sistemi_operati.Memory.{
  of_head, p_list, s_link, s_procq, semd_active, semd_free, Links,
}
use progetto_sistemi_operati.Listx.{list_add, list_del}
use progetto_sistemi_operati.Listx.View.{View, Rings, enter, leave}
use progetto_sistemi_operati.Listx.Delete.{list_del-Rings}
use progetto_sistemi_operati.Listx.Queue.{list_add-Rings}
use progetto_sistemi_operati.Listx.Sequences.{Distinct-remove, All-remove}
use progetto_sistemi_operati.Store.{Store}
use progetto_sistemi_operati.Pcb.{list_of_pcb}
use progetto_sistemi_operati.Pcb.Queue.{lists, lists-append}
use progetto_sistemi_operati.Asl.{link_of_semd}
use progetto_sistemi_operati.Asl.View.{Sem, Asl, HoldsSem, descs, semds, descs-append}
use progetto_sistemi_operati.Asl.Frame.{waiting-frame, Asl-update, Asl-close}

-- The links and the view without the PCB, and with the descriptor among the free ones.
abbrev pub unlinked : ℕ → Links → Links
unlinked p m = list_del (list_of_pcb p) m

abbrev pub closed : ℕ → Links → Links
closed d m = list_add (link_of_semd d) (of_head semd_free) (list_del (link_of_semd d) m)

abbrev pub unlinked_view : ℕ → ℕ → List ℕ → View → View
unlinked_view d p rest v = leave (s_procq d) (p_list p) (lists rest) v

abbrev pub closed_view : ℕ → List Sem → List ℕ → View → View
closed_view d sems spare v =
    enter semd_free (s_link d) (s_link d ∷ semds spare)
      (leave semd_active (s_link d) (descs sems) v)

module _ (s : Store) (v : View) (before : List Sem) (x : Sem) (after : List Sem) (spare : List ℕ)
    (front : List ℕ) (p : ℕ) (back : List ℕ) (a : Asl s v (before ++ x ∷ after) spare)
    (h : HoldsSem s v x) (stands : x.queue ≡ front ++ p ∷ back) where
  pub queued_here : v.items (s_procq x.desc) ≡ some (lists front ++ p_list p ∷ lists back)
  queued_here = h.queued ∙ ap (λ l. some (lists l)) stands ∙ ap some (lists-append front (p ∷ back))

  pub unlinked-Rings : Rings (unlinked p s.links) (unlinked_view x.desc p (front ++ back) v)
  unlinked-Rings = rw (lists-append front back) (
      list_del-Rings s.links v (s_procq x.desc) (p_list p) (lists front) (lists back) a.rings
        queued_here)

  pub owner_here : v.owner (p_list p) ≡ some (s_procq x.desc)
  owner_here =
      (All-remove (λ i. v.owner i ≡ some (s_procq x.desc)) (lists front) (p_list p) (lists back)
        (a.rings.owned _ _ queued_here)).1

  pub rest_apart : NotIn (p_list p) (lists (front ++ back))
  rest_apart =
      rw (lists-append front back)
        (Distinct-remove (lists front) (p_list p) (lists back) (a.rings.distinct _ _ queued_here)).1

  module _ (t : Store) (key : (z : ℕ) → t.s_key z ≡ s.s_key z)
      (sem_add : (q : ℕ) → q ≢ p → (t.pcb q).sem_add ≡ (s.pcb q).sem_add) where
    -- PCBs are left: the semaphore stays active with the shorter queue.
    pub shorter-Asl :
        t.links ≡ unlinked p s.links
        → front ++ back ≢ []
        → Asl t
            (unlinked_view x.desc p (front ++ back) v)
            (before ++ record x { queue = front ++ back } ∷ after)
            spare
    shorter-Asl links more =
        Asl-update s t v _ before x after spare a p
          (record {
            rings = rw links unlinked-Rings;
            queues = λ z ne. ground arith;
            key = λ z ne. key z;
            sem_add = sem_add;
            apart = λ z ne o. ne (ground (arith, owner_here));
          })
          (record x { queue = front ++ back }) refl refl (ground arith) (ground arith)
          (record {
            queued = ground arith;
            keyed = key x.desc ∙ h.keyed;
            waiting =
                waiting-frame s t p x.key (front ++ back) sem_add rest_apart
                  (All-remove (λ q. (s.pcb q).sem_add ≡ x.key) front p back
                    (subst (All (λ q. (s.pcb q).sem_add ≡ x.key)) stands h.waiting)).0;
            nonempty = more;
          })

    closed-Rings :
        front ++ back ≡ []
        → Rings
            (closed x.desc (unlinked p s.links))
            (closed_view x.desc (before ++ after) spare (unlinked_view x.desc p [] v))
    closed-Rings last =
        list_add-Rings _ _ semd_free (s_link x.desc) (semds spare)
          (rw (descs-append before after) (
            list_del-Rings _ _ semd_active (s_link x.desc) (descs before) (descs after)
              (subst (λ l. Rings (unlinked p s.links) (unlinked_view x.desc p l v)) last
                unlinked-Rings)
              (ground (arith, a.active, descs-append before (x ∷ after)))))
          (ground (arith, a.free)) (ground arith)

    -- It was the last PCB: the descriptor becomes free.
    pub closed-Asl :
        t.links ≡ closed x.desc (unlinked p s.links)
        → front ++ back ≡ []
        → Asl t
            (closed_view x.desc (before ++ after) spare (unlinked_view x.desc p [] v))
            (before ++ after)
            (x.desc ∷ spare)
    closed-Asl links last =
        Asl-close s t v _ before x after spare a p
          (record {
            rings = rw links (closed-Rings last);
            queues = λ z ne. ground arith;
            key = λ z ne. key z;
            sem_add = sem_add;
            apart = λ z ne o. ne (ground (arith, owner_here));
          })
          (ground arith) (ground arith) (ground arith)

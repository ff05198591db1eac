-- ===== src/Nucleus/Moves.antt =====
-- The operations of phase1/pcb.c on the ready queue, on the lists of the whole kernel.
use progetto_sistemi_operati.Base.{
  ℕ, ◌<◌, ◌≡◌, ◌≢◌, refl, sym, ◌∙◌, ap, subst, none, some, inl, inr, List, [], ◌∷◌, ◌++◌, arith,
  ℕ_discrete,
}
use progetto_sistemi_operati.Memory.{Links, of_head, p_list, ready_queue}
use progetto_sistemi_operati.Listx.{list_del, list_add_tail}
use progetto_sistemi_operati.Listx.Queue.{list_add_tail-Rings}
use progetto_sistemi_operati.Listx.View.{Rings, enter, leave}
use progetto_sistemi_operati.Store.{Store, ok, on_links}
use progetto_sistemi_operati.Pcb.{max_proc, list_of_pcb, insert_proc_q, remove_proc_q}
use progetto_sistemi_operati.Pcb.Queue.{
  lists-append, lists, insert_prio, prio_in, insert_proc_q-insert_prio, remove_proc_q-cons,
}
use progetto_sistemi_operati.Nucleus.Wakes.{Asl-same}
use progetto_sistemi_operati.Nucleus.Kernel.{Lists, Placed-same}
use progetto_sistemi_operati.Nucleus.Leaving.{waiting-owned}
use progetto_sistemi_operati.Nucleus.Steady.{Steady, Steady-Kernel, Still}

-- A process apart from all lists, that names no semaphore.
pub record Loose (s : Store) (k : Lists) (p : ℕ) : Type 0 where
  pub unlisted : k.view.owner (p_list p) ≡ none
  pub awake : (s.pcb p).sem_add ≡ 0
  pub known : p < max_proc

pub ok-inj : {A : Type 0} (a b : A) (s t : Store) → ok a s ≡ ok b t → (a ≡ b) × (s ≡ t)
ok-inj a b s t e = (cc, cc)

module _ (s : Store) (k : Lists) (h : Steady s k) where
  -- A ready process names no semaphore.
  ready-awake : (p : ℕ) → k.view.owner (p_list p) ≡ some ready_queue → (s.pcb p).sem_add ≡ 0
  ready-awake p o = elim (h.placed p (h.pcbs p ready_queue o)) [
    | inl free ↦ absurd (ground (arith, o, free))
    | inr at ↦ elim at [
      | inl idle ↦ idle.0
      | inr blocked ↦
          let held =
            waiting-owned s k.view (s.pcb p).sem_add k.sems p h.asl.rings h.asl.holds blocked.1 in
          absurd (ground (arith, o, held.1))
    ]
  ]

  module _ (p : ℕ) (loose : Loose s k p) where
    -- The ready queue becomes `queue`, in which it stands.
    module _ (m : Links) (queue : List ℕ)
        (rings : Rings m (enter ready_queue (p_list p) (lists queue) k.view)) where
      abbrev longer : Lists
      longer = record k { view = enter ready_queue (p_list p) (lists queue) k.view; ready = queue }

      joined :
          let t = record s { links = m } in
          Steady t longer × Still s k t longer × ((z : ℕ) → Loose s k z → z ≢ p → Loose t longer z)
      joined =
          let t = record s { links = m } in
          let l = longer in
          let w = l.view in
          (
            record {
              asl =
                  Asl-same s k.view t w refl (λ z. refl) (λ z. ground arith) k.sems k.spare
                    (ground arith) (ground arith) rings h.asl;
              parent = λ c. ground (arith, h.parent c);
              queued = ground arith;
              free = ground (arith, h.free);
              pcbs = λ z g o. elim (ℕ_discrete z p) [
                | yes e ↦ subst (λ a. a < max_proc) (sym e) loose.known
                | no ne ↦ h.pcbs z g (ground (arith, o, ne))
              ];
              semds = λ d g o. h.semds d g (ground (arith, o));
              slots = λ d lt. elim (h.slots d lt) [
                | inl a ↦ inl (ground (arith, a))
                | inr a ↦ inr (ground (arith, a))
              ];
              placed = λ z lt. elim (ℕ_discrete z p) [
                | yes e ↦
                    inr (inl (ap (λ a. (s.pcb a).sem_add) e ∙ loose.awake, inr (ground (arith, e))))
                | no ne ↦ elim (h.placed z lt) [
                  | inl free ↦ inl (ground (arith, free, ne))
                  | inr at ↦ inr (Placed-same s k t l z refl (ground (arith, ne)) (λ b i. i) at)
                ]
              ];
              orphan = λ z free. h.orphan z (ground (arith, free));
              kids = λ z lt used.
                  let (xs, e) = h.kids z lt (λ free. used (ground (arith, free, loose.unlisted))) in
                  (xs, ground (arith, e));
              childless = λ z free i o. h.childless z (ground (arith, free)) i (ground (arith, o));
            },
            record {
              children = λ z. ground arith;
              unused = ground arith;
              parents = λ z. refl;
              current = refl;
            },
            λ z e ne. record {
              unlisted = ground (arith, ne, e.unlisted);
              awake = e.awake;
              known = e.known;
            },
          )

    -- It joins the ready queue.
    pub enqueued :
        (t : Store) × (l : Lists) × (insert_proc_q ready_queue p s ≡ ok tt t)
        × Steady t l
        × Still s k t l
        × ((z : ℕ) → Loose s k z → z ≢ p → Loose t l z)
    enqueued =
        let (m, run, rings) =
          insert_proc_q-insert_prio s k.view ready_queue p h.asl.rings loose.unlisted k.ready
            h.queued (Steady-Kernel s k h).room in
        let queue = insert_prio (prio_in s) p k.ready in
        let (steady, still, apart) = joined m queue rings in
        (record s { links = m }, longer m queue rings, run, steady, still, apart)

    -- It becomes the last one in the ready queue.
    pub appended :
        let t = on_links (list_add_tail (list_of_pcb p) (of_head ready_queue)) s in
        (l : Lists) × Steady t l × Still s k t l × ((z : ℕ) → Loose s k z → z ≢ p → Loose t l z)
    appended =
        let queue = k.ready ++ p ∷ [] in
        let t = on_links (list_add_tail (list_of_pcb p) (of_head ready_queue)) s in
        let rings : Rings t.links (enter ready_queue (p_list p) (lists queue) k.view) =
          rw (lists-append k.ready (p ∷ [])) (
            list_add_tail-Rings s.links k.view ready_queue (p_list p) (lists k.ready) h.asl.rings
              h.queued loose.unlisted) in
        let (steady, still, apart) = joined t.links queue rings in
        (longer t.links queue rings, steady, still, apart)

  module _ (p : ℕ) (ps : List ℕ) (first : k.ready ≡ p ∷ ps) where
    -- The first ready process leaves the ready queue.
    pub dequeued :
        (t : Store) × (l : Lists) × (remove_proc_q ready_queue s ≡ ok (some p) t)
        × Steady t l
        × Still s k t l
        × Loose t l p
    dequeued =
        let here : k.view.items ready_queue ≡ some (lists (p ∷ ps)) =
          h.queued ∙ ap (λ qs. some (lists qs)) first in
        let (run, rings) = remove_proc_q-cons s k.view ready_queue h.asl.rings p ps here in
        let o : k.view.owner (p_list p) ≡ some ready_queue = (h.asl.rings.owned _ _ here).0 in
        let w = leave ready_queue (p_list p) (lists ps) k.view in
        let t = on_links (list_del (list_of_pcb p)) s in
        let l = record k { view = w; ready = ps } in
        (
          t,
          l,
          run,
          record {
            asl =
                Asl-same s k.view t w refl (λ z. refl) (λ z. ground arith) k.sems k.spare
                  (ground arith) (ground arith) rings h.asl;
            parent = λ c. ground (arith, h.parent c);
            queued = ground arith;
            free = ground (arith, h.free);
            pcbs = λ z g o. h.pcbs z g (ground (arith, o));
            semds = λ d g o. h.semds d g (ground (arith, o));
            slots = λ d lt. elim (h.slots d lt) [
              | inl a ↦ inl (ground (arith, a))
              | inr a ↦ inr (ground (arith, a))
            ];
            placed = λ z lt. elim (ℕ_discrete z p) [
              | yes e ↦
                  inr
                    (inl (ap (λ a. (s.pcb a).sem_add) e ∙ ready-awake p o, inl (ground (arith, e))))
              | no ne ↦ elim (h.placed z lt) [
                | inl free ↦ inl (ground (arith, free, ne))
                | inr at ↦ inr (Placed-same s k t l z refl (ground (arith, ne)) (λ b i. i) at)
              ]
            ];
            orphan = λ z free. h.orphan z (ground (arith, free));
            kids = λ z lt used.
                let (xs, e) = h.kids z lt (λ free. used (ground (arith, free, o))) in
                (xs, ground (arith, e));
            childless = λ z free i o. h.childless z (ground (arith, free)) i (ground (arith, o));
          },
          record {
            children = λ z. ground arith;
            unused = ground arith;
            parents = λ z. refl;
            current = refl;
          },
          record {
            unlisted = ground arith;
            awake = ready-awake p o;
            known = h.pcbs p ready_queue o;
          },
        )

-- ===== src/Asl/Block.antt =====
-- `insertBlocked` of phase1/asl.c on each of its branches.
use progetto_sistemi_operati.Base.{
  ℕ, ◌≤◌, ◌≡◌, ◌≢◌, refl, true, false, none, some, List, [], ◌∷◌, ◌++◌, arith, All, NotIn, length,
}
use progetto_sistemi_operati.Memory.{Item, of_head, p_list, s_link, s_procq, semd_active, semd_free}
use progetto_sistemi_operati.Listx.{list_add, list_add_tail, list_del, init_list_head}
use progetto_sistemi_operati.Listx.View.{View, Rings, enter, leave}
use progetto_sistemi_operati.Listx.Delete.{list_del-Rings}
use progetto_sistemi_operati.Listx.Init.{create, init_head-Rings}
use progetto_sistemi_operati.Listx.Rings.{owned-NotIn}
use progetto_sistemi_operati.Listx.Queue.{
  list_empty-is_nil, next_head, list_add-Rings, list_add_tail-Rings,
}
use progetto_sistemi_operati.Store.{Store, ok, on_links, semd_of_link}
use progetto_sistemi_operati.Pcb.{max_proc, list_of_pcb}
use progetto_sistemi_operati.Pcb.Queue.{lists, lists-append}
use progetto_sistemi_operati.Asl.{
  link_of_semd, put_key, set_sem_add, block_on, open_semd, insert_blocked,
}
use progetto_sistemi_operati.Asl.View.{Sem, Asl, HoldsSem, descs, semds, keys}
use progetto_sistemi_operati.Asl.Find.{active_semd-hit, active_semd-miss}
use progetto_sistemi_operati.Asl.Frame.{OnlyAt, waiting-frame, Asl-update, Asl-open}

-- The state behind the write of a PCB to the queue of a descriptor.
abbrev pub blocked : ℕ → ℕ → ℕ → Store → Store
blocked d k p s = set_sem_add p k (on_links (list_add_tail (list_of_pcb p) (of_head (s_procq d))) s)

-- The semaphore with one more PCB at the end of its queue.
abbrev pub joined : Sem → ℕ → Sem
joined x p = record x { queue = x.queue ++ p ∷ [] }

joined-waiting :
    (s t : Store) (p k : ℕ) (qs : List ℕ)
    → All (λ q. (t.pcb q).sem_add ≡ k) qs
    → (t.pcb p).sem_add ≡ k
    → All (λ q. (t.pcb q).sem_add ≡ k) (qs ++ p ∷ [])
joined-waiting s t p k [] a e = (e, tt)
joined-waiting s t p k (q ∷ qs) a e = (a.0, joined-waiting s t p k qs a.1 e)

snoc-ne-nil : (qs : List ℕ) (p : ℕ) → (qs ++ p ∷ []) ≢ []
snoc-ne-nil [] p e = cc
snoc-ne-nil (q ∷ qs) p e = cc

module _ (s : Store) (v : View) (before : List Sem) (x : Sem) (after : List Sem) (spare : List ℕ)
    (p : ℕ) (a : Asl s v (before ++ x ∷ after) spare) (h : HoldsSem s v x)
    (free : v.owner (p_list p) ≡ none) where
  queue_view : View
  queue_view = enter (s_procq x.desc) (p_list p) (lists x.queue ++ p_list p ∷ []) v

  blocked-OnlyAt : OnlyAt x.desc p s (blocked x.desc x.key p s) v queue_view
  unfolding queue_view
  blocked-OnlyAt = record {
    rings =
        list_add_tail-Rings s.links v (s_procq x.desc) (p_list p) (lists x.queue) a.rings h.queued
          free;
    queues = λ z ne. ground arith;
    key = λ z ne. refl;
    sem_add = λ q ne. ground arith;
    apart = λ z ne o. cc;
  }

  blocked-Asl : Asl (blocked x.desc x.key p s) queue_view (before ++ joined x p ∷ after) spare
  unfolding queue_view
  blocked-Asl =
      Asl-update s _ v _ before x after spare a p blocked-OnlyAt (joined x p) refl refl
        (ground arith) (ground arith)
        (record {
          queued = rw (lists-append x.queue (p ∷ [])) (ground arith);
          keyed = h.keyed;
          waiting =
              joined-waiting s (blocked x.desc x.key p s) p x.key x.queue
                (waiting-frame s (blocked x.desc x.key p s) p x.key x.queue (λ q ne. ground arith)
                  (owned-NotIn v (s_procq x.desc) (p_list p) (lists x.queue) (λ o. cc)
                    (a.rings.owned _ _ h.queued))
                  h.waiting)
                (ground arith);
          nonempty = snoc-ne-nil x.queue p;
        })

  -- Where a semaphore with the key is active, the PCB joins the end of its queue, and nothing else
  -- changes.
  pub insert_blocked-active :
      NotIn x.key (keys before)
      → length before ≤ max_proc
      → (insert_blocked x.key p s ≡ ok false (blocked x.desc x.key p s))
        × Asl
            (blocked x.desc x.key p s)
            (enter (s_procq x.desc) (p_list p) (lists x.queue ++ p_list p ∷ []) v)
            (before ++ joined x p ∷ after)
            spare
  unfolding insert_blocked block_on queue_view
  insert_blocked-active n short =
      (rw (active_semd-hit s v before x after spare a n short), blocked-Asl)

-- With a new key and no descriptor left, it returns TRUE and changes nothing.
pub insert_blocked-full :
    (s : Store) (v : View) (sems : List Sem) (k p : ℕ)
    → Asl s v sems []
    → NotIn k (keys sems)
    → length sems ≤ max_proc
    → insert_blocked k p s ≡ ok true s
unfolding insert_blocked
insert_blocked-full s v sems k p a n short = rw (
  active_semd-miss s v k sems [] a n short,
  list_empty-is_nil s.links v semd_free [] a.rings a.free,
)

-- The state behind the activation of the descriptor `d`.
abbrev pub opened : ℕ → ℕ → Store → Store
opened d k s = on_links (list_add (link_of_semd d) (of_head semd_active)) (
    put_key d k
      (on_links (init_list_head (of_head (s_procq d))) (on_links (list_del (link_of_semd d)) s)))

abbrev pub opened_view : View → List Sem → ℕ → List ℕ → ℕ → View
opened_view v sems d spare p = enter (s_procq d) (p_list p) (p_list p ∷ []) (
    enter semd_active (s_link d) (s_link d ∷ descs sems)
      (create (s_procq d) (leave semd_free (s_link d) (semds spare) v)))

module _ (s : Store) (v : View) (sems : List Sem) (d : ℕ) (spare : List ℕ) (k p : ℕ)
    (a : Asl s v sems (d ∷ spare)) (free : v.owner (p_list p) ≡ none) where
  queue_vacant : (i : Item) → v.owner i ≢ some (s_procq d)
  queue_vacant i o =
      let at = a.rings.listed i (s_procq d) o in absurd (ground (arith, at.1, at.2, a.idle.0))

  opened-Rings : Rings (blocked d k p (opened d k s)).links (opened_view v sems d spare p)
  opened-Rings =
      list_add_tail-Rings _ _ (s_procq d) (p_list p) []
        (list_add-Rings _ _ semd_active (s_link d) (descs sems)
          (init_head-Rings _ _ (s_procq d)
            (list_del-Rings s.links v semd_free (s_link d) [] (semds spare) a.rings a.free)
            (λ i o. queue_vacant i (ground arith)))
          (ground (arith, a.active)) (ground arith))
        (ground arith) (ground arith)

  -- With a new key, a free descriptor becomes the first active one, with the PCB alone in its
  -- queue.
  pub insert_blocked-new :
      NotIn k (keys sems)
      → length sems ≤ max_proc
      → (insert_blocked k p s ≡ ok false (blocked d k p (opened d k s)))
        × Asl
            (blocked d k p (opened d k s))
            (opened_view v sems d spare p)
            (record { desc = d; key = k; queue = p ∷ [] } ∷ sems)
            spare
  unfolding insert_blocked block_on open_semd semd_of_link
  insert_blocked-new n short = (
    rw (
      active_semd-miss s v k sems (d ∷ spare) a n short,
      list_empty-is_nil s.links v semd_free (semds (d ∷ spare)) a.rings a.free,
      next_head s.links v semd_free (semds (d ∷ spare)) a.rings a.free,
    ),
    Asl-open s _ v _ sems (record { desc = d; key = k; queue = p ∷ [] }) spare p a
        (record {
          rings = opened-Rings;
          queues = λ z ne. ground arith;
          key = λ z ne. ground arith;
          sem_add = λ q ne. ground arith;
          apart = λ z ne o. cc;
        })
        (ground arith) (ground arith) n
        (record {
          queued = ground arith;
          keyed = ground arith;
          waiting = (ground arith, tt);
          nonempty = λ e. cc;
        }),
  )

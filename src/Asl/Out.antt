-- ===== src/Asl/Out.antt =====
-- `outBlocked` of phase1/asl.c on each of its branches.
use progetto_sistemi_operati.Base.{
  ℕ, ◌≤◌, ◌≡◌, refl, ◌∙◌, ap, none, some, List, [], ◌∷◌, ◌++◌, arith, NotIn, length,
}
use progetto_sistemi_operati.Memory.{of_head, p_list, s_procq, semd_active}
use progetto_sistemi_operati.Listx.{list_empty}
use progetto_sistemi_operati.Listx.View.{View}
use progetto_sistemi_operati.Listx.Queue.{list_empty-is_nil, is_nil}
use progetto_sistemi_operati.Store.{Store, ok, fault, on_links}
use progetto_sistemi_operati.Pcb.{max_proc, out_proc_q}
use progetto_sistemi_operati.Pcb.Queue.{lists, out_proc_q-found, out_proc_q-missing}
use progetto_sistemi_operati.Asl.{
  set_sem_add, active_semd, close_if_empty, forget_sem, forget_sem_unchecked, out_blocked,
}
use progetto_sistemi_operati.Asl.View.{Sem, Asl, HoldsSem, keys}
use progetto_sistemi_operati.Asl.Find.{active_semd-hit, active_semd-miss}
use progetto_sistemi_operati.Asl.Leave.{
  closed, unlinked, unlinked_view, closed_view, unlinked-Rings, shorter-Asl, closed-Asl, rest_apart,
}
use progetto_sistemi_operati.Asl.Remove.{active_found, after_unlink, after_remove}

-- The states behind `outBlocked`, which writes the null `p_semAdd` twice.
abbrev pub after_out : ℕ → Store → Store
after_out p s = set_sem_add p 0 (after_remove p s)

abbrev pub after_out_close : ℕ → ℕ → Store → Store
after_out_close d p s = set_sem_add p 0 (on_links (closed d) (after_remove p s))

front-NotIn :
    (p : ℕ) (front back : List ℕ) → NotIn (p_list p) (lists (front ++ back)) → NotIn p front
front-NotIn p [] back n = tt
front-NotIn p (q ∷ front) back n = (λ e. n.0 (ap p_list e), front-NotIn p front back n.1)

module _ (s : Store) (v : View) (before : List Sem) (x : Sem) (after : List Sem) (spare : List ℕ)
    (p : ℕ) (a : Asl s v (before ++ x ∷ after) spare) (h : HoldsSem s v x)
    (n : NotIn x.key (keys before)) (short : length before ≤ max_proc)
    (waits : (s.pcb p).sem_add ≡ x.key) where
  found_at : active_semd (s.pcb p).sem_add s ≡ ok (some x.desc) s
  found_at = rw waits (active_semd-hit s v before x after spare a n short)

  module _ (front back : List ℕ) (stands : x.queue ≡ front ++ p ∷ back)
      (near : length front ≤ max_proc) where
    taken : out_proc_q (s_procq x.desc) p s ≡ ok (some p) (after_unlink p s)
    taken =
        (out_proc_q-found s v (s_procq x.desc) p a.rings front back
          (h.queued ∙ ap (λ l. some (lists l)) stands)
          (front-NotIn p front back (rest_apart s v before x after spare front p back a h stands))
          near).0

    still_empty :
        list_empty (of_head (s_procq x.desc)) (unlinked p s.links) ≡ is_nil (lists (front ++ back))
    still_empty =
        list_empty-is_nil _ _ (s_procq x.desc) (lists (front ++ back))
          (unlinked-Rings s v before x after spare front p back a h stands) (ground arith)

    -- A PCB that names an active semaphore and stands in its queue, with other PCBs, is taken out by
    -- `outBlocked` and returned, where at most `max_proc` semaphores and PCBs stand before it. The
    -- others keep their order, the semaphore stays active and the list of semaphores well formed.
    pub out_blocked-more :
        (q : ℕ) (rest : List ℕ)
        → front ++ back ≡ q ∷ rest
        → (out_blocked p s ≡ ok (some p) (after_out p s))
          × Asl
              (after_out p s)
              (unlinked_view x.desc p (front ++ back) v)
              (before ++ record x { queue = front ++ back } ∷ after)
              spare
    unfolding out_blocked close_if_empty forget_sem forget_sem_unchecked
    out_blocked-more q rest more = (
      rw (
        active_found s v before x after spare a,
        found_at,
        taken,
        still_empty ∙ ap (λ l. is_nil (lists l)) more,
      ),
      shorter-Asl s v before x after spare front p back a h stands (after_out p s) (λ z. refl)
          (λ r ne. ground arith) refl (λ e. cc),
    )

    -- With the last PCB the descriptor becomes free.
    pub out_blocked-last :
        front ++ back ≡ []
        → (out_blocked p s ≡ ok (some p) (after_out_close x.desc p s))
          × Asl
              (after_out_close x.desc p s)
              (closed_view x.desc (before ++ after) spare (unlinked_view x.desc p [] v))
              (before ++ after)
              (x.desc ∷ spare)
    unfolding out_blocked close_if_empty forget_sem forget_sem_unchecked
    out_blocked-last last = (
      rw (
        active_found s v before x after spare a,
        found_at,
        taken,
        still_empty ∙ ap (λ l. is_nil (lists l)) last,
      ),
      closed-Asl s v before x after spare front p back a h stands (after_out_close x.desc p s)
          (λ z. refl) (λ r ne. ground arith) refl last,
    )

  -- A PCB that names an active semaphore but is not among the at most `max_proc` PCBs of its queue
  -- makes `outBlocked` write through a null pointer.
  pub out_blocked-fault : NotIn p x.queue → length x.queue ≤ max_proc → out_blocked p s ≡ fault
  unfolding out_blocked forget_sem_unchecked
  out_blocked-fault out near = rw (
    active_found s v before x after spare a,
    found_at,
    out_proc_q-missing s v (s_procq x.desc) p a.rings x.queue h.queued out near,
  )

-- A PCB that names no active semaphore is left alone.
pub out_blocked-missing :
    (s : Store) (v : View) (p : ℕ) (sems : List Sem) (spare : List ℕ)
    → Asl s v sems spare
    → NotIn (s.pcb p).sem_add (keys sems)
    → length sems ≤ max_proc
    → out_blocked p s ≡ ok none s
unfolding out_blocked
out_blocked-missing s v p [] spare a n short =
    rw (list_empty-is_nil s.links v semd_active [] a.rings a.active)
out_blocked-missing s v p (x ∷ sems) spare a n short =
    rw (active_found s v [] x sems spare a, active_semd-miss s v _ (x ∷ sems) spare a n short)

-- ===== src/Asl/Remove.antt =====
-- `removeBlocked`, `outBlocked` and `headBlocked` of phase1/asl.c on each of their branches.
use progetto_sistemi_operati.Base.{
  ℕ, ◌≤◌, ◌≡◌, refl, ◌∙◌, ap, false, none, some, List, [], ◌∷◌, ◌++◌, arith, NotIn, length,
}
use progetto_sistemi_operati.Memory.{of_head, s_procq, semd_active}
use progetto_sistemi_operati.Listx.{list_empty}
use progetto_sistemi_operati.Listx.View.{View}
use progetto_sistemi_operati.Listx.Queue.{list_empty-is_nil, is_nil}
use progetto_sistemi_operati.Store.{Store, ok, on_links}
use progetto_sistemi_operati.Pcb.{max_proc, remove_proc_q}
use progetto_sistemi_operati.Pcb.Queue.{lists, remove_proc_q-cons, head_proc_q-cons}
use progetto_sistemi_operati.Asl.{
  set_sem_add, close_if_empty, forget_sem, remove_blocked, head_blocked,
}
use progetto_sistemi_operati.Asl.View.{Sem, Asl, HoldsSem, descs, keys}
use progetto_sistemi_operati.Asl.Find.{active_semd-hit, active_semd-miss}
use progetto_sistemi_operati.Asl.Leave.{
  unlinked, closed, unlinked_view, closed_view, unlinked-Rings, shorter-Asl, closed-Asl,
}

some_active :
    (before : List Sem) (x : Sem) (after : List Sem) → is_nil (descs (before ++ x ∷ after)) ≡ false
some_active [] x after = refl
some_active (y ∷ before) x after = refl

pub active_found :
    (s : Store) (v : View) (before : List Sem) (x : Sem) (after : List Sem) (spare : List ℕ)
    → Asl s v (before ++ x ∷ after) spare
    → list_empty (of_head semd_active) s.links ≡ false
active_found s v before x after spare a =
    list_empty-is_nil s.links v semd_active (descs (before ++ x ∷ after)) a.rings a.active
    ∙ some_active before x after

-- The states behind a removal.
abbrev pub after_unlink : ℕ → Store → Store
after_unlink p s = on_links (unlinked p) s

abbrev pub after_remove : ℕ → Store → Store
after_remove p s = set_sem_add p 0 (after_unlink p s)

abbrev pub after_close : ℕ → ℕ → Store → Store
after_close d p s = set_sem_add p 0 (on_links (closed d) (after_unlink p s))

module _ (s : Store) (v : View) (before : List Sem) (x : Sem) (after : List Sem) (spare : List ℕ)
    (p : ℕ) (a : Asl s v (before ++ x ∷ after) spare) (h : HoldsSem s v x)
    (n : NotIn x.key (keys before)) (short : length before ≤ max_proc) where
  taken :
      (back : List ℕ)
      → x.queue ≡ p ∷ back
      → remove_proc_q (s_procq x.desc) s ≡ ok (some p) (after_unlink p s)
  taken back stands =
      (remove_proc_q-cons s v (s_procq x.desc) a.rings p back
        (h.queued ∙ ap (λ l. some (lists l)) stands)).0

  still_empty :
      (back : List ℕ)
      → x.queue ≡ p ∷ back
      → list_empty (of_head (s_procq x.desc)) (unlinked p s.links) ≡ is_nil (lists back)
  still_empty back stands =
      list_empty-is_nil _ _ (s_procq x.desc) (lists back)
        (unlinked-Rings s v before x after spare [] p back a h stands) (ground arith)

  -- `removeBlocked` takes the oldest PCB of the semaphore with the key; the semaphore stays active
  -- while PCBs wait.
  pub remove_blocked-more :
      (q : ℕ) (back : List ℕ)
      → x.queue ≡ p ∷ q ∷ back
      → (remove_blocked x.key s ≡ ok (some p) (after_remove p s))
        × Asl
            (after_remove p s)
            (unlinked_view x.desc p (q ∷ back) v)
            (before ++ record x { queue = q ∷ back } ∷ after)
            spare
  unfolding remove_blocked close_if_empty forget_sem
  remove_blocked-more q back stands = (
    rw (
      active_found s v before x after spare a,
      active_semd-hit s v before x after spare a n short,
      taken (q ∷ back) stands,
      still_empty (q ∷ back) stands,
    ),
    shorter-Asl s v before x after spare [] p (q ∷ back) a h stands (after_remove p s) (λ z. refl)
        (λ r ne. ground arith) refl (λ e. cc),
  )

  -- With the last PCB the descriptor becomes free.
  pub remove_blocked-last :
      x.queue ≡ p ∷ []
      → (remove_blocked x.key s ≡ ok (some p) (after_close x.desc p s))
        × Asl
            (after_close x.desc p s)
            (closed_view x.desc (before ++ after) spare (unlinked_view x.desc p [] v))
            (before ++ after)
            (x.desc ∷ spare)
  unfolding remove_blocked close_if_empty forget_sem
  remove_blocked-last stands = (
    rw (
      active_found s v before x after spare a,
      active_semd-hit s v before x after spare a n short,
      taken [] stands,
      still_empty [] stands,
    ),
    closed-Asl s v before x after spare [] p [] a h stands (after_close x.desc p s) (λ z. refl)
        (λ r ne. ground arith) refl refl,
  )

  -- `headBlocked` returns the oldest PCB and changes nothing.
  pub head_blocked-first :
      (back : List ℕ) → x.queue ≡ p ∷ back → head_blocked x.key s ≡ ok (some p) s
  unfolding head_blocked
  head_blocked-first back stands = rw (
    active_found s v before x after spare a,
    active_semd-hit s v before x after spare a n short,
    head_proc_q-cons s v (s_procq x.desc) a.rings p back
        (h.queued ∙ ap (λ l. some (lists l)) stands),
  )

-- Where no active semaphore has the key, both return null and change nothing.
pub remove_blocked-missing :
    (s : Store) (v : View) (k : ℕ) (sems : List Sem) (spare : List ℕ)
    → Asl s v sems spare
    → NotIn k (keys sems)
    → length sems ≤ max_proc
    → (remove_blocked k s ≡ ok none s) × (head_blocked k s ≡ ok none s)
unfolding remove_blocked head_blocked
remove_blocked-missing s v k [] spare a n short =
    let e = list_empty-is_nil s.links v semd_active [] a.rings a.active in (rw e, rw e)
remove_blocked-missing s v k (x ∷ sems) spare a n short =
    let e = active_found s v [] x sems spare a in
    let miss = active_semd-miss s v k (x ∷ sems) spare a n short in (rw (e, miss), rw (e, miss))

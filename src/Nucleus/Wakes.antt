-- ===== src/Nucleus/Wakes.antt =====
-- The step that wakes a process: it leaves the queue of its semaphore and joins the ready queue.
use progetto_sistemi_operati.Base.{
  ℕ, ◌≤◌, ◌≡◌, ◌≢◌, refl, sym, ◌∙◌, ap, subst, fun_ext, none, some, List, [], ◌∷◌, length, All,
  arith,
}
use progetto_sistemi_operati.Memory.{Links, ready_queue, p_list, s_procq, semd_active, semd_free}
use progetto_sistemi_operati.Listx.View.{View, Rings, enter}
use progetto_sistemi_operati.Store.{Store, Run, ok, stop, ldst}
use progetto_sistemi_operati.Pcb.{max_proc, insert_proc_q}
use progetto_sistemi_operati.Pcb.Queue.{lists, prio_in, insert_prio, insert_proc_q-insert_prio}
use progetto_sistemi_operati.Asl.{remove_blocked}
use progetto_sistemi_operati.Asl.View.{Sem, Asl, HoldsSem}
use progetto_sistemi_operati.Asl.Waiting.{waiting}
use progetto_sistemi_operati.Asl.Spec.{Became, remove_blocked-queue}
use progetto_sistemi_operati.Nucleus.Scheduler.{scheduler}
use progetto_sistemi_operati.Nucleus.Interrupts.{go_on}

-- The running process is loaded from the state that the interrupt has left at the address `state`,
-- and where none runs it is the scheduler's turn.
abbrev pub goes_on : ℕ → Store → Run (Unit {0})
goes_on state t = elim t.current_process [
  | none ↦ scheduler t
  | some p ↦ stop (ldst (t.machine.state_at state)) t
]

pub go_on-goes_on : (state : ℕ) (t : Store) → go_on state t ≡ goes_on state t
unfolding go_on
go_on-goes_on state t = refl

-- The semaphores speak of their own lists, of the keys and of the semaphores that processes name.
module _ (s : Store) (v : View) (t : Store) (w : View) (keys : t.s_key ≡ s.s_key)
    (same_sems : (z : ℕ) → (t.pcb z).sem_add ≡ (s.pcb z).sem_add)
    (queues : (z : ℕ) → w.items (s_procq z) ≡ v.items (s_procq z)) where
  waiting-same :
      (k : ℕ) (qs : List ℕ)
      → All (λ z. (s.pcb z).sem_add ≡ k) qs
      → All (λ z. (t.pcb z).sem_add ≡ k) qs
  waiting-same k [] a = tt
  waiting-same k (q ∷ qs) a = (same_sems q ∙ a.0, waiting-same k qs a.1)

  HoldsSem-same : (xs : List Sem) → All (HoldsSem s v) xs → All (HoldsSem t w) xs
  HoldsSem-same [] a = tt
  HoldsSem-same (x ∷ xs) a = (
    record {
      queued = queues x.desc ∙ a.0.queued;
      keyed = ap (λ f. f x.desc) keys ∙ a.0.keyed;
      waiting = waiting-same x.key x.queue a.0.waiting;
      nonempty = a.0.nonempty;
    },
    HoldsSem-same xs a.1,
  )

  idle-same :
      (ds : List ℕ)
      → All (λ d. v.items (s_procq d) ≡ some []) ds
      → All (λ d. w.items (s_procq d) ≡ some []) ds
  idle-same [] a = tt
  idle-same (d ∷ ds) a = (queues d ∙ a.0, idle-same ds a.1)

  pub Asl-same :
      (sems : List Sem) (spare : List ℕ)
      → w.items semd_active ≡ v.items semd_active
      → w.items semd_free ≡ v.items semd_free
      → Rings t.links w
      → Asl s v sems spare
      → Asl t w sems spare
  Asl-same sems spare active free r a = record {
    rings = r;
    active = active ∙ a.active;
    free = free ∙ a.free;
    holds = HoldsSem-same sems a.holds;
    unique = a.unique;
    idle = idle-same spare a.idle;
  }

-- A process has left the queue of the key `k` and joined the ready queue at the place of its
-- priority; the other queues of semaphores are as they were, and the lists and the semaphores are
-- well formed, and no more of the semaphores are active.
pub record Wakes (s : Store) (k p : ℕ) (ps ready : List ℕ) (sems : List Sem) (t : Store)
    : Type 0 where
  pub view : View
  pub sems' : List Sem
  pub spare' : List ℕ
  pub asl : Asl t view sems' spare'
  pub queue : waiting k sems' ≡ ps
  pub same : (j : ℕ) → j ≢ k → waiting j sems' ≡ waiting j sems
  pub fewer : length sems' ≤ length sems
  pub queued : view.items ready_queue ≡ some (lists (insert_prio (prio_in s) p ready))

module _ (s : Store) (v : View) (spare : List ℕ) (k : ℕ) (sems : List Sem) (p : ℕ)
    (ps ready : List ℕ) where
  -- What `removeBlocked` and then `insertProcQ` do, with a change of the state between them that
  -- leaves the links and the priorities alone.
  pub remove_blocked-insert_proc_q :
      Asl s v sems spare
      → length sems ≤ max_proc
      → v.items ready_queue ≡ some (lists ready)
      → length ready ≤ max_proc
      → waiting k sems ≡ p ∷ ps
      → (t : Store) × (remove_blocked k s ≡ ok (some p) t)
        × (b : Became s v k ps sems t) × (length b.sems' ≤ length sems)
        × ((u : Store)
            → u.links ≡ t.links
            → ((z : ℕ) → (u.pcb z).prio ≡ (t.pcb z).prio)
            → (m : Links) × (insert_proc_q ready_queue p u ≡ ok tt (record u { links = m }))
              × Rings m
                  (enter ready_queue (p_list p) (lists (insert_prio (prio_in s) p ready)) b.view))
  remove_blocked-insert_proc_q a short listed room e =
      let (t, run, b, free, fewer) = remove_blocked-queue s v spare k (p ∷ ps) sems a short e in
      (
        t,
        run,
        b,
        fewer,
        λ u links prios.
            let here : b.view.items ready_queue ≡ some (lists ready) =
              b.lists ready_queue (λ e. cc) (λ e. cc) (λ d e. cc) ∙ listed in
            let (m, inserted, rings) =
              insert_proc_q-insert_prio u b.view ready_queue p
                (subst (λ l. Rings l b.view) (sym links) b.asl.rings) (free p refl) ready here
                room in
            let same : prio_in u ≡ prio_in s =
              fun_ext (λ z. prios z ∙ ap (λ x. x.prio) (b.pcbs z)) in
            (m, inserted, rw same at rings),
      )

  pub Became-Wakes :
      (t : Store) (b : Became s v k ps sems t) (u : Store)
      → length b.sems' ≤ length sems
      → u.s_key ≡ t.s_key
      → ((z : ℕ) → (u.pcb z).sem_add ≡ (t.pcb z).sem_add)
      → Rings u.links
          (enter ready_queue (p_list p) (lists (insert_prio (prio_in s) p ready)) b.view)
      → Wakes s k p ps ready sems u
  Became-Wakes t b u fewer keys same rings = record {
    view = _;
    sems' = b.sems';
    spare' = b.spare';
    asl =
        Asl-same t b.view u
          (enter ready_queue (p_list p) (lists (insert_prio (prio_in s) p ready)) b.view) keys same
          (λ z. ground arith) b.sems' b.spare' (ground arith) (ground arith) rings b.asl;
    queue = b.queue;
    same = b.same;
    fewer = fewer;
    queued = ground arith;
  }

-- ===== src/Nucleus/Clock.antt =====
-- `handleIntervalClock` of phase2/interrupts.c over the queues of the semaphores.
use progetto_sistemi_operati.Base.{
  ℕ, zero, suc, ◌+◌, ◌%◌, ◌^◌, ◌<◌, ◌≤◌, ◌≡◌, ◌≢◌, refl, ◌∙◌, ap, fun_ext, some, List, [], ◌∷◌,
  length, arith, Bool-cases, inl, inr,
}
use progetto_sistemi_operati.Memory.{ready_queue}
use progetto_sistemi_operati.Listx.View.{View}
use progetto_sistemi_operati.Store.{Store, ok, signed_lt}
use progetto_sistemi_operati.Pcb.{max_proc}
use progetto_sistemi_operati.Pcb.Queue.{lists, prio_in, insert_prio}
use progetto_sistemi_operati.Asl.View.{Sem, Asl}
use progetto_sistemi_operati.Asl.Waiting.{waiting}
use progetto_sistemi_operati.Asl.Spec.{no_sem, remove_blocked-queue}
use progetto_sistemi_operati.Nucleus.Platform.{
  Platform, device_sem, pseudo_index, psecond, on_machine, decr,
}
use progetto_sistemi_operati.Nucleus.Interrupts.{wake_all, handle_interval_clock, go_on}
use progetto_sistemi_operati.Nucleus.Wakes.{
  goes_on, go_on-goes_on, Asl-same, remove_blocked-insert_proc_q, Became-Wakes,
}

-- The ready queue once the PCBs `ps` have joined it, one after the other.
unfoldable pub insert_all : (ℕ → ℕ) → List ℕ → List ℕ → List ℕ
insert_all prio [] ready = ready
insert_all prio (p ∷ ps) ready = insert_all prio ps (insert_prio prio p ready)

length-insert_prio :
    (prio : ℕ → ℕ) (p : ℕ) (ps : List ℕ) → length (insert_prio prio p ps) ≡ suc (length ps)
unfolding insert_prio
length-insert_prio prio p [] = refl
length-insert_prio prio p (q ∷ qs) = elim (Bool-cases (signed_lt (prio q) (prio p))) [
  | inl lower ↦ rw lower refl
  | inr higher ↦ rw higher (ap suc (length-insert_prio prio p qs))
]

-- The PCBs `ps` have left the queue of the key `k`, which is empty now, and have joined the ready
-- queue by their priorities; `softBlockCount` has fallen by their number. The other queues of
-- semaphores, the running process and the machine are as they were.
pub record AllWoken (s : Store) (k : ℕ) (ps ready : List ℕ) (sems : List Sem) (t : Store)
    : Type 0 where
  pub view : View
  pub sems' : List Sem
  pub spare' : List ℕ
  pub asl : Asl t view sems' spare'
  pub queue : waiting k sems' ≡ []
  pub same : (j : ℕ) → j ≢ k → waiting j sems' ≡ waiting j sems
  pub queued : view.items ready_queue ≡ some (lists (insert_all (prio_in s) ps ready))
  pub count : (t.soft_block_count + length ps) % 2 ^ 32 ≡ s.soft_block_count % 2 ^ 32
  pub pcbs : (z : ℕ) → no_sem (t.pcb z) ≡ no_sem (s.pcb z)
  pub running : t.current_process ≡ s.current_process
  pub machine : t.machine ≡ s.machine

wake_all_lem :
    (rounds k : ℕ) (ps : List ℕ) (s : Store) (v : View) (spare : List ℕ) (sems : List Sem)
    (ready : List ℕ)
    → length ps < rounds
    → Asl s v sems spare
    → length sems ≤ max_proc
    → v.items ready_queue ≡ some (lists ready)
    → length ready + length ps ≤ max_proc
    → waiting k sems ≡ ps
    → (t : Store) × (wake_all rounds k s ≡ ok tt t) × AllWoken s k ps ready sems t
unfolding wake_all insert_all
wake_all_lem zero k ps s v spare sems ready enough a short listed room e = absurd (omega arith)
wake_all_lem (suc rounds) k [] s v spare sems ready enough a short listed room e =
    let (t, run, b, _, _) = remove_blocked-queue s v spare k [] sems a short e in
    (
      t,
      rw run refl,
      record {
        view = b.view;
        sems' = b.sems';
        spare' = b.spare';
        asl = b.asl;
        queue = b.queue;
        same = b.same;
        queued = b.lists ready_queue (λ e. cc) (λ e. cc) (λ d e. cc) ∙ listed;
        count = ap (λ x. (x.soft_block_count + 0) % 2 ^ 32) b.globals ∙ omega arith;
        pcbs = b.pcbs;
        running = ap (λ x. x.current_process) b.globals;
        machine = ap (λ x. x.machine) b.globals;
      },
    )
wake_all_lem (suc rounds) k (p ∷ ps) s v spare sems ready enough a short listed room e =
    let (t, run, b, fewer, then_ready) =
      remove_blocked-insert_proc_q s v spare k sems p ps ready a short listed (omega arith) e in
    let (m, inserted, rings) = then_ready t refl (λ z. refl) in
    let u = record t { links = m; soft_block_count = decr t.soft_block_count } in
    let w = Became-Wakes s v spare k sems p ps ready t b u fewer refl (λ z. refl) rings in
    let prios : prio_in u ≡ prio_in s = fun_ext (λ z. ap (λ x. x.prio) (b.pcbs z)) in
    let (t', run', all) =
      wake_all_lem rounds k ps u w.view w.spare' w.sems' (insert_prio (prio_in s) p ready)
        (omega arith) w.asl (omega (arith, w.fewer)) w.queued
        (omega (arith, length-insert_prio (prio_in s) p ready)) w.queue in
    (
      t',
      rw (run, inserted, run') refl,
      record {
        view = all.view;
        sems' = all.sems';
        spare' = all.spare';
        asl = all.asl;
        queue = all.queue;
        same = λ j ne. all.same j ne ∙ w.same j ne;
        queued = rw prios at all.queued;
        count = omega (arith, all.count, ap (λ x. x.soft_block_count) b.globals);
        pcbs = λ z. all.pcbs z ∙ b.pcbs z;
        running = all.running ∙ ap (λ x. x.current_process) b.globals;
        machine = all.machine ∙ ap (λ x. x.machine) b.globals;
      },
    )

-- On well-formed semaphores, of which at most `max_proc` are active, with at most `max_proc`
-- processes ready or waiting on the pseudo-clock, the interrupt of the interval timer starts the
-- timer anew and wakes every process that waits on the pseudo-clock: oldest first, each joins the
-- ready queue at the place of its priority, and `softBlockCount` falls by their number. Then the
-- running process is loaded from the state at the address `state`, or where there is none the
-- scheduler chooses one.
pub handle_interval_clock_lem :
    (u : Platform) (state : ℕ) (s : Store) (v : View) (spare : List ℕ) (sems : List Sem)
    (ps ready : List ℕ)
    → Asl s v sems spare
    → length sems ≤ max_proc
    → v.items ready_queue ≡ some (lists ready)
    → length ready + length ps ≤ max_proc
    → waiting (device_sem u pseudo_index) sems ≡ ps
    → (t : Store) × (handle_interval_clock u state s ≡ goes_on state t)
      × (t.machine ≡ record s.machine { interval = psecond })
      × AllWoken
          (on_machine (λ m. record m { interval = psecond }) s)
          (device_sem u pseudo_index)
          ps
          ready
          sems
          t
unfolding handle_interval_clock
handle_interval_clock_lem u state s v spare sems ps ready a short listed room e =
    let (t, run, all) =
      wake_all_lem (max_proc + 1) (device_sem u pseudo_index) ps
        (on_machine (λ m. record m { interval = psecond }) s) v spare sems ready (omega arith)
        (Asl-same s v (on_machine (λ m. record m { interval = psecond }) s) v refl (λ z. refl)
          (λ z. refl) sems spare refl refl a.rings a)
        short listed room e in
    let ran : handle_interval_clock u state s ≡ go_on state t = rw run refl in
    (t, ran ∙ go_on-goes_on state t, all.machine, all)

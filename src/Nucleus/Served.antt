-- ===== src/Nucleus/Served.antt =====
-- `handleDevice` of phase2/interrupts.c over the queues of the semaphores.
use progetto_sistemi_operati.Base.{
  ℕ, ◌+◌, ◌-◌, ◌*◌, ◌<◌, ◌≤◌, ◌≡◌, ◌≢◌, refl, ◌∙◌, ap, true, false, some, List, [], ◌∷◌, length,
  arith, ◌==◌,
}
use progetto_sistemi_operati.Memory.{ready_queue}
use progetto_sistemi_operati.Listx.View.{View}
use progetto_sistemi_operati.Store.{Store, ok, on_pcb}
use progetto_sistemi_operati.Pcb.{max_proc}
use progetto_sistemi_operati.Pcb.Queue.{lists}
use progetto_sistemi_operati.Asl.View.{Sem, Asl}
use progetto_sistemi_operati.Asl.Waiting.{waiting}
use progetto_sistemi_operati.Asl.Spec.{Became, remove_blocked-queue}
use progetto_sistemi_operati.Nucleus.Platform.{Platform, device_sem, put_word, set_reg, incr, decr}
use progetto_sistemi_operati.Nucleus.Devices.{find_device_index-dev_addr}
use progetto_sistemi_operati.Nucleus.Interrupts.{
  Report, first_on, bitmap, dev_addr, calc_dev_no, calc_dev_addr, acknowledge, read_device, unblock,
  raise_sem, wake, handle_device, go_on,
}
use progetto_sistemi_operati.Nucleus.Wakes.{
  Wakes, Asl-same, goes_on, go_on-goes_on, remove_blocked-insert_proc_q, Became-Wakes,
}

first_on-lt : (w n : ℕ) → first_on w ≡ some n → n < 8
unfolding first_on
first_on-lt w n e = ground arith

-- The process `p` has been woken from the queue of the key `k` with the answer `status`; the states
-- of the other processes, the running process and the machine are as they were in `s`.
pub record Served (u : Platform) (s : Store) (k status p : ℕ) (ps ready : List ℕ) (sems : List Sem)
    (t : Store) : Type 0 where
  pub wakes : Wakes s k p ps ready sems t
  pub told : (t.pcb p).state.gpr u.reg_a0 ≡ status
  pub apart : (z : ℕ) → z ≢ p → (t.pcb z).state ≡ (s.pcb z).state
  pub count : t.soft_block_count ≡ decr s.soft_block_count
  pub running : t.current_process ≡ s.current_process
  pub machine : t.machine ≡ s.machine

-- The device's semaphore, its status, and the state in which its interrupt is acknowledged.
abbrev pub sem_addr : Platform → ℕ → ℕ → ℕ
sem_addr u line n = device_sem u (8 * (line - 3) + n)

abbrev pub device_status : ℕ → ℕ → Store → ℕ
device_status line n s = s.machine.word (dev_addr line n)

abbrev pub acked : Platform → ℕ → ℕ → Store → Store
acked u line n s = put_word (dev_addr line n + 4) u.ack s

module _ (u : Platform) (line state : ℕ) (s : Store) (v : View) (spare : List ℕ) (sems : List Sem)
    (ready : List ℕ) (n : ℕ) (a : Asl s v sems spare) (short : length sems ≤ max_proc)
    (queued : v.items ready_queue ≡ some (lists ready)) (room : length ready ≤ max_proc)
    (lo : 3 ≤ line) (hi : line ≤ 6) (found : first_on (bitmap line s) ≡ some n) where
  abbrev report : Report
  report = record {
    status = device_status line n s;
    index = some (8 * (line - 3) + n);
    known = true;
  }

  numbered : calc_dev_no line s ≡ ok n s
  unfolding calc_dev_no
  numbered = rw (found, calc_dev_no) refl

  addressed : calc_dev_addr line s ≡ ok (dev_addr line n) s
  unfolding calc_dev_addr
  addressed = rw numbered refl

  reported : read_device u line (dev_addr line n) s ≡ ok report (acked u line n s)
  unfolding read_device acknowledge
  reported =
      let other : (line == 7) ≡ false = ground arith in
      let index = find_device_index-dev_addr line n 0 lo hi (first_on-lt _ n found) (omega arith) in
      let at : dev_addr line n + 0 ≡ dev_addr line n = omega arith in
      rw (other, rw at at index) refl

  acked-Asl : Asl (acked u line n s) v sems spare
  acked-Asl =
      Asl-same s v (acked u line n s) v refl (λ z. refl) (λ z. refl) sems spare refl refl a.rings a

  woken :
      (p : ℕ) (ps : List ℕ)
      → waiting (sem_addr u line n) sems ≡ p ∷ ps
      → (t : Store) × (handle_device u line state s ≡ go_on state t)
        × Served u (acked u line n s) (sem_addr u line n) (device_status line n s) p ps ready sems t
  unfolding handle_device unblock wake
  woken p ps e =
      let (t, run, b, fewer, then_ready) =
        remove_blocked-insert_proc_q (acked u line n s) v spare (sem_addr u line n) sems p ps ready
          acked-Asl short queued room e in
      let t1 =
        on_pcb p (λ x. record x { state = set_reg u.reg_a0 (device_status line n s) x.state }) t in
      let (m, inserted, rings) = then_ready t1 refl (λ z. ground arith) in
      let t2 = record t1 { links = m; soft_block_count = decr t1.soft_block_count } in
      (
        t2,
        rw (addressed, reported, run, inserted) refl,
        record {
          wakes =
              Became-Wakes (acked u line n s) v spare (sem_addr u line n) sems p ps ready t b t2
                fewer refl (λ z. ground arith) rings;
          told = ground arith;
          apart = λ z ne. ground (arith, ne, ap (λ x. x.state) (b.pcbs z));
          count = ap (λ x. decr x.soft_block_count) b.globals;
          running = ap (λ x. x.current_process) b.globals;
          machine = ap (λ x. x.machine) b.globals;
        },
      )

  raised :
      waiting (sem_addr u line n) sems ≡ []
      → (t : Store) × (handle_device u line state s
          ≡ go_on state (
              put_word
                (sem_addr u line n)
                (incr ((acked u line n s).machine.word (sem_addr u line n)))
                t))
        × Became (acked u line n s) v (sem_addr u line n) [] sems t
  unfolding handle_device unblock raise_sem
  raised e =
      let (t, run, b, _, _) =
        remove_blocked-queue (acked u line n s) v spare (sem_addr u line n) [] sems acked-Asl short
          e in
      let same : t.machine ≡ (acked u line n s).machine = ap (λ x. x.machine) b.globals in
      (t, rw (addressed, reported, run, same) refl, b)

  -- With a well-formed active semaphore list of at most `max_proc` semaphores and at most `max_proc`
  -- processes ready, the interrupt of a disk, flash, network or printer device, of which the lowest
  -- of the line's interrupting devices is served, is acknowledged, and the device's own semaphore is
  -- signalled. Where processes wait on it, the one that has waited longest gets the device's status
  -- in its register a0 and joins the ready queue at the place of its priority, and `softBlockCount`
  -- falls by one; where none waits the semaphore's value is incremented. Then the running process
  -- is loaded from the state at the address `state`, or where there is none the scheduler chooses
  -- one.
  pub handle_device_lem :
      (waiting (sem_addr u line n) sems ≡ []
        → (t : Store) × (handle_device u line state s
            ≡ goes_on state (
                put_word
                  (sem_addr u line n)
                  (incr ((acked u line n s).machine.word (sem_addr u line n)))
                  t))
          × Became (acked u line n s) v (sem_addr u line n) [] sems t)
      × ((p : ℕ) (ps : List ℕ)
          → waiting (sem_addr u line n) sems ≡ p ∷ ps
          → (t : Store) × (handle_device u line state s ≡ goes_on state t)
            × Served u
                (acked u line n s)
                (sem_addr u line n)
                (device_status line n s)
                p
                ps
                ready
                sems
                t)
  handle_device_lem = (
    λ e. let (t, run, b) = raised e in (t, run ∙ go_on-goes_on state _, b),
    λ p ps e. let (t, run, b) = woken p ps e in (t, run ∙ go_on-goes_on state t, b),
  )

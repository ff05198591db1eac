-- ===== src/Nucleus/Verhogen.antt =====
-- `VERHOGEN` of phase2/exceptions.c over the queues of the semaphores.
use progetto_sistemi_operati.Base.{
  ℕ, ◌≤◌, ◌≡◌, refl, ◌∙◌, ap, fun_ext, none, some, List, [], ◌∷◌, length, ==_refl,
}
use progetto_sistemi_operati.Memory.{ready_queue, p_list}
use progetto_sistemi_operati.Listx.View.{View, Rings, enter}
use progetto_sistemi_operati.Store.{Store, Run, ok, stop, ldst}
use progetto_sistemi_operati.Pcb.{max_proc}
use progetto_sistemi_operati.Pcb.Queue.{lists, prio_in, insert_prio, insert_proc_q-insert_prio}
use progetto_sistemi_operati.Asl.{remove_blocked}
use progetto_sistemi_operati.Asl.View.{Sem, Asl}
use progetto_sistemi_operati.Asl.Waiting.{waiting}
use progetto_sistemi_operati.Asl.Spec.{Became, remove_blocked-queue}
use progetto_sistemi_operati.Nucleus.Platform.{Platform, put_word, on_state, advance, incr}
use progetto_sistemi_operati.Nucleus.Syscalls.{arg, resume, verhogen}

-- The caller goes on behind its system call.
abbrev pub resumed : ℕ → Store → Store → Run (Unit {0})
resumed state s t = stop (ldst (advance (s.machine.state_at state))) (on_state state advance t)

pub resume_lem :
    (state : ℕ) (s t : Store)
    → t.machine.state_at state ≡ s.machine.state_at state
    → resume state t ≡ resumed state s t
unfolding resume
resume_lem state s t e = rw (==_refl state, e) refl

-- The state in which the oldest waiting process has become ready.
pub record Woken (s : Store) (v : View) (k p : ℕ) (ps ready : List ℕ) (sems : List Sem) (t : Store)
    : Type 0 where
  pub middle : Store
  pub became : Became s v k ps sems middle
  pub links : t ≡ record middle { links = t.links }
  pub rings :
      Rings t.links
        (enter ready_queue (p_list p) (lists (insert_prio (prio_in s) p ready)) became.view)

module _ (u : Platform) (state : ℕ) (s : Store) (v : View) (spare : List ℕ) (sems : List Sem)
    (ready : List ℕ) (a : Asl s v sems spare) (short : length sems ≤ max_proc)
    (queued : v.items ready_queue ≡ some (lists ready)) (room : length ready ≤ max_proc) where
  raised :
      (t : Store)
      → remove_blocked (arg state u.reg_a1 s) s ≡ ok none t
      → t.machine ≡ s.machine
      → verhogen u state s
        ≡ resumed state s
            (put_word (arg state u.reg_a1 s) (incr (s.machine.word (arg state u.reg_a1 s))) t)
  unfolding verhogen
  raised t run m =
      let same : t.machine.word (arg state u.reg_a1 s) ≡ s.machine.word (arg state u.reg_a1 s) =
        ap (λ x. x.word (arg state u.reg_a1 s)) m in
      rw (run, same) (resume_lem state s _ (ap (λ x. x.state_at state) m))

  woken :
      (p : ℕ) (ps : List ℕ) (t : Store)
      → remove_blocked (arg state u.reg_a1 s) s ≡ ok (some p) t
      → (b : Became s v (arg state u.reg_a1 s) ps sems t) → b.view.owner (p_list p) ≡ none
      → (t' : Store) × (verhogen u state s ≡ resumed state s t')
        × Woken s v (arg state u.reg_a1 s) p ps ready sems t'
  unfolding verhogen
  woken p ps t run b free =
      let here : b.view.items ready_queue ≡ some (lists ready) =
        b.lists ready_queue (λ e. cc) (λ e. cc) (λ d e. cc) ∙ queued in
      let (m, inserted, rings) =
        insert_proc_q-insert_prio t b.view ready_queue p b.asl.rings free ready here room in
      let prios : prio_in t ≡ prio_in s = fun_ext (λ z. ap (λ x. x.prio) (b.pcbs z)) in
      let machines : t.machine ≡ s.machine = ap (λ x. x.machine) b.globals in
      (
        record t { links = m },
        rw (run, inserted)
            (resume_lem state s (record t { links = m }) (ap (λ x. x.state_at state) machines)),
        record { middle = t; became = b; links = refl; rings = rw prios at rings },
      )

  -- On well-formed semaphores, of which at most `max_proc` are active, and a ready queue of at most
  -- `max_proc` processes, `VERHOGEN` lets its caller go on. Where none waits on the semaphore it
  -- increments the semaphore's value; otherwise the value stays, and the process that has waited
  -- longest leaves the semaphore's queue and joins the ready queue at the place of its priority.
  pub verhogen_lem :
      (waiting (arg state u.reg_a1 s) sems ≡ []
        → (t : Store) × (verhogen u state s
            ≡ resumed state s
                (put_word (arg state u.reg_a1 s) (incr (s.machine.word (arg state u.reg_a1 s))) t))
          × Became s v (arg state u.reg_a1 s) [] sems t)
      × ((p : ℕ) (ps : List ℕ)
          → waiting (arg state u.reg_a1 s) sems ≡ p ∷ ps
          → (t : Store) × (verhogen u state s ≡ resumed state s t)
            × Woken s v (arg state u.reg_a1 s) p ps ready sems t)
  verhogen_lem = (
    λ e.
        let (t, run, b, _, _) =
          remove_blocked-queue s v spare (arg state u.reg_a1 s) [] sems a short e in
        (t, raised t run (ap (λ x. x.machine) b.globals), b),
    λ p ps e.
        let (t, run, b, free, _) =
          remove_blocked-queue s v spare (arg state u.reg_a1 s) (p ∷ ps) sems a short e in
        woken p ps t run b (free p refl),
  )

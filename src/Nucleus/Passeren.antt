-- ===== src/Nucleus/Passeren.antt =====
-- `PASSEREN` of phase2/exceptions.c over the queues of the semaphores.
use progetto_sistemi_operati.Base.{
  ℕ, ◌≤◌, ◌≡◌, refl, ◌∙◌, ap, Bool, true, false, Option, none, some, List, [], ◌∷◌, ◌++◌, length,
  ◌⊎◌, inl, inr,
}
use progetto_sistemi_operati.Memory.{p_list}
use progetto_sistemi_operati.Listx.View.{View}
use progetto_sistemi_operati.Store.{Store, Run, ok, fault}
use progetto_sistemi_operati.Pcb.{max_proc}
use progetto_sistemi_operati.Asl.{insert_blocked}
use progetto_sistemi_operati.Asl.View.{Sem, Asl}
use progetto_sistemi_operati.Asl.Waiting.{waiting}
use progetto_sistemi_operati.Asl.Spec.{Became, insert_blocked-last}
use progetto_sistemi_operati.Nucleus.Platform.{Platform, put_word, on_state, advance, decr, current}
use progetto_sistemi_operati.Nucleus.Scheduler.{scheduler}
use progetto_sistemi_operati.Nucleus.Syscalls.{arg, not_positive, suspend, passeren}
use progetto_sistemi_operati.Nucleus.Saved.{suspended, save_current-suspended}
use progetto_sistemi_operati.Nucleus.Verhogen.{resumed, resume_lem}

pub current_lem : (s : Store) (p : ℕ) → s.current_process ≡ some p → current s ≡ ok p s
unfolding current
current_lem s p e =
    let run : Option ℕ → Run ℕ = λ c. elim c [ none ↦ fault | some q ↦ ok q s ] in ap run e

module _ (u : Platform) (state : ℕ) (s : Store) (p : ℕ) (running : s.current_process ≡ some p)
    (blocks : not_positive (s.machine.word (arg state u.reg_a1 s)) ≡ true) where
  pub blocked_run :
      (full : Bool) (t : Store)
      → insert_blocked (arg state u.reg_a1 s) p s ≡ ok full t
      → t.current_process ≡ some p
      → passeren u state s ≡ scheduler (suspended u state p t)
  unfolding passeren suspend
  blocked_run full t run still =
      rw (blocks, current_lem s p running, run, current_lem (on_state state advance t) p still)
        (ap scheduler (save_current-suspended u state p t))

-- On well-formed semaphores, of which at most `max_proc` are active, and a running process that is
-- in no list: where the semaphore's value is positive, `PASSEREN` decrements it and lets the process
-- go on; otherwise the process, its state saved behind the call, stands last in the semaphore's
-- queue, the value stays, and the scheduler runs with no process running. Only where none waits on
-- the semaphore and no descriptor is free is the process left in no queue.
pub passeren_lem :
    (u : Platform) (state : ℕ) (s : Store) (v : View) (spare : List ℕ) (sems : List Sem) (p : ℕ)
    → Asl s v sems spare
    → length sems ≤ max_proc
    → s.current_process ≡ some p
    → v.owner (p_list p) ≡ none
    → (not_positive (s.machine.word (arg state u.reg_a1 s)) ≡ false
        → passeren u state s
          ≡ resumed state s
              (put_word (arg state u.reg_a1 s) (decr (s.machine.word (arg state u.reg_a1 s))) s))
      × (not_positive (s.machine.word (arg state u.reg_a1 s)) ≡ true
          → (t : Store) × (passeren u state s ≡ scheduler (suspended u state p t))
            × (Became s v
                  (arg state u.reg_a1 s)
                  (waiting (arg state u.reg_a1 s) sems ++ p ∷ [])
                  sems
                  t
                ⊎ ((t ≡ s) × (spare ≡ []) × (waiting (arg state u.reg_a1 s) sems ≡ []))))
unfolding passeren
passeren_lem u state s v spare sems p a short running free = (
  λ e. rw e (resume_lem state s _ refl),
  λ e. elim (insert_blocked-last s v spare (arg state u.reg_a1 s) p sems a short free) [
    | inl (t, run, b) ↦ (
      t,
      blocked_run u state s p running e false t run
          (ap (λ x. x.current_process) b.globals ∙ running),
      inl b,
    )
    | inr (run, full, idle) ↦
        (s, blocked_run u state s p running e true s run running, inr (refl, full, idle))
  ],
)

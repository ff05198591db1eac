-- ===== src/Nucleus/Terminate.antt =====
-- `TERMPROCESS` and `passUpOrDie` of phase2/exceptions.c on a process with descendants.
use progetto_sistemi_operati.Base.{
  ℕ, ◌≤◌, ◌≡◌, ◌≢◌, refl, sym, ◌∙◌, ap, subst, true, Option, none, some, List, [], ◌∷◌, ◌++◌, arith,
  NotIn, ==_refl, ◌==◌,
}
use progetto_sistemi_operati.Memory.{p_child}
use progetto_sistemi_operati.Store.{Store, Run, ok, fault}
use progetto_sistemi_operati.Pcb.{max_proc}
use progetto_sistemi_operati.Pcb.Tree.{sibs}
use progetto_sistemi_operati.Nucleus.Platform.{Platform, put_current, current}
use progetto_sistemi_operati.Nucleus.Functions.{kill_process}
use progetto_sistemi_operati.Nucleus.Scheduler.{scheduler}
use progetto_sistemi_operati.Nucleus.Syscalls.{arg, same_process, terminate_process}
use progetto_sistemi_operati.Nucleus.Exceptions.{die, pass_up_or_die}
use progetto_sistemi_operati.Nucleus.Kernel.{Lists, Placed}
use progetto_sistemi_operati.Nucleus.Killed.{Killed}
use progetto_sistemi_operati.Nucleus.Forest.{Forest, members, size, Rooted}
use progetto_sistemi_operati.Nucleus.Kill.{kill_process_child}

-- A running process that is killed leaves the processor to the scheduler.
module _ (u : Platform) (state p : ℕ) (s t : Store) (running : s.current_process ≡ some p)
    (runs : kill_process u (some p) s ≡ ok tt t)
    (still : t.current_process ≡ s.current_process) where
  terminate_self :
      arg state u.reg_a1 s ≡ 0 → terminate_process u state s ≡ scheduler (put_current none t)
  unfolding terminate_process same_process
  terminate_self self =
      let killed : kill_process u s.current_process s ≡ ok tt t =
        subst (λ c. kill_process u c s ≡ ok tt t) (sym running) runs in
      let same : same_process s.current_process t.current_process ≡ true =
        subst (λ c. same_process c t.current_process ≡ true) (sym running)
          (subst (λ c. same_process (some p) c ≡ true) (sym (still ∙ running)) (==_refl p)) in
      rw (self, killed, same) refl

  running-current : current s ≡ ok p s
  unfolding current
  running-current =
      let found : Option ℕ → Run ℕ = λ c. elim c [ none ↦ fault | some p ↦ ok p s ] in
      ap found running

  die_bare :
      (index : ℕ)
      → (s.pcb p).support_struct ≡ 0
      → pass_up_or_die u index state s ≡ scheduler (put_current none t)
  unfolding pass_up_or_die die
  die_bare index bare =
      let test : ((s.pcb p).support_struct == 0) ≡ true = ground (arith, bare) in
      rw (running-current, test, runs) refl

module _ (u : Platform) (f : Forest) (p : ℕ) (s : Store) (k : Lists) (h : Rooted f p s k)
    (at : Placed s k p) (fits : size f ≤ max_proc) (q : ℕ) (before after : List ℕ)
    (par : (s.pcb p).parent ≡ some q)
    (siblings : k.view.items (p_child q) ≡ some (sibs (before ++ p ∷ after))) (other : q ≢ p)
    (outside : NotIn q (members f)) (running : s.current_process ≡ some p) where
  -- On well-formed lists a running process with a parent and any tree of descendants, at most 21
  -- processes in all, each ready, blocked or in no queue, ends with all of them by `TERMPROCESS` with
  -- 0 in a1, and by an exception that it has no support structure for: both calls return, the
  -- children end before their parent, the PCBs become the first free ones in this order, the ready
  -- queue and the queues of the semaphores lose exactly these processes, the counts of processes and
  -- of processes on the pseudo-clock fall by theirs, the parent keeps its other children, no other
  -- process changes, and the scheduler chooses the next one.
  pub terminate_process-Killed :
      (state index : ℕ)
      → arg state u.reg_a1 s ≡ 0
      → (s.pcb p).support_struct ≡ 0
      → (t : Store) × (l : Lists) × (terminate_process u state s ≡ scheduler (put_current none t))
        × (pass_up_or_die u index state s ≡ scheduler (put_current none t))
        × Killed u q (members f ++ p ∷ []) s k t l
        × (l.view.items (p_child q) ≡ some (sibs (before ++ after)))
  terminate_process-Killed state index self bare =
      let (t, l, run, killed, rest) =
        kill_process_child u f p s k h at fits q before after par siblings other outside in
      (
        t,
        l,
        terminate_self u state p s t running run killed.current self,
        die_bare u state p s t running run killed.current index bare,
        killed,
        rest,
      )

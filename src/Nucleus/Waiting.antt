-- ===== src/Nucleus/Waiting.antt =====
-- `DOIO` and `CLOCKWAIT` of phase2/exceptions.c: the running process waits on a device.
use progetto_sistemi_operati.Base.{
  ℕ, ◌≤◌, ◌≡◌, refl, ◌∙◌, ap, Bool, true, false, Bool-cases, none, some, List, [], ◌∷◌, ◌++◌,
  length, ◌⊎◌, inl, inr,
}
use progetto_sistemi_operati.Memory.{p_list}
use progetto_sistemi_operati.Listx.View.{View}
use progetto_sistemi_operati.Store.{Store, ok}
use progetto_sistemi_operati.Pcb.{max_proc}
use progetto_sistemi_operati.Asl.{insert_blocked}
use progetto_sistemi_operati.Asl.View.{Sem, Asl}
use progetto_sistemi_operati.Asl.Waiting.{waiting}
use progetto_sistemi_operati.Asl.Spec.{Became, insert_blocked-last}
use progetto_sistemi_operati.Nucleus.Platform.{
  Platform, put_current, put_word, on_state, advance, incr, decr,
}
use progetto_sistemi_operati.Nucleus.Scheduler.{scheduler}
use progetto_sistemi_operati.Nucleus.Syscalls.{not_positive, save_current, suspend, wait_on}
use progetto_sistemi_operati.Nucleus.Saved.{suspended, save_current-suspended}
use progetto_sistemi_operati.Nucleus.Passeren.{current_lem}

-- The suspended process counts as one that waits on a device.
abbrev pub soft_blocked : Platform → ℕ → ℕ → Store → Store
soft_blocked u state p t =
    let r = suspended u state p t in record r { soft_block_count = incr t.soft_block_count }

module _ (u : Platform) (state sem : ℕ) (s : Store) (p : ℕ)
    (running : s.current_process ≡ some p) where
  soft_scheduler :
      (t : Store)
      → (let r = put_current none (save_current u state p (on_state state advance t)) in
          scheduler (record r { soft_block_count = incr r.soft_block_count }))
        ≡ scheduler (soft_blocked u state p t)
  soft_scheduler t =
      ap {A = Store} (λ r. scheduler (record r { soft_block_count = incr r.soft_block_count }))
        (save_current-suspended u state p t)

  pub waits :
      (full : Bool) (t : Store)
      → not_positive (s.machine.word sem) ≡ true
      → insert_blocked sem p s ≡ ok full t
      → t.current_process ≡ some p
      → wait_on u state sem s ≡ scheduler (soft_blocked u state p t)
  unfolding wait_on suspend
  waits full t blocks run still =
      rw (blocks, current_lem s p running, run, current_lem (on_state state advance t) p still)
        (soft_scheduler t)

  -- Where the semaphore's value is positive, it is decremented, but the process that runs is
  -- suspended all the same, and enters no list.
  pub passes :
      not_positive (s.machine.word sem) ≡ false
      → wait_on u state sem s
        ≡ scheduler (soft_blocked u state p (put_word sem (decr (s.machine.word sem)) s))
  unfolding wait_on suspend
  passes e =
      rw
        (
          e,
          current_lem (on_state state advance (put_word sem (decr (s.machine.word sem)) s)) p
              running,
        )
        (soft_scheduler (put_word sem (decr (s.machine.word sem)) s))

-- On well-formed semaphores, of which at most `max_proc` are active, and a running process that is
-- in no list, the common end of `DOIO` and `CLOCKWAIT` goes to the scheduler with the process
-- suspended, its state saved behind the call, and counted as waiting on a device.
-- Where the semaphore's value is not positive the process stands last in the semaphore's queue
-- (or in none, if none waits there and no descriptor is free). Where it is positive the value is
-- decremented, and no list has changed: the process is in none, so that nothing will wake it.
pub wait_on_lem :
    (u : Platform) (state sem : ℕ) (s : Store) (v : View) (spare : List ℕ) (sems : List Sem) (p : ℕ)
    → Asl s v sems spare
    → length sems ≤ max_proc
    → s.current_process ≡ some p
    → v.owner (p_list p) ≡ none
    → (t : Store) × (wait_on u state sem s ≡ scheduler (soft_blocked u state p t))
      × ((not_positive (s.machine.word sem) ≡ true)
            × (Became s v sem (waiting sem sems ++ p ∷ []) sems t
                ⊎ ((t ≡ s) × (spare ≡ []) × (waiting sem sems ≡ [])))
          ⊎ ((not_positive (s.machine.word sem) ≡ false)
              × (t ≡ put_word sem (decr (s.machine.word sem)) s)
              × (t.links ≡ s.links)))
wait_on_lem u state sem s v spare sems p a short running free =
    elim (Bool-cases (not_positive (s.machine.word sem))) [
      | inr e ↦ (_, passes u state sem s p running e, inr (e, refl, refl))
      | inl e ↦ elim (insert_blocked-last s v spare sem p sems a short free) [
        | inl (t, run, b) ↦
            let still = ap (λ x. x.current_process) b.globals ∙ running in
            (t, waits u state sem s p running false t e run still, inl (e, inl b))
        | inr (run, full, idle) ↦
            (s, waits u state sem s p running true s e run running, inl (e, inr (refl, full, idle)))
      ]
    ]

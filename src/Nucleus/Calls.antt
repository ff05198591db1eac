-- ===== src/Nucleus/Calls.antt =====
-- The scheduler and the system calls that block as sequences of the steps of the kernel.
use progetto_sistemi_operati.Base.{
  ℕ, ◌≡◌, refl, ◌∙◌, ap, some, none, inl, inr, List, [], ◌∷◌, arith, Bool-cases, ◌==◌, eq_of_==,
}
use progetto_sistemi_operati.Memory.{ready_queue}
use progetto_sistemi_operati.Store.{Store, Run, Exit, stop, ldst, halt, panic, wait}
use progetto_sistemi_operati.Pcb.Queue.{lists, remove_proc_q-cons}
use progetto_sistemi_operati.Nucleus.Platform.{Platform, put_current}
use progetto_sistemi_operati.Nucleus.Scheduler.{scheduler}
use progetto_sistemi_operati.Nucleus.Dispatch.{dispatched, scheduler-ready, scheduler-idle}
use progetto_sistemi_operati.Nucleus.Waiting.{waits}
use progetto_sistemi_operati.Nucleus.Steady.{Quiet}
use progetto_sistemi_operati.Nucleus.Sound.{Sound}
use progetto_sistemi_operati.Nucleus.Steps.{computes, dispatches, Reach, here, then}
use progetto_sistemi_operati.Nucleus.Safety.{Reach-kept}

-- A call gives the processor away, in a state that the steps reach and in which Sound holds.
abbrev pub Gives : Platform → Store → Run (Unit {0}) → Type 0
Gives u s run = (e : Exit) × (t : Store) × (run ≡ stop e t) × Reach u s t × Sound t

more : (u : Platform) (s t r : Store) → Reach u s t → Reach u t r → Reach u s r
more u s t _ a here = a
more u s t r a (then {t = m} b step) = then (more u s t m a b) step

same : (s : Store) → Quiet s s
same s = record { links = refl; keys = refl; sem_add = λ p. refl; parent = λ p. refl }

module _ (u : Platform) (s : Store) (h : Sound s) where
  -- What ends in a state that the steps reach.
  by_steps :
      (e : Exit) (t : Store) (run : Run (Unit {0})) → run ≡ stop e t → Reach u s t → Gives u s run
  by_steps e t run ends reach = (e, t, ends, reach, Reach-kept u s t reach h)

  scheduler_then : (ps : List ℕ) → h.lists.ready ≡ ps → Gives u s (scheduler s)
  scheduler_then [] e =
      let queued = h.held.steady.queued ∙ ap (λ qs. some (lists qs)) e in
      let (none_left, waits, stuck) =
        scheduler-idle s h.lists.view h.held.steady.asl.rings queued in
      elim (Bool-cases (s.process_count == 0)) [
        | inl zero ↦ (halt, s, none_left (eq_of_== s.process_count 0 zero), here, h)
        | inr many ↦ elim (Bool-cases (s.soft_block_count == 0)) [
          | inl zero ↦
              (panic, s, stuck (ground arith) (eq_of_== s.soft_block_count 0 zero), here, h)
          | inr soft ↦ by_steps wait _ (scheduler s) (waits (ground arith) (ground arith)) (
              then here (
                computes
                  (record { links = refl; keys = refl; sem_add = λ p. refl; parent = λ p. refl })
                  refl))
        ]
      ]
  scheduler_then (p ∷ ps) e =
      let queued = h.held.steady.queued ∙ ap (λ qs. some (lists qs)) e in
      let taken =
        remove_proc_q-cons s h.lists.view ready_queue h.held.steady.asl.rings p ps queued in
      by_steps (ldst (s.pcb p).state) (dispatched p s) (scheduler s)
        (scheduler-ready s h.lists.view p ps h.held.steady.asl.rings queued).0
        (then (then here (dispatches taken.0)) (
          computes (record { links = refl; keys = refl; sem_add = λ p. refl; parent = λ p. refl })
            refl))

  scheduler-Reach : Gives u s (scheduler s)
  scheduler-Reach = scheduler_then h.lists.ready refl

module _ (u : Platform) (s : Store) (h : Sound s) where
  -- A call that goes on to the scheduler in the state `r`.
  after :
      (run : Run (Unit {0})) (t r : Store)
      → Reach u s (put_current none t)
      → Quiet (put_current none t) r
      → r.current_process ≡ none
      → run ≡ scheduler r
      → Gives u s run
  after run t r reach q alone goes =
      let reached = then reach (computes q alone) in
      let (e, r', ends, rest, sound) = scheduler-Reach u r (Reach-kept u s r reached h) in
      (e, r', goes ∙ ends, more u s r r' reached rest, sound)

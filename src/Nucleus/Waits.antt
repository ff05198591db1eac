-- ===== src/Nucleus/Waits.antt =====
-- The operations of phase1/asl.c that phase2 moves processes with, on the lists of the whole kernel.
use progetto_sistemi_operati.Base.{
  ℕ, ◌<◌, ◌≡◌, ◌≢◌, refl, sym, ap, subst, none, some, ◌⊎◌, inl, inr, List, [], ◌∷◌, ◌++◌, arith,
  true, false, In, NotIn,
}
use progetto_sistemi_operati.Memory.{p_list, s_procq}
use progetto_sistemi_operati.Listx.View.{View}
use progetto_sistemi_operati.Listx.Removal.{In-cases, In-append_cases, In-NotIn, NotIn-append_left}
use progetto_sistemi_operati.Store.{Store, ok}
use progetto_sistemi_operati.Pcb.{max_proc}
use progetto_sistemi_operati.Asl.{insert_blocked, remove_blocked}
use progetto_sistemi_operati.Asl.Waiting.{waiting, oldest}
use progetto_sistemi_operati.Asl.Spec.{remove_blocked-queue, insert_blocked-last}
use progetto_sistemi_operati.Nucleus.Kernel.{Lists}
use progetto_sistemi_operati.Nucleus.Leaving.{waiting-owned}
use progetto_sistemi_operati.Nucleus.Steady.{Steady, Steady-Kernel, Still}
use progetto_sistemi_operati.Nucleus.Blocking.{became, Became-Steady, Became-Still, Became-Loose}
use progetto_sistemi_operati.Nucleus.Moves.{Loose}

module _ (s : Store) (k : Lists) (h : Steady s k) where
  module _ (key : ℕ) (nonzero : key ≢ 0) where
    -- A process that waits on the key is known.
    waits-known : (z : ℕ) → In z (waiting key k.sems) → z < max_proc
    waits-known z i =
        let at = waiting-owned s k.view key k.sems z h.asl.rings h.asl.holds i in
        h.pcbs z (s_procq at.0) at.1

    -- A process apart from all lists joins the queue of a semaphore, or no descriptor is left.
    pub blocked :
        (p : ℕ)
        → Loose s k p
        → ((t : Store) × (l : Lists) × (insert_blocked key p s ≡ ok false t)
            × Steady t l
            × Still s k t l)
          ⊎ (insert_blocked key p s ≡ ok true s)
    blocked p loose =
        elim (insert_blocked-last s k.view k.spare key p k.sems h.asl (Steady-Kernel s k h).few
          loose.unlisted) [
            | inl (t, run, b) ↦ inl (
              t,
              became s k h key nonzero (waiting key k.sems ++ p ∷ []) t b (members p loose.known)
                  (λ z out i. absurd (
                    In-NotIn z (waiting key k.sems) i
                      (NotIn-append_left z (waiting key k.sems) (p ∷ []) out))),
              run,
              Became-Steady s k h key nonzero (waiting key k.sems ++ p ∷ []) t b
                  (members p loose.known)
                  (λ z out i. absurd (
                    In-NotIn z (waiting key k.sems) i
                      (NotIn-append_left z (waiting key k.sems) (p ∷ []) out))),
              Became-Still s k h key nonzero (waiting key k.sems ++ p ∷ []) t b
                  (members p loose.known)
                  (λ z out i. absurd (
                    In-NotIn z (waiting key k.sems) i
                      (NotIn-append_left z (waiting key k.sems) (p ∷ []) out))),
            )
            | inr full ↦ inr full.0
          ]
      where
        members :
            (p : ℕ) → p < max_proc → (z : ℕ) → In z (waiting key k.sems ++ p ∷ []) → z < max_proc
        members p lt z i = elim (In-append_cases z (waiting key k.sems) (p ∷ []) i) [
          | inl old ↦ waits-known z old
          | inr (inl e) ↦ subst (λ a. a < max_proc) (sym e) lt
          | inr (inr none_left) ↦ absurd none_left
        ]

    -- The process that has waited longest leaves the queue of a semaphore.
    pub unblocked :
        (p : ℕ) (ps : List ℕ)
        → waiting key k.sems ≡ p ∷ ps
        → (t : Store) × (l : Lists) × (remove_blocked key s ≡ ok (some p) t)
          × Steady t l
          × Still s k t l
          × ((z : ℕ) → Loose s k z → Loose t l z)
          × Loose t l p
    unblocked p ps e =
        let (t, run, b, free, fewer) =
          remove_blocked-queue s k.view k.spare key (p ∷ ps) k.sems h.asl (Steady-Kernel s k h).few
            e in
        let members = λ (z : ℕ) (i : In z ps). waits-known z (rw e (inr i)) in
        let gone : (z : ℕ)
            → NotIn z ps
            → In z (waiting key k.sems)
            → b.view.owner (p_list z) ≡ none =
          λ z out i. first_free b.view p ps free z out (subst (In z) e i) in
        let apart : (z : ℕ) → k.view.owner (p_list z) ≡ none → NotIn z ps = λ z unlisted.
          elim (In-cases z ps) [
            | inl i ↦
                let at =
                  waiting-owned s k.view key k.sems z h.asl.rings h.asl.holds (rw e (inr i)) in
                absurd (ground (arith, unlisted, at.1))
            | inr out ↦ out
          ] in
        let out : NotIn p ps = elim (In-cases p ps) [
          | inl i ↦
              let at =
                waiting-owned t b.view key b.sems' p b.asl.rings b.asl.holds
                  (subst (In p) (sym b.queue) i) in
              let none_left = free p refl in absurd (ground (arith, at.1, none_left))
          | inr out ↦ out
        ] in
        (
          t,
          became s k h key nonzero ps t b members gone,
          run,
          Became-Steady s k h key nonzero ps t b members gone,
          Became-Still s k h key nonzero ps t b members gone,
          λ z at.
              let kept =
                Became-Loose s k h key nonzero ps t b members gone z (apart z at.unlisted)
                  at.unlisted at.awake in
              record { unlisted = kept.0; awake = kept.1; known = at.known },
          record {
            unlisted = free p refl;
            awake = b.left p out (rw e (inl refl));
            known = waits-known p (rw e (inl refl));
          },
        )
      where
        first_free :
            (w : View) (p : ℕ) (ps : List ℕ)
            → ((z : ℕ) → oldest (p ∷ ps) ≡ some z → w.owner (p_list z) ≡ none)
            → (z : ℕ) → NotIn z ps
            → In z (p ∷ ps)
            → w.owner (p_list z) ≡ none
        first_free w p ps free z out (inl e) = free z (ap some (sym e))
        first_free w p ps free z out (inr i) = absurd (In-NotIn z ps i out)

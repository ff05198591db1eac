-- ===== src/Nucleus/Reached.antt =====
-- The states of the kernel that the steps of phase2 reach.
use progetto_sistemi_operati.Base.{
  ℕ, ◌≡◌, ◌≢◌, refl, sym, ◌∙◌, ap, subst, some, none, inr, List, [], ◌∷◌, arith, In,
}
use progetto_sistemi_operati.Memory.{ready_queue}
use progetto_sistemi_operati.Store.{Store, ok}
use progetto_sistemi_operati.Pcb.{reset_pcb, alloc_pcb, insert_child, insert_proc_q}
use progetto_sistemi_operati.Pcb.Queue.{lists}
use progetto_sistemi_operati.Pcb.Free.{after_alloc, alloc_pcb-nil}
use progetto_sistemi_operati.Pcb.Tree.{adopted}
use progetto_sistemi_operati.Nucleus.Platform.{Platform, put_current, put_word, decr}
use progetto_sistemi_operati.Nucleus.Functions.{kill_process}
use progetto_sistemi_operati.Nucleus.Kernel.{Lists}
use progetto_sistemi_operati.Nucleus.Forest.{Forest, end, tree, members}
use progetto_sistemi_operati.Nucleus.Steady.{Steady, Quiet}
use progetto_sistemi_operati.Nucleus.Moves.{Loose, ok-inj, enqueued}
use progetto_sistemi_operati.Nucleus.Spawning.{handed, spawned}
use progetto_sistemi_operati.Nucleus.Sound.{Held, Sound, Still-Held, Quiet-Held, Quiet-Loose}
use progetto_sistemi_operati.Nucleus.Ended.{kill_process-Held}
use progetto_sistemi_operati.Nucleus.Begun.{founded, adopted-Held}
use progetto_sistemi_operati.Nucleus.Steps.{
  Step, computes, readies, yields, refuses, misses, dispatches, blocks, wakes, founds, spawns, ends,
}
use progetto_sistemi_operati.Nucleus.Moved.{
  put_current-Sound, no_process, some_inj, computes-Sound, readies-Sound, yields-Sound, drops-Sound,
  dispatches-Sound, blocks-Sound, wakes-Sound,
}

current-after_alloc :
    (gpr_len : ℕ) (s : Store) (p : ℕ)
    → (after_alloc gpr_len s p).current_process ≡ s.current_process
unfolding reset_pcb
current-after_alloc gpr_len s p = refl

-- A process that is not in the free list is not the new one.
used_apart :
    (s : Store) (k : Lists) (h : Steady s k) (p z : ℕ) (ps : List ℕ)
    → k.free ≡ p ∷ ps
    → Loose s k z
    → z ≢ p
used_apart s k h p z ps first loose e =
    let listed = (h.asl.rings.owned _ _ (h.free ∙ ap (λ qs. some (lists qs)) first)).0 in
    let out = loose.unlisted in absurd (ground (arith, listed, out, e))

-- A process joins the ready queue, and the running one stays.
joined-Sound :
    (s t : Store) (k : Lists) (f : Forest) (p : ℕ)
    → Held s k f
    → Loose s k p
    → ((z : ℕ) → s.current_process ≡ some z → Loose s k z × In z (members f) × (z ≢ p))
    → insert_proc_q ready_queue p s ≡ ok tt t
    → Sound t
joined-Sound s t k f p h loose running run =
    let (t', l, run', steady, still, apart) = enqueued s k h.steady p loose in
    subst Sound (ok-inj tt tt t' t (sym run' ∙ run)).1 (record {
      lists = l;
      family = f;
      held = Still-Held s k t' l f still steady h;
      running = λ z e.
          let (z_loose, i, ne) = running z (sym still.current ∙ e) in (apart z z_loose ne, i);
    })

module _ (u : Platform) (s : Store) (sound : Sound s) where
  k : Lists
  k = sound.lists

  module _ (t t1 : Store) (p : ℕ) (run : alloc_pcb u.gpr_len s ≡ ok (some p) t) (q : Quiet t t1)
      (same : t1.current_process ≡ t.current_process) where
    -- The lists and the trees with the new process.
    record Made : Type 0 where
      lists : Lists
      held : Held t1 lists (tree p end sound.family)
      loose : Loose t1 lists p
      running :
          (z : ℕ)
          → t1.current_process ≡ some z
          → Loose t1 lists z × In z (members sound.family) × (z ≢ p)

    made_first : (r : ℕ) (ps : List ℕ) → sound.lists.free ≡ r ∷ ps → Made
    made_first r ps e =
        let h = sound.held in
        let k = sound.lists in
        let l = handed s k h.steady r u.gpr_len ps e in
        let t' = after_alloc u.gpr_len s r in
        let (run', steady, loose, alone, parents, kept) = spawned s k h.steady r u.gpr_len ps e in
        let got = ok-inj (some r) (some p) t' t (sym run' ∙ run) in
        let quiet : Quiet t' t1 = subst (λ x. Quiet x t1) (sym got.1) q in
        let same_p = some_inj got.0 in
        record {
          lists = l;
          held =
              subst (λ a. Held t1 l (tree a end sound.family)) same_p
                (Quiet-Held t' t1 l (tree r end sound.family) quiet
                  (founded u.gpr_len s k sound.family h r ps e));
          loose = subst (Loose t1 l) same_p (Quiet-Loose t' t1 l r quiet loose);
          running = λ z at.
              let before : s.current_process ≡ some z =
                sym (current-after_alloc u.gpr_len s r)
                ∙ ap (λ x. x.current_process) got.1
                ∙ sym same
                ∙ at in
              let (z_loose, i) = sound.running z before in
              let ne = used_apart s k h.steady r z ps e z_loose in
              (Quiet-Loose t' t1 l z quiet (kept z ne z_loose), i, λ f. ne (f ∙ sym same_p));
        }

    made : Made
    made = first sound.lists.free refl
      where
        first : (ps : List ℕ) → sound.lists.free ≡ ps → Made
        first [] e =
            let none_free =
              alloc_pcb-nil u.gpr_len s sound.lists.view sound.held.steady.asl.rings
                (sound.held.steady.free ∙ ap (λ qs. some (lists qs)) e) in
            absurd (let no = sym run ∙ none_free in cc)
        first (r ∷ ps) e = made_first r ps e

    founds-Sound : (t2 : Store) → insert_proc_q ready_queue p t1 ≡ ok tt t2 → Sound t2
    founds-Sound t2 joins =
        joined-Sound t1 t2 made.lists (tree p end sound.family) p made.held made.loose
          (λ z e. let (loose, i, ne) = made.running z e in (loose, inr i, ne)) joins

    spawns-Sound :
        (t2 t3 : Store) (r : ℕ)
        → s.current_process ≡ some r
        → insert_child (some r) (some p) t1 ≡ ok tt t2
        → insert_proc_q ready_queue p t2 ≡ ok tt t3
        → Sound t3
    spawns-Sound t2 t3 r at child joins =
        let (l, child', held, loose, kept, still_in) =
          adopted-Held t1 made.lists sound.family p made.held made.loose r (sound.running r at).1 in
        let e : adopted r p t1 ≡ t2 = (ok-inj tt tt (adopted r p t1) t2 (sym child' ∙ child)).1 in
        joined-Sound (adopted r p t1) t3 l _ p held loose
          (λ z now.
            let (z_loose, i, ne) = made.running z now in (kept z z_loose, still_in z (inr i), ne))
          (ap (insert_proc_q ready_queue p) e ∙ joins)

  ends-Sound :
      (t : Store) (p : ℕ)
      → s.current_process ≡ some p
      → kill_process u (some p) s ≡ ok tt t
      → Sound (put_current none t)
  ends-Sound t p at run =
      let (t', l, g, run', held, same) =
        kill_process-Held u p s sound.lists sound.family sound.held (sound.running p at).1 in
      subst (λ x. Sound (put_current none x)) (ok-inj tt tt t' t (sym run' ∙ run)).1
        (put_current-Sound t' l g none held (λ q f. no_process none q refl f))

pub Step-Sound : (u : Platform) (s t : Store) → Step u s t → Sound s → Sound t
Step-Sound u s t (computes q same) h = computes-Sound s h t q same
Step-Sound u s _ (readies {t = t} {p = p} at run) h = readies-Sound s h t p at run
Step-Sound u s _ (yields {p = p} at) h = yields-Sound s h p at
Step-Sound u s _ (refuses nonzero at full) h = drops-Sound s h
Step-Sound u s _ (misses key at positive) h =
    drops-Sound (put_word key (decr (s.machine.word key)) s) (
      computes-Sound s h (put_word key (decr (s.machine.word key)) s)
        (record { links = refl; keys = refl; sem_add = λ p. refl; parent = λ p. refl }) refl)
Step-Sound u s _ (dispatches {t = t} {p = p} run) h = dispatches-Sound s h t p run
Step-Sound u s _ (blocks {t = t} {p = p} {key = key} nonzero at run) h =
    blocks-Sound s h t p key nonzero at run
Step-Sound u s _ (wakes {t = t} {t1 = t1} {t2 = t2} {p = p} {key = key} nonzero run q same joins)
      h =
    wakes-Sound s h t t1 t2 p key nonzero run q same joins
Step-Sound u s _ (founds {t = t} {t1 = t1} {t2 = t2} {p = p} run q same joins) h =
    founds-Sound u s h t t1 p run q same t2 joins
Step-Sound u s _
      (spawns {t = t} {t1 = t1} {t2 = t2} {t3 = t3} {p = p} {q = r} at run q same child joins) h =
    spawns-Sound u s h t t1 p run q same t2 t3 r at child joins
Step-Sound u s _ (ends {t = t} {p = p} at run) h = ends-Sound u s h t p at run

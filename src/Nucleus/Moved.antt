-- ===== src/Nucleus/Moved.antt =====
-- The processes as a whole behind each step of phase2 that moves one.
use progetto_sistemi_operati.Base.{
  ℕ, ◌≡◌, ◌≢◌, refl, sym, ◌∙◌, ap, subst, Option, some, none, inl, inr, List, [], ◌∷◌, arith, In,
  false,
}
use progetto_sistemi_operati.Memory.{of_head, ready_queue}
use progetto_sistemi_operati.Listx.{list_add_tail}
use progetto_sistemi_operati.Store.{on_links, Store, ok}
use progetto_sistemi_operati.Pcb.{list_of_pcb, insert_proc_q, remove_proc_q}
use progetto_sistemi_operati.Pcb.Queue.{lists, remove_proc_q-nil}
use progetto_sistemi_operati.Asl.{insert_blocked, remove_blocked}
use progetto_sistemi_operati.Asl.Waiting.{waiting}
use progetto_sistemi_operati.Asl.Spec.{remove_blocked-queue}
use progetto_sistemi_operati.Nucleus.Platform.{put_current}
use progetto_sistemi_operati.Nucleus.Kernel.{Lists}
use progetto_sistemi_operati.Nucleus.Leaving.{waiting-owned}
use progetto_sistemi_operati.Nucleus.Forest.{Forest, members}
use progetto_sistemi_operati.Nucleus.Steady.{Steady-Kernel, Quiet}
use progetto_sistemi_operati.Nucleus.Moves.{Loose, ok-inj, enqueued, appended, dequeued}
use progetto_sistemi_operati.Nucleus.Waits.{blocked, unblocked}
use progetto_sistemi_operati.Nucleus.Sound.{Held, Sound, Still-Held, Quiet-Held, Quiet-Loose}

pub put_current-Sound :
    (t : Store) (l : Lists) (f : Forest) (c : Option ℕ)
    → Held t l f
    → ((p : ℕ) → c ≡ some p → Loose t l p × In p (members f))
    → Sound (put_current c t)
put_current-Sound t l f c h running =
    let q : Quiet t (put_current c t) = record {
      links = refl;
      keys = refl;
      sem_add = λ p. refl;
      parent = λ p. refl;
    } in
    record {
      lists = l;
      family = f;
      held = Quiet-Held t (put_current c t) l f q h;
      running =
          λ p e. let (loose, i) = running p e in (Quiet-Loose t (put_current c t) l p q loose, i);
    }

pub no_process : {A : Type 0} (c : Option ℕ) (p : ℕ) → c ≡ none → c ≡ some p → A
no_process c p e f = absurd (cc)

pub some_inj : {a b : ℕ} → some a ≡ some b → a ≡ b
some_inj e = cc

pub unlisted-In :
    (t : Store) (l : Lists) (f : Forest) (p : ℕ) → Held t l f → Loose t l p → In p (members f)
unlisted-In t l f p h loose =
    h.alive p loose.known (λ free. let out = loose.unlisted in ground (arith, free, out))

module _ (s : Store) (sound : Sound s) where
  pub computes-Sound : (t : Store) → Quiet s t → t.current_process ≡ s.current_process → Sound t
  computes-Sound t q same = record {
    lists = sound.lists;
    family = sound.family;
    held = Quiet-Held s t sound.lists sound.family q sound.held;
    running = λ p e.
        let (loose, i) = sound.running p (sym same ∙ e) in
        (Quiet-Loose s t sound.lists p q loose, i);
  }

  pub readies-Sound :
      (t : Store) (p : ℕ)
      → s.current_process ≡ some p
      → insert_proc_q ready_queue p s ≡ ok tt t
      → Sound (put_current none t)
  readies-Sound t p e run =
      let h = sound.held in
      let (t', l, run', steady, still, apart) =
        enqueued s sound.lists h.steady p (sound.running p e).0 in
      subst (λ x. Sound (put_current none x)) (ok-inj tt tt t' t (sym run' ∙ run)).1
        (put_current-Sound t' l sound.family none
          (Still-Held s sound.lists t' l sound.family still steady h)
          (λ q f. no_process none q refl f))

  pub yields-Sound :
      (p : ℕ)
      → s.current_process ≡ some p
      → Sound (put_current none (on_links (list_add_tail (list_of_pcb p) (of_head ready_queue)) s))
  yields-Sound p e =
      let h = sound.held in
      let t = on_links (list_add_tail (list_of_pcb p) (of_head ready_queue)) s in
      let (l, steady, still, apart) = appended s sound.lists h.steady p (sound.running p e).0 in
      put_current-Sound t l sound.family none
        (Still-Held s sound.lists t l sound.family still steady h) (λ q f. no_process none q refl f)

  pub drops-Sound : Sound (put_current none s)
  drops-Sound =
      put_current-Sound s sound.lists sound.family none sound.held (λ q f. no_process none q refl f)

  pub dispatches-Sound :
      (t : Store) (p : ℕ)
      → remove_proc_q ready_queue s ≡ ok (some p) t
      → Sound (put_current (some p) t)
  dispatches-Sound t p run = first sound.lists.ready refl
    where
      first : (ps : List ℕ) → sound.lists.ready ≡ ps → Sound (put_current (some p) t)
      first [] e =
          let none_ready =
            remove_proc_q-nil s sound.lists.view ready_queue sound.held.steady.asl.rings
              (sound.held.steady.queued ∙ ap (λ qs. some (lists qs)) e) in
          absurd (let no = sym run ∙ none_ready in cc)
      first (q ∷ ps) e =
          let h = sound.held in
          let (t', l, run', steady, still, loose) = dequeued s sound.lists h.steady q ps e in
          let held = Still-Held s sound.lists t' l sound.family still steady h in
          let same = ok-inj (some q) (some p) t' t (sym run' ∙ run) in
          subst (λ x. Sound (put_current (some p) x)) same.1
            (put_current-Sound t' l sound.family (some p) held (λ z f.
              let e' : q ≡ z = some_inj (same.0 ∙ f) in
              let out = subst (Loose t' l) e' loose in
              (out, unlisted-In t' l sound.family z held out)))

  pub blocks-Sound :
      (t : Store) (p key : ℕ)
      → key ≢ 0
      → s.current_process ≡ some p
      → insert_blocked key p s ≡ ok false t
      → Sound (put_current none t)
  blocks-Sound t p key nonzero e run =
      let h = sound.held in
      elim (blocked s sound.lists h.steady key nonzero p (sound.running p e).0) [
        | inl (t', l, run', steady, still) ↦
            subst (λ x. Sound (put_current none x)) (ok-inj false false t' t (sym run' ∙ run)).1
              (put_current-Sound t' l sound.family none
                (Still-Held s sound.lists t' l sound.family still steady h)
                (λ q f. no_process none q refl f))
        | inr full ↦ absurd (let no = sym run ∙ full in cc)
      ]

  module _ (t t1 t2 : Store) (p key : ℕ) (nonzero : key ≢ 0)
      (run : remove_blocked key s ≡ ok (some p) t) (q : Quiet t t1)
      (same : t1.current_process ≡ t.current_process)
      (joins : insert_proc_q ready_queue p t1 ≡ ok tt t2) where
    -- The running process is not the one that wakes.
    other_waits :
        (r z : ℕ) (ps : List ℕ)
        → waiting key sound.lists.sems ≡ r ∷ ps
        → Loose s sound.lists z
        → z ≢ r
    other_waits r z ps e loose f =
        let steady = sound.held.steady in
        let at =
          waiting-owned s sound.lists.view key sound.lists.sems r steady.asl.rings steady.asl.holds
            (rw e (inl refl)) in
        let out = loose.unlisted in absurd (ground (arith, at.1, out, f))

    woken : (r : ℕ) (ps : List ℕ) → waiting key sound.lists.sems ≡ r ∷ ps → Sound t2
    woken r ps e =
        let h = sound.held in
        let k = sound.lists in
        let f = sound.family in
        let (t', l, run', steady, still, apart, loose) =
          unblocked s k h.steady key nonzero r ps e in
        let got = ok-inj (some r) (some p) t' t (sym run' ∙ run) in
        let quiet : Quiet t' t1 = subst (λ x. Quiet x t1) (sym got.1) q in
        let held1 = Quiet-Held t' t1 l f quiet (Still-Held s k t' l f still steady h) in
        let (t2', l2, joins', steady2, still2, apart2) =
          enqueued t1 l held1.steady r (Quiet-Loose t' t1 l r quiet loose) in
        let last =
          ok-inj tt tt t2' t2
            (sym joins' ∙ ap (λ a. insert_proc_q ready_queue a t1) (some_inj got.0) ∙ joins) in
        subst Sound last.1 (record {
          lists = l2;
          family = f;
          held = Still-Held t1 l t2' l2 f still2 steady2 held1;
          running = λ z at.
              let before : s.current_process ≡ some z =
                sym still.current
                ∙ ap (λ x. x.current_process) got.1
                ∙ sym same
                ∙ sym still2.current
                ∙ at in
              let (z_loose, i) = sound.running z before in
              (
                apart2 z (Quiet-Loose t' t1 l z quiet (apart z z_loose))
                    (other_waits r z ps e z_loose),
                i,
              );
        })

    pub wakes-Sound : Sound t2
    wakes-Sound = first (waiting key sound.lists.sems) refl
      where
        first : (ps : List ℕ) → waiting key sound.lists.sems ≡ ps → Sound t2
        first [] e =
            let steady = sound.held.steady in
            let (t', none_waits, b, free, fewer) =
              remove_blocked-queue s sound.lists.view sound.lists.spare key [] sound.lists.sems
                steady.asl (Steady-Kernel s sound.lists steady).few e in
            absurd (let no = sym run ∙ none_waits in cc)
        first (r ∷ ps) e = woken r ps e

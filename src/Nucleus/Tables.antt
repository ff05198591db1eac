-- ===== src/Nucleus/Tables.antt =====
-- The tables and the settings that `main` of phase2/initial.c prepares.
use progetto_sistemi_operati.Base.{
  ℕ, ◌+◌, ◌<◌, ◌≡◌, refl, sym, ◌∙◌, ap, none, some, ◌⊎◌, inl, inr, [], arith, ◌==◌, if◌then◌else◌,
  for_range_inv, Bool-cases, false, subst, eq_of_==,
}
use progetto_sistemi_operati.Memory.{
  Head, Item, p_list, p_sib, s_link, s_list, of_head, pcb_free, semd_free, ready_queue,
}
use progetto_sistemi_operati.Listx.{init_list_head, list_add}
use progetto_sistemi_operati.Listx.View.{View, Rings}
use progetto_sistemi_operati.Listx.Init.{create, init_head-Rings}
use progetto_sistemi_operati.Store.{Store, on_links}
use progetto_sistemi_operati.Pcb.{max_proc, init_pcbs, list_of_pcb}
use progetto_sistemi_operati.Pcb.Queue.{lists}
use progetto_sistemi_operati.Pcb.Free.{down, Filled, init_pcbs-Filled}
use progetto_sistemi_operati.Asl.{init_asl, init_semd}
use progetto_sistemi_operati.Asl.View.{Asl}
use progetto_sistemi_operati.Asl.Init.{Prepared, init_asl-Prepared}
use progetto_sistemi_operati.Nucleus.Platform.{Platform, ncpu, device_sem, put_word}
use progetto_sistemi_operati.Nucleus.Initial.{reset_times, reset_semaphores}
use progetto_sistemi_operati.Nucleus.Wakes.{Asl-same}

-- No list has been initialised.
abbrev nothing : View
nothing = record { items = λ h. none; owner = λ i. none }

nothing-Rings : (s : Store) → Rings s.links nothing
nothing-Rings s = record {
  ring = λ h xs e. absurd (cc);
  distinct = λ h xs e. absurd (cc);
  owned = λ h xs e. absurd (cc);
  listed = λ i h e. absurd (cc);
}

-- Every PCB and every descriptor is free, and no process is ready.
pub record Fresh (t : Store) : Type 0 where
  pub view : View
  pub asl : Asl t view [] (down max_proc)
  pub free : view.items pcb_free ≡ some (lists (down max_proc))
  pub ready : view.items ready_queue ≡ some []
  pub owners : (j : Item) (h : Head) → view.owner j ≡ some h → (h ≡ pcb_free) ⊎ (h ≡ semd_free)
  pub no_child : (c : ℕ) → view.owner (p_sib c) ≡ none

Filled-owner :
    (s : Store) (f : Filled nothing max_proc s) (j : Item) (h : Head)
    → f.view.owner j ≡ some h
    → h ≡ pcb_free
Filled-owner s f (p_list c) h e = f.members c h e
Filled-owner s f (p_sib c) h e = absurd (ground (arith, f.alike (p_sib c) (λ d q. cc)))
Filled-owner s f (s_link c) h e = absurd (ground (arith, f.alike (s_link c) (λ d q. cc)))
Filled-owner s f (s_list c) h e = absurd (ground (arith, f.alike (s_list c) (λ d q. cc)))

abbrev pub tables : Store → Store
tables s = on_links (init_list_head (of_head ready_queue)) (init_asl (init_pcbs s))

module _ (s : Store) (f : Filled nothing max_proc (init_pcbs s)) where
  prepared : Prepared f.view max_proc (init_asl (init_pcbs s))
  prepared =
      let owner = Filled-owner (init_pcbs s) f in
      init_asl-Prepared (init_pcbs s) f.view f.rings (λ j e. ground (arith, owner j _ e))
        (λ j e. ground (arith, owner j _ e)) (λ c j e. ground (arith, owner j _ e))
        (λ c. f.alike (s_link c) (λ d q. cc))

  Prepared-owner :
      (a : Prepared f.view max_proc (init_asl (init_pcbs s))) (j : Item) (h : Head)
      → a.view.owner j ≡ some h
      → (h ≡ pcb_free) ⊎ (h ≡ semd_free)
  Prepared-owner a (p_list c) h e =
      inl (Filled-owner (init_pcbs s) f (p_list c) h (sym (a.owners (p_list c) (λ d q. cc)) ∙ e))
  Prepared-owner a (p_sib c) h e =
      inl (Filled-owner (init_pcbs s) f (p_sib c) h (sym (a.owners (p_sib c) (λ d q. cc)) ∙ e))
  Prepared-owner a (s_link c) h e = inr (a.members c h e)
  Prepared-owner a (s_list c) h e =
      inl (Filled-owner (init_pcbs s) f (s_list c) h (sym (a.owners (s_list c) (λ d q. cc)) ∙ e))

  Prepared-Fresh : Prepared f.view max_proc (init_asl (init_pcbs s)) → Fresh (tables s)
  Prepared-Fresh a = record {
    view = create ready_queue a.view;
    asl =
        Asl-same (init_asl (init_pcbs s)) a.view (tables s) (create ready_queue a.view) refl
          (λ z. refl) (λ z. ground arith) [] (down max_proc) (ground arith) (ground arith)
          (init_head-Rings _ a.view ready_queue a.asl.rings
            (λ j e. ground (arith, Prepared-owner a j ready_queue e)))
          a.asl;
    free = ground (arith, a.alike pcb_free (λ q. cc) (λ q. cc) (λ d q. cc), f.free);
    ready = ground arith;
    owners = λ j h e. Prepared-owner a j h e;
    no_child = λ c. a.owners (p_sib c) (λ d q. cc) ∙ f.alike (p_sib c) (λ d q. cc);
  }

pub tables-Fresh : (s : Store) → Fresh (tables s)
tables-Fresh s =
    let f = init_pcbs-Filled s nothing (nothing-Rings s) (λ j e. cc) (λ c. refl) in
    Prepared-Fresh s f (prepared s f)

-- The lists and the keys are all that `initPcbs` and `initASL` change.
init_pcbs_lem : (s : Store) → init_pcbs s ≡ record s { links = (init_pcbs s).links }
unfolding init_pcbs
init_pcbs_lem s =
    for_range_inv (λ i t. t ≡ record s { links = t.links })
      (λ c. on_links (list_add (list_of_pcb c) (of_head pcb_free)))
      (λ c t e. ap (on_links (list_add (list_of_pcb c) (of_head pcb_free))) e) max_proc 0 max_proc _
      (omega arith) refl

init_asl_lem :
    (s : Store) → init_asl s ≡ record s { links = (init_asl s).links; s_key = (init_asl s).s_key }
unfolding init_asl init_semd
init_asl_lem s =
    for_range_inv (λ i t. t ≡ record s { links = t.links; s_key = t.s_key }) init_semd
      (λ c t e. ap (init_semd c) e) max_proc 0 max_proc _ (omega arith) refl

pub tables_lem :
    (s : Store) → tables s ≡ record s { links = (tables s).links; s_key = (tables s).s_key }
tables_lem s =
    ap (on_links (init_list_head (of_head ready_queue))) (init_asl_lem (init_pcbs s))
    ∙ ap {A = Store} (λ x. record x { links = (tables s).links; s_key = (tables s).s_key })
        (init_pcbs_lem s)

-- The loops that reset the times and the semaphores of the devices.
pub reset_times_lem :
    (s : Store)
    → (reset_times s ≡ record s { start_time = (reset_times s).start_time })
      × ((k : ℕ) → k < ncpu → (reset_times s).start_time k ≡ 0)
unfolding reset_times
reset_times_lem s =
    for_range_inv
      (λ i t. (t ≡ record s { start_time = t.start_time }) × ((k : ℕ) → k < i → t.start_time k ≡ 0))
      (λ c s. record s { start_time = λ k. if c == k then 0 else s.start_time k })
      (λ c t h. (
        ap {A = Store} (λ x. record x { start_time = λ k. if c == k then 0 else t.start_time k })
            h.0,
        λ k lt. ground (arith, h.1 k),
      ))
      ncpu 0 ncpu s (omega arith) (refl, λ k lt. absurd (omega arith))

pub reset_semaphores_lem :
    (u : Platform) (s : Store)
    → (reset_semaphores u s ≡ record s { machine = (reset_semaphores u s).machine })
      × ((k : ℕ) → k < 49 → (reset_semaphores u s).machine.word (device_sem u k) ≡ 0)
      × ((reset_semaphores u s).machine.vector ≡ s.machine.vector)
unfolding reset_semaphores
reset_semaphores_lem u s =
    for_range_inv
      (λ i t.
        (t ≡ record s { machine = t.machine })
        × ((k : ℕ) → k < i → t.machine.word (device_sem u k) ≡ 0)
        × (t.machine.vector ≡ s.machine.vector))
      (λ c. put_word (device_sem u c) 0)
      (λ c t h. (
        ap {A = Store} (λ x. record x { machine = (put_word (device_sem u c) 0 t).machine }) h.0,
        λ k lt. elim (Bool-cases (device_sem u c == device_sem u k)) [
          | inl e ↦ rw e refl
          | inr e ↦ rw e (h.1 k (zeroed u c k lt e))
        ],
        h.2,
      ))
      49 0 49 s (omega arith) (refl, λ k lt. absurd (omega arith), refl)
  where
    zeroed :
        (u : Platform) (c k : ℕ) → k < c + 1 → (device_sem u c == device_sem u k) ≡ false → k < c
    zeroed u c k lt e = elim (Bool-cases (c == k)) [
      | inl same ↦ absurd (ground (arith, ap (device_sem u) (eq_of_== c k same)))
      | inr differ ↦ ground arith
    ]

pub Fresh-same :
    (s t : Store) → t.links ≡ s.links → t.s_key ≡ s.s_key → t.pcb ≡ s.pcb → Fresh s → Fresh t
Fresh-same s t links keys pcbs f = record {
  view = f.view;
  asl =
      Asl-same s f.view t f.view keys (λ z. ap (λ x. (x z).sem_add) pcbs) (λ z. refl) []
        (down max_proc) refl refl (subst (λ l. Rings l f.view) (sym links) f.asl.rings) f.asl;
  free = f.free;
  ready = f.ready;
  owners = f.owners;
  no_child = f.no_child;
}

-- ===== src/Nucleus/Burial.antt =====
-- The last steps of `killProcess` of phase2/functions.c: a process without children is buried.
use progetto_sistemi_operati.Base.{
  inl, inr, ℕ, ◌≡◌, refl, ◌∙◌, ap, Option, none, some, [], ◌∷◌, arith,
}
use progetto_sistemi_operati.Memory.{of_head, p_list, p_child, pcb_free}
use progetto_sistemi_operati.Listx.{list_add}
use progetto_sistemi_operati.Listx.View.{enter}
use progetto_sistemi_operati.Listx.Queue.{list_add-Rings}
use progetto_sistemi_operati.Listx.Removal.{each}
use progetto_sistemi_operati.Store.{Store, ok, on_links}
use progetto_sistemi_operati.Pcb.{list_of_pcb, out_child, free_pcb}
use progetto_sistemi_operati.Pcb.Queue.{lists}
use progetto_sistemi_operati.Nucleus.Platform.{Platform, decr}
use progetto_sistemi_operati.Nucleus.Functions.{bury}
use progetto_sistemi_operati.Nucleus.Wakes.{Asl-same}
use progetto_sistemi_operati.Nucleus.Kernel.{Lists, Kernel, Placed}
use progetto_sistemi_operati.Nucleus.Leaving.{Left, leave_queues-Left}
use progetto_sistemi_operati.Nucleus.Killed.{Killed}

-- The PCB that has left its queue becomes the first free one.
module _ (u : Platform) (s : Store) (k : Lists) (p : ℕ) (t : Store) (l : Lists)
    (d : Left u s k p t l) (orphan : (s.pcb p).parent ≡ none)
    (childless : k.view.items (p_child p) ≡ some []) where
  abbrev freed : Store
  freed =
      on_links (list_add (list_of_pcb p) (of_head pcb_free))
        (record t { process_count = decr t.process_count })

  abbrev freed_lists : Lists
  freed_lists = record l {
    view = enter pcb_free (p_list p) (p_list p ∷ lists l.free) l.view;
    free = p ∷ l.free;
  }

  freed-Kernel : Kernel freed freed_lists
  freed-Kernel =
      let h = d.kernel in
      let rings =
        list_add-Rings t.links l.view pcb_free (p_list p) (lists l.free) h.asl.rings h.free
          d.unlisted in
      record {
        asl =
            Asl-same t l.view freed freed_lists.view refl (λ z. refl) (λ z. ground arith) l.sems
              l.spare (ground arith) (ground arith) rings h.asl;
        parent = λ c. ground (arith, h.parent c);
        queued = ground (arith, h.queued);
        free = ground arith;
        few = h.few;
        room = h.room;
        short = h.short;
      }

  freed-Killed : Killed u p (p ∷ []) s k freed freed_lists
  unfolding each
  freed-Killed = record {
    kernel = freed-Kernel;
    ready = d.ready;
    free = ap (◌∷◌ p) d.free;
    queues = d.queues;
    children = λ z ne n. ground (arith, d.children z);
    owners = λ z n. ground (arith, d.owners z n.0, n.0);
    descriptors = λ c g o. d.descriptors c g (ground (arith, o));
    slots = λ e slot. elim (d.slots e slot) [
      | inl a ↦ inl (ground (arith, a))
      | inr a ↦ inr (ground (arith, a))
    ];
    others = λ z n. d.others z n.0;
    over = (
      record {
        parent = d.parent ∙ orphan;
        awake = d.awake;
        childless = ground (arith, d.children p, childless);
      },
      tt,
    );
    count = ap (λ x. decr x.process_count) d.globals;
    soft = ap (λ x. x.soft_block_count) d.globals;
    current = ap (λ x. x.current_process) d.globals;
    machine = ap (λ x. x.machine) d.globals;
    pids = ap (λ x. x.next_pid) d.globals;
  }

-- A process that has no parent once `outChild` has returned, and no children, is buried.
pub bury-Killed :
    (u : Platform) (p : ℕ) (r : Option ℕ) (s s' : Store) (k : Lists)
    → out_child (some p) s ≡ ok r s'
    → Kernel s' k
    → Placed s' k p
    → (s'.pcb p).parent ≡ none
    → k.view.items (p_child p) ≡ some []
    → (t : Store) × (l : Lists) × (bury u p s ≡ ok tt t) × Killed u p (p ∷ []) s' k t l
unfolding bury free_pcb
bury-Killed u p r s s' k out h at orphan childless =
    let (t, l, run, d) = leave_queues-Left u s' k h p at in
    (
      freed u s' k p t l d orphan childless,
      _,
      rw (out, run) refl,
      freed-Killed u s' k p t l d orphan childless,
    )

-- ===== src/Examples/Semaphores.antt =====
-- The theorems on the active semaphore list at sample states: PCBs 0, 1 and 2 wait on the key 100,
-- then PCB 3 on the key 200.
use progetto_sistemi_operati.Base.{◌≡◌, refl, some, [], ◌∷◌, arith}
use progetto_sistemi_operati.Memory.{s_procq, p_list}
use progetto_sistemi_operati.Listx.View.{enter}
use progetto_sistemi_operati.Listx.View.{View}
use progetto_sistemi_operati.Store.{Store, ok, fault}
use progetto_sistemi_operati.Asl.{set_sem_add, out_blocked, find_blocked_pcb}
use progetto_sistemi_operati.Asl.View.{Sem, Asl}
use progetto_sistemi_operati.Asl.Block.{
  blocked, opened, opened_view, insert_blocked-new, insert_blocked-active,
}
use progetto_sistemi_operati.Asl.Leave.{unlinked_view}
use progetto_sistemi_operati.Asl.Out.{after_out, out_blocked-more, out_blocked-fault}
use progetto_sistemi_operati.Asl.Pid.{find_blocked_pcb-fault}
use progetto_sistemi_operati.Asl.Spec.{
  Removed, Inserted, remove_blocked-oldest, insert_blocked-last,
}
use progetto_sistemi_operati.Examples.{semd_links, semd_view, semd-Asl, store_with}

abbrev free_all : Store
free_all = store_with semd_links

insert_blocked-last_example : Inserted free_all semd_view 100 5 [] (0 ∷ 1 ∷ [])
insert_blocked-last_example =
    insert_blocked-last free_all semd_view (0 ∷ 1 ∷ []) 100 5 [] semd-Asl (omega arith)
      (ground arith)

-- PCB 0 waits on the key 100.
abbrev pub one : Store
one = blocked 0 100 0 (opened 0 100 free_all)

abbrev pub one_view : View
one_view = opened_view semd_view [] 0 (1 ∷ []) 0

abbrev pub one_sem : Sem
one_sem = record { desc = 0; key = 100; queue = 0 ∷ [] }

pub one-Asl : Asl one one_view (one_sem ∷ []) (1 ∷ [])
one-Asl =
    (insert_blocked-new free_all semd_view [] 0 (1 ∷ []) 100 0 semd-Asl (ground arith) tt
      (omega arith)).1

remove_blocked-oldest_example : Removed one one_view 100 (one_sem ∷ [])
remove_blocked-oldest_example =
    remove_blocked-oldest one one_view (1 ∷ []) 100 (one_sem ∷ []) one-Asl (omega arith)

-- Behind it PCB 1 waits on the same key.
abbrev two : Store
two = blocked 0 100 1 one

abbrev two_view : View
two_view = enter (s_procq 0) (p_list 1) (p_list 0 ∷ p_list 1 ∷ []) one_view

abbrev two_sem : Sem
two_sem = record { desc = 0; key = 100; queue = 0 ∷ 1 ∷ [] }

two-Asl : Asl two two_view (two_sem ∷ []) (1 ∷ [])
two-Asl =
    (insert_blocked-active one one_view [] one_sem [] (1 ∷ []) 1 one-Asl one-Asl.holds.0
      (ground arith) tt (omega arith)).1

out_blocked-more_example :
    (out_blocked 1 two ≡ ok (some 1) (after_out 1 two))
    × Asl (after_out 1 two) (unlinked_view 0 1 (0 ∷ []) two_view) (one_sem ∷ []) (1 ∷ [])
out_blocked-more_example =
    out_blocked-more two two_view [] two_sem [] (1 ∷ []) 1 two-Asl two-Asl.holds.0 tt (omega arith)
      (ground arith) (0 ∷ []) [] refl (omega arith) 0 [] refl

find_blocked_pcb-fault_example : find_blocked_pcb 99 two ≡ fault
find_blocked_pcb-fault_example =
    find_blocked_pcb-fault two two_view two_sem [] (1 ∷ []) 99 two-Asl
      (ground arith, (ground arith, tt)) (omega arith)

-- PCB 3 names the semaphore although it does not wait in its queue.
abbrev stale : Store
stale = set_sem_add 3 100 two

stale-Asl : Asl stale two_view (two_sem ∷ []) (1 ∷ [])
stale-Asl = record {
  rings = two-Asl.rings;
  active = two-Asl.active;
  free = two-Asl.free;
  holds = (
    record {
      queued = two-Asl.holds.0.queued;
      keyed = two-Asl.holds.0.keyed;
      waiting = (ground arith, (ground arith, tt));
      nonempty = λ e. cc;
    },
    tt,
  );
  unique = two-Asl.unique;
  idle = two-Asl.idle;
}

out_blocked-fault_example : out_blocked 3 stale ≡ fault
out_blocked-fault_example =
    out_blocked-fault stale two_view [] two_sem [] (1 ∷ []) 3 stale-Asl stale-Asl.holds.0 tt
      (omega arith) (ground arith) (ground arith, (ground arith, tt)) (omega arith)

-- ===== src/Examples/Kernel.antt =====
-- The theorems on the nucleus at sample states.
use progetto_sistemi_operati.Base.{ℕ, ◌+◌, ◌<◌, ◌≤◌, ◌≡◌, ◌⊎◌, refl, none, some, [], ◌∷◌, arith}
use progetto_sistemi_operati.Memory.{p_list, ready_queue}
use progetto_sistemi_operati.Listx.View.{Rings, leave}
use progetto_sistemi_operati.Store.{Store, stop, ldst, panic}
use progetto_sistemi_operati.Pcb.Queue.{lists}
use progetto_sistemi_operati.Nucleus.Platform.{start_devreg}
use progetto_sistemi_operati.Nucleus.Initial.{Boot, main}
use progetto_sistemi_operati.Nucleus.Functions.{find_device_index}
use progetto_sistemi_operati.Nucleus.Devices.{find_device_index_bounds}
use progetto_sistemi_operati.Nucleus.Boot.{Booted, main_lem}
use progetto_sistemi_operati.Examples.Calls.{platform}
use progetto_sistemi_operati.Nucleus.Scheduler.{scheduler}
use progetto_sistemi_operati.Nucleus.Dispatch.{dispatched, scheduler-ready, scheduler-idle}
use progetto_sistemi_operati.Examples.{
  start, start_view, start-Rings, ready_links, ready_view, ready-Rings, store_with, sample_state,
  blank_links,
}

abbrev ready : Store
ready = store_with ready_links

scheduler-ready_example :
    (scheduler ready ≡ stop (ldst sample_state) (dispatched 3 ready))
    × Rings
        (dispatched 3 ready).links
        (leave ready_queue (p_list 3) (lists (2 ∷ 1 ∷ [])) ready_view)
scheduler-ready_example = scheduler-ready ready ready_view 3 (2 ∷ 1 ∷ []) ready-Rings (ground arith)

abbrev bare : Store
bare = store_with start

-- The scheduler stops on the deadlock of that state: four processes, none ready or soft-blocked.
deadlock : scheduler bare ≡ stop panic bare
deadlock = (scheduler-idle bare start_view start-Rings (ground arith)).2 (omega arith) refl

-- Where the first process starts, in a memory in which nothing has been prepared.
abbrev boot : Boot
boot = record {
  entry = 0x20001000;
  ram_top = 0x20080000;
  tlb_refill = 0x20002000;
  handler = 0x20003000;
}

main_lem_example :
    (t : Store) × (main platform boot (store_with blank_links) ≡ stop (ldst (t.pcb 19).state) t)
    × Booted platform boot (store_with blank_links) t
main_lem_example = main_lem platform boot (store_with blank_links)

find_device_index_bounds_example :
    (start_devreg ≤ 0x10000254
      → 0x10000254 < start_devreg + 0x288
      → (k : ℕ) × (find_device_index 0x10000254 ≡ some k) × (k < 49))
    × ((0x10000254 < start_devreg) ⊎ (start_devreg + 0x288 ≤ 0x10000254)
        → find_device_index 0x10000254 ≡ none)
find_device_index_bounds_example = find_device_index_bounds 0x10000254 (omega arith)

-- ===== src/Examples/Calls.antt =====
-- The theorems on the system calls at sample states.
use progetto_sistemi_operati.Base.{ℕ, ◌≡◌, ◌⊎◌, refl, true, false, some, List, [], ◌∷◌, ◌++◌, arith}
use progetto_sistemi_operati.Store.{Store}
use progetto_sistemi_operati.Asl.View.{Asl}
use progetto_sistemi_operati.Asl.Waiting.{waiting}
use progetto_sistemi_operati.Asl.Spec.{Became}
use progetto_sistemi_operati.Nucleus.Platform.{Platform, put_word, incr, decr}
use progetto_sistemi_operati.Nucleus.Scheduler.{scheduler}
use progetto_sistemi_operati.Nucleus.Syscalls.{
  arg, not_positive, passeren, verhogen, wait_on, yield, create_process, resume,
}
use progetto_sistemi_operati.Nucleus.Verhogen.{resumed, Woken, verhogen_lem}
use progetto_sistemi_operati.Nucleus.Passeren.{passeren_lem}
use progetto_sistemi_operati.Nucleus.Saved.{suspended}
use progetto_sistemi_operati.Memory.{ready_queue, p_list, pcb_free}
use progetto_sistemi_operati.Listx.View.{View, Rings, enter}
use progetto_sistemi_operati.Pcb.Queue.{lists}
use progetto_sistemi_operati.Nucleus.Yield.{yield_lem}
use progetto_sistemi_operati.Nucleus.Waiting.{soft_blocked, wait_on_lem}
use progetto_sistemi_operati.Examples.{
  start_view, ready_links, ready_view, ready-Rings, semd_links, semd_view, semd-Asl, store_with,
}
use progetto_sistemi_operati.Pcb.Tree.{Tree}
use progetto_sistemi_operati.Nucleus.Create.{Created, create_process_lem}
use progetto_sistemi_operati.Examples.Lists.{freed, freed-Rings}
use progetto_sistemi_operati.Examples.Semaphores.{one, one_view, one_sem, one-Asl}

abbrev pub platform : Platform
platform = record {
  gpr_len = 32;
  reg_a0 = 10;
  reg_a1 = 11;
  reg_a2 = 12;
  reg_a3 = 13;
  reg_sp = 2;
  cause_exccode_mask = 0x7C;
  cause_is_int = λ c. false;
  ack = 1;
  device_semaphore = 0x1000;
}

-- The register `a1` of the sample state holds 100, on which PCB 0 waits.
verhogen_lem_example :
    (waiting (arg 0 platform.reg_a1 one) (one_sem ∷ []) ≡ []
      → (t : Store) × (verhogen platform 0 one
          ≡ resumed 0 one (
              put_word
                (arg 0 platform.reg_a1 one)
                (incr (one.machine.word (arg 0 platform.reg_a1 one)))
                t))
        × Became one one_view (arg 0 platform.reg_a1 one) [] (one_sem ∷ []) t)
    × ((p : ℕ) (ps : List ℕ)
        → waiting (arg 0 platform.reg_a1 one) (one_sem ∷ []) ≡ p ∷ ps
        → (t : Store) × (verhogen platform 0 one ≡ resumed 0 one t)
          × Woken one one_view (arg 0 platform.reg_a1 one) p ps [] (one_sem ∷ []) t)
verhogen_lem_example =
    verhogen_lem platform 0 one one_view (1 ∷ []) (one_sem ∷ []) [] one-Asl (omega arith)
      (ground arith) (omega arith)

abbrev unused : List ℕ
unused = 0 ∷ 1 ∷ []

-- PCB 5 runs.
abbrev busy : Store
busy = record (store_with semd_links) { current_process = some 5 }

busy-Asl : Asl busy semd_view [] unused
busy-Asl = record {
  rings = semd-Asl.rings;
  active = semd-Asl.active;
  free = semd-Asl.free;
  holds = tt;
  unique = tt;
  idle = semd-Asl.idle;
}

passeren_lem_example :
    (not_positive (busy.machine.word (arg 0 platform.reg_a1 busy)) ≡ false
      → passeren platform 0 busy
        ≡ resumed 0 busy (
            put_word
              (arg 0 platform.reg_a1 busy)
              (decr (busy.machine.word (arg 0 platform.reg_a1 busy)))
              busy))
    × (not_positive (busy.machine.word (arg 0 platform.reg_a1 busy)) ≡ true
        → (t : Store) × (passeren platform 0 busy ≡ scheduler (suspended platform 0 5 t))
          × (Became busy semd_view
                (arg 0 platform.reg_a1 busy)
                (waiting (arg 0 platform.reg_a1 busy) [] ++ 5 ∷ [])
                []
                t
              ⊎ ((t ≡ busy) × (unused ≡ []) × (waiting (arg 0 platform.reg_a1 busy) [] ≡ []))))
passeren_lem_example =
    passeren_lem platform 0 busy semd_view unused [] 5 busy-Asl (omega arith) refl (ground arith)

wait_on_lem_example :
    (t : Store) × (wait_on platform 0 0x1000 busy ≡ scheduler (soft_blocked platform 0 5 t))
    × ((not_positive (busy.machine.word 0x1000) ≡ true)
          × (Became busy semd_view 0x1000 (waiting 0x1000 [] ++ 5 ∷ []) [] t
              ⊎ ((t ≡ busy) × (unused ≡ []) × (waiting 0x1000 [] ≡ [])))
        ⊎ ((not_positive (busy.machine.word 0x1000) ≡ false)
            × (t ≡ put_word 0x1000 (decr (busy.machine.word 0x1000)) busy)
            × (t.links ≡ busy.links)))
wait_on_lem_example =
    wait_on_lem platform 0 0x1000 busy semd_view unused [] 5 busy-Asl (omega arith) refl
      (ground arith)

-- PCB 5 runs, and the PCBs 3, 2 and 1 are ready.
abbrev turn : Store
turn = record (store_with ready_links) { current_process = some 5 }

yield_lem_example :
    (t : Store) × (yield platform 0 turn ≡ scheduler t)
    × (t ≡ record (suspended platform 0 5 turn) { links = t.links })
    × Rings t.links
        (enter ready_queue (p_list 5) (lists (3 ∷ 2 ∷ 1 ∷ []) ++ p_list 5 ∷ []) ready_view)
yield_lem_example =
    yield_lem platform 0 turn ready_view 5 (3 ∷ 2 ∷ 1 ∷ []) ready-Rings (ground arith) refl
      (ground arith)

-- PCB 0 runs, and PCB 4 is free.
abbrev lone : Store
lone = record freed { current_process = some 0 }

abbrev lone_view : View
lone_view = enter pcb_free (p_list 4) (p_list 4 ∷ []) start_view

lone-Tree : Tree lone lone_view
lone-Tree = record { rings = freed-Rings; parent = λ c. ground arith }

create_process_lem_example :
    (t : Store) × (create_process platform 0 lone ≡ resume 0 t)
    × Created platform 0 lone 4 0 [] [] [] t
create_process_lem_example =
    create_process_lem platform 0 lone lone_view 4 0 [] [] [] lone-Tree (ground arith)
      (λ i o. ground arith) refl refl (omega arith) (ground arith) (ground arith) (omega arith)
      (omega arith) (omega arith) (omega arith)

-- ===== src/Examples.antt =====
-- Concrete states for the examples: two descriptors, four PCBs, a ready queue.
pub mod Lists
pub mod Semaphores
pub mod Kernel
pub mod Buffers
pub mod Calls
pub mod Paging
pub mod Interrupts
pub mod Ends
pub mod Reading
pub mod Programs
pub mod Steps
use progetto_sistemi_operati.Base.{ℕ, ◌+◌, ◌≡◌, refl, Option, none, some, List, [], ◌∷◌, arith, ◌≢◌}
use progetto_sistemi_operati.Memory.{
  Head, Item, Addr, null, of_head, of_item, pcb_free, ready_queue, semd_free, semd_active, s_procq,
  p_child, p_list, s_link, Links,
}
use progetto_sistemi_operati.Listx.{init_list_head, list_add, list_add_tail}
use progetto_sistemi_operati.Listx.View.{View, Rings, enter}
use progetto_sistemi_operati.Listx.Init.{create, init_head-Rings}
use progetto_sistemi_operati.Listx.Queue.{list_add-Rings, list_add_tail-Rings}
use progetto_sistemi_operati.Store.{Store, CpuState, Pcb, Context, Support, Machine}
use progetto_sistemi_operati.Asl.View.{Asl}
use progetto_sistemi_operati.Pcb.Tree.{Tree}

abbrev pub blank_links : Links
blank_links = record { next = λ a. null; prev = λ a. null }

abbrev pub blank_view : View
blank_view = record { items = λ h. none; owner = λ i. none }

pub blank-Rings : Rings blank_links blank_view
blank-Rings = record {
  ring = λ h xs e. absurd (cc);
  distinct = λ h xs e. absurd (cc);
  owned = λ h xs e. absurd (cc);
  listed = λ i h e. absurd (cc);
}

-- The sentinels that the examples use, in the order in which they are initialised.
abbrev pub heads : List Head
heads =
    pcb_free
    ∷ ready_queue
    ∷ semd_active
    ∷ semd_free
    ∷ s_procq 0
    ∷ s_procq 1
    ∷ p_child 0
    ∷ p_child 1
    ∷ p_child 2
    ∷ p_child 3
    ∷ []

abbrev pub init_all : List Head → Links → Links
init_all [] m = m
init_all (h ∷ hs) m = init_list_head (of_head h) (init_all hs m)

abbrev pub create_all : List Head → View → View
create_all [] v = v
create_all (h ∷ hs) v = create h (create_all hs v)

owner-create_all : (hs : List Head) (v : View) (i : Item) → (create_all hs v).owner i ≡ v.owner i
owner-create_all [] v i = refl
owner-create_all (h ∷ hs) v i = owner-create_all hs v i

init_all-Rings : (hs : List Head) → Rings (init_all hs blank_links) (create_all hs blank_view)
init_all-Rings [] = blank-Rings
init_all-Rings (h ∷ hs) =
    init_head-Rings _ _ h (init_all-Rings hs)
      (λ i o. ground (arith, owner-create_all hs blank_view i))

pub start : Links
start = init_all heads blank_links

abbrev pub start_view : View
start_view = create_all heads blank_view

pub start-Rings : Rings start start_view
unfolding start
start-Rings = init_all-Rings heads

-- PCB `p` has pid `p + 1` and priority `p`.
abbrev pub sample_state : CpuState
sample_state = record {
  entry_hi = 1;
  cause = 2;
  status = 3;
  pc_epc = 4;
  mie = 5;
  gpr = λ k. k + 89;
}

abbrev pub sample_pcb : ℕ → Pcb
sample_pcb p = record {
  parent = none;
  state = sample_state;
  time = 0;
  sem_add = 0;
  support_struct = 0;
  prio = p;
  pid = p + 1;
}

abbrev pub sample_machine : Machine
sample_machine = record {
  prid = 0;
  cause = 0;
  status = 0;
  mie = 0;
  clock = 0;
  timescale = 1;
  timer = 0;
  interval = 0;
  vector = record {
    tlb_refill_handler = 0;
    tlb_refill_stack_ptr = 0;
    exception_handler = 0;
    exception_stack_ptr = 0;
  };
  word = λ a. 0;
  state_at = λ a. sample_state;
}

abbrev pub store_with : Links → Store
store_with m = record {
  links = m;
  pcb = sample_pcb;
  s_key = λ d. 0;
  next_pid = 7;
  process_count = 4;
  soft_block_count = 0;
  current_process = none;
  start_time = λ c. 0;
  support = λ a. record {
    except_state = λ i. sample_state;
    except_context = λ i. record { stack_ptr = 0; status = 0; pc = 0 };
  };
  machine = sample_machine;
}

-- The descriptors 0 and 1 are free.
pub semd_links : Links
semd_links =
    list_add (of_item (s_link 0)) (of_head semd_free)
      (list_add (of_item (s_link 1)) (of_head semd_free) start)

abbrev pub semd_view : View
semd_view =
    enter semd_free (s_link 0) (s_link 0 ∷ s_link 1 ∷ [])
      (enter semd_free (s_link 1) (s_link 1 ∷ []) start_view)

pub semd-Asl : Asl (store_with semd_links) semd_view [] (0 ∷ 1 ∷ [])
unfolding semd_links
semd-Asl = record {
  rings =
      list_add-Rings _ _ semd_free (s_link 0) (s_link 1 ∷ [])
        (list_add-Rings start start_view semd_free (s_link 1) [] start-Rings (ground arith)
          (ground arith))
        (ground arith) (ground arith);
  active = ground arith;
  free = ground arith;
  holds = tt;
  unique = tt;
  idle = (ground arith, (ground arith, tt));
}

-- The PCBs 3, 2 and 1 wait in the ready queue, the first in front.
pub ready_links : Links
ready_links = list_add_tail (of_item (p_list 1)) (of_head ready_queue) (
    list_add_tail (of_item (p_list 2)) (of_head ready_queue)
      (list_add_tail (of_item (p_list 3)) (of_head ready_queue) start))

abbrev pub ready_view : View
ready_view = enter ready_queue (p_list 1) (p_list 3 ∷ p_list 2 ∷ p_list 1 ∷ []) (
    enter ready_queue (p_list 2) (p_list 3 ∷ p_list 2 ∷ [])
      (enter ready_queue (p_list 3) (p_list 3 ∷ []) start_view))

pub ready-Rings : Rings ready_links ready_view
unfolding ready_links
ready-Rings =
    list_add_tail-Rings _ _ ready_queue (p_list 1) (p_list 3 ∷ p_list 2 ∷ [])
      (list_add_tail-Rings _ _ ready_queue (p_list 2) (p_list 3 ∷ [])
        (list_add_tail-Rings start start_view ready_queue (p_list 3) [] start-Rings (ground arith)
          (ground arith))
        (ground arith) (ground arith))
      (ground arith) (ground arith)

pub start-Tree : Tree (store_with start) start_view
start-Tree = record { rings = start-Rings; parent = λ c. ground arith }

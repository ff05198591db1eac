-- ===== src/Examples/Buffers.antt =====
-- The theorems on the log buffer, the swap pool and the support structures at sample states.
use progetto_sistemi_operati.Base.{
  ℕ, ◌+◌, ◌*◌, ◌%◌, ◌<◌, ◌≤◌, ◌≡◌, ◌≢◌, ◌⊎◌, none, some, [], ◌∷◌, arith,
}
use progetto_sistemi_operati.Memory.{support_free, s_list, of_head}
use progetto_sistemi_operati.Listx.{init_list_head}
use progetto_sistemi_operati.Listx.View.{View, Rings}
use progetto_sistemi_operati.Listx.Init.{create, init_head-Rings}
use progetto_sistemi_operati.Store.{Store, ok, ◌>>=◌}
use progetto_sistemi_operati.Klog.{Klog, klog_print, klog_print_dec, digit}
use progetto_sistemi_operati.Klog.Bounds.{InBounds, IsSafe, klog_print-IsSafe}
use progetto_sistemi_operati.Klog.Digits.{typed, klog_print_dec-order}
use progetto_sistemi_operati.Swap.{
  Pool, Frame, pool_size, no_page, free_swap_frames, page_replacement, find_page_index, UserSupport,
  Handlers, init_support_structure,
}
use progetto_sistemi_operati.Swap.Frames.{IsFree, free_swap_frames_lem, page_replacement_lem}
use progetto_sistemi_operati.Swap.Pages.{find_page_index-init_support_structure}
use progetto_sistemi_operati.Supports.{
  deallocate_support, allocate_support, allocate_support-deallocate_support,
}
use progetto_sistemi_operati.Examples.{start, start_view, start-Rings, store_with}

-- The last place of the last line.
abbrev log : Klog
log = record { line_index = 63; char_index = 41; buffer = λ l c. 0 }

log-InBounds : InBounds log
log-InBounds = record { line = omega arith; char = omega arith }

klog_print-IsSafe_example : IsSafe (klog_print (72 ∷ 10 ∷ 73 ∷ []) log)
klog_print-IsSafe_example = klog_print-IsSafe (72 ∷ 10 ∷ 73 ∷ []) log log-InBounds

abbrev blank_log : Klog
blank_log = record { line_index = 0; char_index = 0; buffer = λ l c. 0 }

klog_print_dec-order_example :
    (1 ≤ 4
      → klog_print_dec (10 * 4 + 2) blank_log ≡ some (typed (digit 4) (typed (digit 2) blank_log)))
    × (klog_print_dec 2 blank_log ≡ some (typed (digit 2) (typed (digit 0) blank_log)))
klog_print_dec-order_example =
    klog_print_dec-order 4 2 blank_log (omega arith) (omega arith) (omega arith) (omega arith)

-- Every frame holds a page of process 2.
abbrev used : Frame
used = record { sw_asid = 2; sw_page_no = 0; sw_pte = some (2, 0) }

abbrev pub full : Pool
full = record { frame = λ c. used; frame_index = 0 }

free_swap_frames_lem_example :
    ((full.frame 3).sw_asid ≡ 2 → (free_swap_frames 2 full).frame 3 ≡ no_page)
    × ((full.frame 3).sw_asid ≢ 2 → (free_swap_frames 2 full).frame 3 ≡ full.frame 3)
    × ((free_swap_frames 2 full).frame_index ≡ full.frame_index)
free_swap_frames_lem_example = free_swap_frames_lem 2 full 3 (omega arith)

page_replacement_lem_example :
    ((i : ℕ) × (page_replacement full ≡ some (i, full))
      × (i < pool_size)
      × IsFree full i
      × ((j : ℕ) → j < i → ¬ IsFree full j))
    ⊎ ((i : ℕ) × (t : Pool) × (page_replacement full ≡ some (i, t))
        × (i < pool_size)
        × (i ≡ (full.frame_index + 1) % pool_size)
        × (t.frame_index ≡ full.frame_index + 1)
        × ((c : ℕ) → t.frame c ≡ full.frame c)
        × ((j : ℕ) → j < pool_size → ¬ IsFree full j))
page_replacement_lem_example = page_replacement_lem full (omega arith)

abbrev pub handlers : Handlers
handlers = record {
  pager = 0x1000;
  general_exception_handler = 0x2000;
  stack_tlb = 0x3000;
  stack_gen = 0x4000;
}

abbrev pub fresh : UserSupport
fresh = record {
  asid = 0;
  pte_entry_hi = λ i. 0;
  pte_entry_lo = λ i. 0;
  except_context = λ i. record { stack_ptr = 0; status = 0; pc = 0 };
}

find_page_index-init_support_structure_example :
    (find_page_index ((init_support_structure handlers 3 fresh).pte_entry_hi 31) ≡ 31)
    × ((init_support_structure handlers 3 fresh).pte_entry_lo 31 ≡ 0x400)
find_page_index-init_support_structure_example =
    find_page_index-init_support_structure handlers 3 fresh 31 (omega arith) (omega arith)

abbrev pub no_support : Store
no_support = store_with (init_list_head (of_head support_free) start)

abbrev pub no_support_view : View
no_support_view = create support_free start_view

pub no_support-Rings : Rings no_support.links no_support_view
no_support-Rings = init_head-Rings start start_view support_free start-Rings (λ i o. ground arith)

allocate_support-deallocate_support_example :
    (t : Store) × (w : View) × ((deallocate_support 5 >>= λ _. allocate_support) no_support
      ≡ ok (some 5) t)
    × Rings t.links w
    × (w.items support_free ≡ some [])
    × (w.owner (s_list 5) ≡ none)
    × (t.pcb ≡ no_support.pcb)
allocate_support-deallocate_support_example =
    allocate_support-deallocate_support no_support no_support_view 5 [] no_support-Rings
      (ground arith) (ground arith)

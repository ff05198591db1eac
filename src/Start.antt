-- ===== src/Start.antt =====
-- `test` of phase3/initProc.c, the first process, and `uTLB_RefillHandler` of phase2/exceptions.c.
pub mod Shell
use progetto_sistemi_operati.Base.{
  ℕ, ◌+◌, ◌*◌, ◌%◌, ◌^◌, none, some, ◌==◌, if◌then◌else◌, ltb, for_range,
}
use progetto_sistemi_operati.Memory.{of_head, support_free}
use progetto_sistemi_operati.Listx.{init_list_head, list_add}
use progetto_sistemi_operati.Store.{panic, ldst, on_links}
use progetto_sistemi_operati.Nucleus.Platform.{bios_data_page}
use progetto_sistemi_operati.Supports.{list_of_support, allocate_support}
use progetto_sistemi_operati.Swap.{
  minus_one, init_swap_structs, find_page_index, init_support_structure, init_u_proc_state,
}
use progetto_sistemi_operati.Process.{ret, fault, modify, ask, call, exit, ◌>>=◌, ◌>>◌}
use progetto_sistemi_operati.World.{
  World, Layout, passeren, master, create_process, term_process, set_entry_hi, set_entry_lo, tlbwr,
  Code, lift, on_pool, on_user, store_word,
}
use progetto_sistemi_operati.Pager.{shell_asid, hi_of, lo_of}

abbrev pub uproc_max : ℕ
uproc_max = 8

-- One round of the loop over the support structures.
unfoldable pub free_support : Layout → ℕ → World → World
free_support y i w =
    let w1 = store_word ((y.flash_semaphore + 4 * i) % 2 ^ 32) 1 w in
    record w1 { store = on_links (list_add (list_of_support i) (of_head support_free)) w1.store }

-- The swap pool is emptied, and every support structure is free.
unfoldable pub init_tables : Layout → World → World
init_tables y w =
    let w1 = on_pool init_swap_structs w in
    for_range uproc_max 0 (free_support y)
      (record w1 { store = on_links (init_list_head (of_head support_free)) w1.store })

-- The shell is created, and the first process waits for its end.
unfoldable pub start_shell : Layout → ℕ → Code (Unit {0})
start_shell y u = do
  modify (on_user u (init_support_structure y.handlers shell_asid))
  let state = init_u_proc_state y.gpr_len y.reg_sp shell_asid y.on_stack
  r ← ask (create_process state 0 (y.support_addr u))
  λ w. if r == minus_one then exit panic w else ret tt w
  call (passeren master)
  call term_process

unfoldable pub test : Layout → Code (Unit {0})
test y = do
  modify (init_tables y)
  u ← lift allocate_support
  elim u [ none ↦ exit panic | some i ↦ start_shell y i ]

-- The entry of the page that was not in the TLB is written to it, whatever the entry says.
unfoldable pub refill : Layout → ℕ → ℕ → Code (Unit {0})
refill y i p = do
  λ w. (call (set_entry_hi (hi_of i p w)) >> call (set_entry_lo (lo_of i p w))) w
  call tlbwr
  λ w. exit (ldst (w.store.machine.state_at bios_data_page)) w

-- The structure of the running process, which has one.
unfoldable pub utlb_refill_handler : Layout → Code (Unit {0})
utlb_refill_handler y w =
    let p = find_page_index (w.store.machine.state_at bios_data_page).entry_hi in
    elim (w.store.current_process) [
      | none ↦ fault
      | some c ↦
          let sup = (w.store.pcb c).support_struct in
          if sup == 0 then fault else if ltb p 32 then refill y (y.support_index sup) p w else fault
    ]

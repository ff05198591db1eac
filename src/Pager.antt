-- ===== src/Pager.antt =====
-- The pager of phase3/vmSupport.c, and the end of a process of phase3/sysSupport.c, which it calls.
pub mod Contract
pub mod Ends
pub mod Transfers
pub mod Faults
pub mod Serves
pub mod Causes
use Prim.Native.Nat.{bit_and, bit_or}
use progetto_sistemi_operati.Base.{
  ℕ, ◌+◌, ◌-◌, ◌*◌, ◌/◌, ◌%◌, ◌^◌, Bool, true, false, Option, none, some, ◌==◌, if◌then◌else◌, ltb,
}
use progetto_sistemi_operati.Store.{ldst}
use progetto_sistemi_operati.Nucleus.Platform.{getexeccode}
use progetto_sistemi_operati.Supports.{deallocate_support}
use progetto_sistemi_operati.Swap.{
  Frame, Pool, UserSupport, minus_one, put_frame, page_replacement, free_swap_frames,
  find_page_index,
}
use progetto_sistemi_operati.Process.{
  Proc, ret, fault, pure, gets, modify, ask, call, exit, ◌>>=◌, ◌>>◌,
}
use progetto_sistemi_operati.World.{
  World, Layout, Sem, swap_pool, master, shell, Op, passeren, verhogen, do_io, get_support_ptr,
  term_process, get_index, tlbp, tlbwi, tlbwr, set_entry_hi, set_entry_lo, Code, lift, on_pool,
  on_user, store_word, except_state, interrupts_off, interrupts_on,
}

abbrev pub tlbinvldmod : ℕ
tlbinvldmod = 1

abbrev pub shell_asid : ℕ
shell_asid = 1

abbrev pub present_flag : ℕ
present_flag = 0x80000000

abbrev pub flash_read : ℕ
flash_read = 2

abbrev pub flash_write : ℕ
flash_write = 3

abbrev pub set_asid : ℕ → ℕ → World → World
set_asid i asid = on_user i (λ x. record x { asid = asid })

abbrev pub waker : ℕ → Sem
waker asid = if asid == shell_asid then master else shell

-- `TerminateSys`; `programTrapHandler` does nothing else.
unfoldable pub terminate_sys : Layout → ℕ → Code (Unit {0})
terminate_sys y asid = do
  sup ← ask get_support_ptr
  call (passeren swap_pool)
  modify (on_pool (free_swap_frames asid))
  call (verhogen swap_pool)
  λ w.
      if sup == 0
      then fault
      else (do
        modify (set_asid (y.support_index sup) 0)
        lift (deallocate_support (y.support_index sup))
        call (verhogen (waker asid))
        call term_process)
          w

unfoldable pub program_trap : Layout → ℕ → Code (Unit {0})
program_trap y asid = terminate_sys y asid

-- The address of `swapFrames[c]`, and of a register of the flash device of a process.
abbrev pub frame_addr : Layout → ℕ → ℕ
frame_addr y c = (y.swap_frames + c * 4096) % 2 ^ 32

abbrev pub flash_reg : Layout → ℕ → ℕ
flash_reg y asid = y.dev_reg_addr 18 ((asid + 2 ^ 32 - 1) % 2 ^ 32)

-- The transfer of a frame: the address of the frame goes to the register `data0`, at offset 8, and
-- the command to the register at offset 4. At the status `bad` the process ends.
unfoldable pub transfer : Layout → ℕ → ℕ → ℕ → ℕ → ℕ → Code (Unit {0})
transfer y asid c page command bad = do
  modify (store_word (flash_reg y asid + 8) (frame_addr y c))
  status ← ask (do_io (flash_reg y asid + 4) (bit_or ((page * 2 ^ 8) % 2 ^ 32) command))
  λ w.
      if bit_and status 0xff == bad
      then (call (verhogen swap_pool) >> program_trap y asid) w
      else ret tt w

-- The asid in an entry of a page table.
abbrev pub asid_of : ℕ → ℕ
asid_of entry_hi = bit_and entry_hi 0x00000fff / 2 ^ 6

unfoldable pub read_from_device : Layout → ℕ → ℕ → ℕ → Code (Unit {0})
read_from_device y i p c = do
  asid ← gets (λ w. asid_of ((w.user i).pte_entry_hi p))
  transfer y asid c p flash_read 5

-- `ptu->pte_entryLO = lo` of an entry of a page table.
abbrev pub set_lo : ℕ → ℕ → ℕ → World → World
set_lo i p lo =
    on_user i (λ x. record x { pte_entry_lo = λ k. if p == k then lo else x.pte_entry_lo k })

abbrev pub hi_of : ℕ → ℕ → World → ℕ
hi_of i p w = (w.user i).pte_entry_hi p

abbrev pub lo_of : ℕ → ℕ → World → ℕ
lo_of i p w = (w.user i).pte_entry_lo p

-- `ptu->pte_entryLO & VALIDOFF`
abbrev pub invalid : ℕ → ℕ
invalid lo = bit_and lo 0xFFFFFDFF

-- What follows `TLBP`: an entry that the TLB holds is written anew.
unfoldable pub update_cached : ℕ → ℕ → Code (Unit {0})
update_cached i p = do
  index ← ask get_index
  λ w.
      if bit_and index present_flag == 0
      then (call (set_entry_lo (lo_of i p w)) >> call tlbwi) w
      else ret tt w

-- The entry of the page that a frame holds is made invalid, in the TLB too, as one atomic action.
unfoldable pub unmap : ℕ → ℕ → Code (Unit {0})
unmap i p = do
  modify (λ w. set_lo i p (invalid (lo_of i p w)) w)
  hi ← gets (hi_of i p)
  call (set_entry_hi hi)
  call tlbp
  update_cached i p
  interrupts_on

unfoldable pub unmap_pte : Option (ℕ × ℕ) → Code (Unit {0})
unmap_pte none = λ w. fault
unmap_pte (some (i, p)) = unmap i p

unfoldable pub write_to_device : Layout → ℕ → Code (Unit {0})
write_to_device y c = do
  interrupts_off
  pte ← gets (λ w. (w.pool.frame c).sw_pte)
  unmap_pte pte
  frame ← gets (λ w. w.pool.frame c)
  transfer y frame.sw_asid c frame.sw_page_no flash_write 4

-- `pageReplacement` on the pool in memory.
unfoldable pub take_frame : Code ℕ
take_frame w = elim (page_replacement w.pool) [
  | none ↦ fault
  | some (c, pool) ↦ ret c (record w { pool = pool })
]

-- The low word of an entry that is valid and stands for a frame.
abbrev pub valid_at : ℕ → ℕ → ℕ
valid_at addr lo = bit_or (bit_and (bit_or lo 0x200) 0xFFF) (bit_and addr 0xFFFFF000)

-- What follows `TLBP` for the new entry: it is written over the one that the TLB holds, or anywhere.
unfoldable pub enter_tlb : ℕ → ℕ → Code (Unit {0})
enter_tlb i p = do
  index ← ask get_index
  λ w. call (set_entry_lo (lo_of i p w)) w
  call (if bit_and index present_flag == 0 then tlbwi else tlbwr)

-- The frame `c` is entered in the pool and the page in the page table, as one atomic action.
unfoldable pub map_page : Layout → ℕ → ℕ → ℕ → Code (Unit {0})
map_page y i p c = do
  interrupts_off
  modify (λ w.
      on_pool
        (put_frame c (record { sw_asid = (w.user i).asid; sw_page_no = p; sw_pte = some (i, p) }))
        w)
  modify (λ w. set_lo i p (valid_at (frame_addr y c) (lo_of i p w)) w)
  hi ← gets (hi_of i p)
  call (set_entry_hi hi)
  call tlbp
  enter_tlb i p
  interrupts_on

-- A frame is chosen, emptied if it is in use, and filled with the page `p` of the structure `i`.
unfoldable pub page_in : Layout → ℕ → ℕ → Code (Unit {0})
page_in y i p = do
  c ← take_frame
  λ w. if (w.pool.frame c).sw_asid == minus_one then ret tt w else write_to_device y c w
  read_from_device y i p c
  map_page y i p c

-- The page table has 32 entries.
unfoldable pub serve_fault : Layout → ℕ → Code (Unit {0})
serve_fault y sup = do
  call (passeren swap_pool)
  p ← gets (λ w. find_page_index (except_state sup 0 w).entry_hi)
  λ w. if ltb p 32 then page_in y (y.support_index sup) p w else fault
  call (verhogen swap_pool)
  λ w. exit (ldst (except_state sup 0 w)) w

-- A write to a page that is not writable ends the process. With no support structure the pager does
-- nothing.
unfoldable pub pager_for : Layout → ℕ → Code (Unit {0})
pager_for y sup w =
    if bit_and (except_state sup 0 w).cause getexeccode == tlbinvldmod
    then program_trap y (w.user (y.support_index sup)).asid w
    else serve_fault y sup w

unfoldable pub pager : Layout → Code (Unit {0})
pager y = do sup ← ask get_support_ptr; λ w. if sup == 0 then ret tt w else pager_for y sup w

-- ===== src/Swap.antt =====
-- The swap pool of phase3/vmSupport.c and the page table that phase3/initProc.c gives a process.
-- `sw_asid` and `sw_pageNo` are 32-bit patterns, so that -1 is `minus_one`; a `sw_pte` names a
-- structure of `supportPool` and a place in its page table.
pub mod Frames
pub mod Pages
use progetto_sistemi_operati.Base.{
  ℕ, zero, suc, ◌+◌, ◌-◌, ◌*◌, ◌/◌, ◌%◌, ◌^◌, Option, none, some, ◌==◌, if◌then◌else◌, ltb,
  for_range,
}
use progetto_sistemi_operati.Store.{CpuState, Context}
use progetto_sistemi_operati.Nucleus.Platform.{set_reg}

abbrev pub pool_size : ℕ
pool_size = 16

abbrev pub minus_one : ℕ
minus_one = 0xFFFFFFFF

pub record Frame : Type 0 where
  pub sw_asid : ℕ
  pub sw_page_no : ℕ
  pub sw_pte : Option (ℕ × ℕ)

-- `swap_pool` and `frameIndex`.
pub record Pool : Type 0 where
  pub frame : ℕ → Frame
  pub frame_index : ℕ

abbrev pub no_page : Frame
no_page = record { sw_asid = minus_one; sw_page_no = minus_one; sw_pte = none }

abbrev pub put_frame : ℕ → Frame → Pool → Pool
put_frame c x s = record s { frame = λ d. if c == d then x else s.frame d }

unfoldable pub init_swap_structs : Pool → Pool
init_swap_structs = for_range pool_size 0 (λ i. put_frame i no_page)

-- The loop of `pageReplacement` over the frames from `c`.
unfoldable pub find_free : ℕ → ℕ → Pool → Option ℕ
find_free zero c s = none
find_free (suc n) c s =
    let rest = find_free n (c + 1) s in if (s.frame c).sw_asid == minus_one then some c else rest

-- The frame to fill next. `none` is the overflow of the signed `frameIndex`.
unfoldable pub page_replacement : Pool → Option (ℕ × Pool)
page_replacement s = elim (find_free pool_size 0 s) [
  | some c ↦ some (c, s)
  | none ↦
      let i = s.frame_index + 1 in
      if ltb i (2 ^ 31) then some (i % pool_size, record s { frame_index = i }) else none
]

unfoldable pub free_frame : ℕ → ℕ → Pool → Pool
free_frame asid c s = if (s.frame c).sw_asid == asid then put_frame c no_page s else s

unfoldable pub free_swap_frames : ℕ → Pool → Pool
free_swap_frames asid = for_range pool_size 0 (free_frame asid)

-- The result is an `int`, here its 32-bit pattern.
unfoldable pub find_page_index : ℕ → ℕ
find_page_index entry_hi =
    let vpn = entry_hi / 2 ^ 12 in if vpn == 0xBFFFF then 31 else (vpn + 2 ^ 32 - 0x80000) % 2 ^ 32

-- `support_t`, as far as phase3/initProc.c writes it.
pub record UserSupport : Type 0 where
  pub asid : ℕ
  pub pte_entry_hi : ℕ → ℕ
  pub pte_entry_lo : ℕ → ℕ
  pub except_context : ℕ → Context

abbrev pub put_pte : ℕ → ℕ → ℕ → UserSupport → UserSupport
put_pte i hi lo x = record x {
  pte_entry_hi = λ k. if i == k then hi else x.pte_entry_hi k;
  pte_entry_lo = λ k. if i == k then lo else x.pte_entry_lo k;
}

-- `(page << VPNSHIFT) | (asid << ASIDSHIFT)` in 32 bits, for an asid of 6 bits at most.
abbrev pub entry_hi_of : ℕ → ℕ → ℕ
entry_hi_of page asid = (page * 2 ^ 12) % 2 ^ 32 + asid * 2 ^ 6

-- The addresses that the linker gives `pager` and `generalExceptionHandler`, and the tops of the
-- two stacks of the structure.
pub record Handlers : Type 0 where
  pub pager : ℕ
  pub general_exception_handler : ℕ
  pub stack_tlb : ℕ
  pub stack_gen : ℕ

abbrev pub handler_status : ℕ
handler_status = 0x0800FF04

unfoldable pub init_support_structure : Handlers → ℕ → UserSupport → UserSupport
init_support_structure a asid x =
    let x1 =
      for_range 31 0 (λ i. put_pte i (entry_hi_of (0x80000 + i) asid) 0x400)
        (record x { asid = asid }) in
    let x2 = put_pte 31 (entry_hi_of 0xBFFFF asid) 0x400 x1 in
    let pgfault : Context = record {
      stack_ptr = a.stack_tlb;
      status = handler_status;
      pc = a.pager;
    } in
    let general : Context = record {
      stack_ptr = a.stack_gen;
      status = handler_status;
      pc = a.general_exception_handler;
    } in
    record x2 {
      except_context =
          λ k. if k == 0 then pgfault else (if k == 1 then general else x2.except_context k);
    }

unfoldable pub init_u_proc_state : ℕ → ℕ → ℕ → CpuState → CpuState
init_u_proc_state gpr_len reg_sp asid x =
    let x1 = record x { gpr = for_range gpr_len 0 (λ i g k. if i == k then 0 else g k) x.gpr } in
    let x2 = set_reg reg_sp 0xC0000000 (record x1 { pc_epc = 0x800000B0 }) in
    record x2 { status = 0x0800FF0C; mie = 0xFFFFFFFF; entry_hi = asid * 2 ^ 6 }

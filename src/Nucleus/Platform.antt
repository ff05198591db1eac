-- ===== src/Nucleus/Platform.antt =====
-- What the nucleus takes from uriscv's headers and from the linker, and the constants of
-- headers/const.h that phase2 uses.
use progetto_sistemi_operati.Base.{
  ℕ, ◌+◌, ◌-◌, ◌*◌, ◌%◌, ◌^◌, Bool, Option, none, some, ◌==◌, if◌then◌else◌,
}
use progetto_sistemi_operati.Store.{Store, CpuState, Machine, Cmd, ldst, fault, ok, stop}

-- The length of `gpr` and the places in it of the named registers, the layout of CAUSE, the
-- command that acknowledges a device's interrupt, and the address of `deviceSemaphore`.
pub record Platform : Type 0 where
  pub gpr_len : ℕ
  pub reg_a0 : ℕ
  pub reg_a1 : ℕ
  pub reg_a2 : ℕ
  pub reg_a3 : ℕ
  pub reg_sp : ℕ
  pub cause_exccode_mask : ℕ
  pub cause_is_int : ℕ → Bool
  pub ack : ℕ
  pub device_semaphore : ℕ

abbrev pub word_mod : ℕ
word_mod = 2 ^ 32

-- `-k` as a 32-bit pattern.
abbrev pub minus : ℕ → ℕ
minus k = 2 ^ 32 - k

abbrev pub bios_data_page : ℕ
bios_data_page = 0x0FFFF000

abbrev pub pseudo_index : ℕ
pseudo_index = 48

abbrev pub ncpu : ℕ
ncpu = 8

abbrev pub time_slice : ℕ
time_slice = 5000

abbrev pub psecond : ℕ
psecond = 100000

abbrev pub start_devreg : ℕ
start_devreg = 0x10000054

abbrev pub mstatus_mie_mask : ℕ
mstatus_mie_mask = 0x8

abbrev pub mstatus_mpp_mask : ℕ
mstatus_mpp_mask = 0x1800

abbrev pub getexeccode : ℕ
getexeccode = 0x7C

-- `GET_EXCEPTION_STATE_PTR`
abbrev pub exception_state_ptr : ℕ → ℕ
exception_state_ptr i = bios_data_page + i * 148

-- `&deviceSemaphore[k]` for an index of 32 bits.
abbrev pub device_sem : Platform → ℕ → ℕ
device_sem u k = (u.device_semaphore + 4 * k) % 2 ^ 32

-- Writes to a register, to the state at an address, and to a word of memory.
abbrev pub set_reg : ℕ → ℕ → CpuState → CpuState
set_reg r a x = record x { gpr = λ k. if r == k then a else x.gpr k }

abbrev pub on_machine : (Machine → Machine) → Store → Store
on_machine f s = record s { machine = f s.machine }

abbrev pub put_state : ℕ → CpuState → Store → Store
put_state a x = on_machine (λ m. record m { state_at = λ b. if a == b then x else m.state_at b })

abbrev pub put_word : ℕ → ℕ → Store → Store
put_word a x = on_machine (λ m. record m { word = λ b. if a == b then x else m.word b })

-- `state->pc_epc += 4`
abbrev pub advance : CpuState → CpuState
advance x = record x { pc_epc = (x.pc_epc + 4) % 2 ^ 32 }

abbrev pub on_state : ℕ → (CpuState → CpuState) → Store → Store
on_state a f s = put_state a (f (s.machine.state_at a)) s

-- `LDST(state)`
abbrev pub load_state : {A : Type 0} → ℕ → Cmd A
load_state a s = stop (ldst (s.machine.state_at a)) s

-- `currentProcess`, where it is dereferenced.
unfoldable pub current : Cmd ℕ
current s = elim s.current_process [ none ↦ fault | some p ↦ ok p s ]

abbrev pub put_current : Option ℕ → Store → Store
put_current c s = record s { current_process = c }

-- `++` and `--` on an unsigned counter, and on a word.
abbrev pub incr : ℕ → ℕ
incr n = (n + 1) % 2 ^ 32

abbrev pub decr : ℕ → ℕ
decr n = (n + 2 ^ 32 - 1) % 2 ^ 32

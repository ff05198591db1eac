-- ===== src/World.antt =====
-- The memory of the support level: the tables of phase3/initProc.c and phase3/vmSupport.c beside the
-- kernel's, and what its code asks of the machine.
use Prim.Native.Nat.{bit_and, bit_or}
use progetto_sistemi_operati.Base.{ℕ, ◌==◌, if◌then◌else◌}
use progetto_sistemi_operati.Store.{Store, CpuState, Run, Cmd}
use progetto_sistemi_operati.Store
use progetto_sistemi_operati.Nucleus.Platform.{put_word}
use progetto_sistemi_operati.Swap.{Pool, UserSupport, Handlers}
use progetto_sistemi_operati.Process.{Tree, Proc, ret, leave, fault, out_of_fuel, call, ask, ◌>>=◌}

-- `user` holds the structures of `supportPool` by their index, and `store.support` what the nucleus
-- writes into them, by address. `byte` is the address space of the process that runs.
pub record World : Type 0 where
  pub store : Store
  pub pool : Pool
  pub user : ℕ → UserSupport
  pub byte : ℕ → ℕ

-- What the linker, the stack and uriscv's headers settle: the addresses of the structures and of
-- their exception states, of `swapFrames` and `flashSemaphore`, the handlers, the registers, the
-- addresses of the device registers, and what a fresh `state_t` on the stack holds.
pub record Layout : Type 0 where
  pub support_addr : ℕ → ℕ
  pub support_index : ℕ → ℕ
  pub swap_frames : ℕ
  pub flash_semaphore : ℕ
  pub handlers : Handlers
  pub gpr_len : ℕ
  pub reg_a0 : ℕ
  pub reg_a1 : ℕ
  pub reg_a2 : ℕ
  pub reg_sp : ℕ
  pub dev_reg_addr : ℕ → ℕ → ℕ
  pub on_stack : CpuState

-- The semaphores of phase3/initProc.c.
pub data Sem : Type 0 where
  swap_pool master shell terminal_write terminal_read : Sem

-- The system calls of the support level, each with the arguments that it uses, and the instructions
-- for the TLB and the STATUS register.
pub data Op : Type 0 where
  passeren verhogen : Sem → Op
  do_io : ℕ → ℕ → Op
  get_support_ptr term_process : Op
  create_process : CpuState → ℕ → ℕ → Op
  get_status get_index tlbp tlbwi tlbwr : Op
  set_status set_entry_hi set_entry_lo : ℕ → Op

abbrev pub Code : Type 0 → Type 0
Code A = Proc Op World A

-- A command of the kernel's lists, run by a process.
abbrev pub run : {A : Type 0} → Run A → World → Tree Op World A
run (Store.ok a s) w = ret a (record w { store = s })
run (Store.stop e s) w = leave e (record w { store = s })
run Store.fault w = fault
run Store.out_of_fuel w = out_of_fuel

abbrev pub lift : {A : Type 0} → Cmd A → Code A
lift m w = run (m w.store) w

abbrev pub on_pool : (Pool → Pool) → World → World
on_pool f w = record w { pool = f w.pool }

abbrev pub put_user : ℕ → UserSupport → World → World
put_user i x w = record w { user = λ j. if i == j then x else w.user j }

abbrev pub on_user : ℕ → (UserSupport → UserSupport) → World → World
on_user i f w = put_user i (f (w.user i)) w

-- A word of memory, such as a device's register.
abbrev pub store_word : ℕ → ℕ → World → World
store_word a x w = record w { store = put_word a x w.store }

-- `sup->sup_exceptState[k]` of the structure at an address.
abbrev pub except_state : ℕ → ℕ → World → CpuState
except_state sup k w = (w.store.support sup).except_state k

abbrev pub put_except_state : ℕ → ℕ → CpuState → World → World
put_except_state sup k x w = record w {
  store = record w.store {
    support = λ a.
        if sup == a
        then record (w.store.support a) {
          except_state = λ j. if k == j then x else (w.store.support a).except_state j;
        }
        else w.store.support a;
  };
}

-- Both ends of an atomic action: `setSTATUS(getSTATUS() & ~MSTATUS_MIE_MASK)` and its opposite.
abbrev pub interrupts_off : Code (Unit {0})
interrupts_off = do status ← ask get_status; call (set_status (bit_and status 0xFFFFFFF7))

abbrev pub interrupts_on : Code (Unit {0})
interrupts_on = do status ← ask get_status; call (set_status (bit_or status 0x8))

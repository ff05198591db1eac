-- ===== src/Store.antt =====
-- The state of the kernel and the commands that act on it: the structures of headers/types.h, the
-- static variables of phase1/pcb.c and phase1/asl.c and the globals of phase2/initial.c. The
-- registers and the memory of the machine that the kernel reads and writes stand beside them.
use progetto_sistemi_operati.Base.{ℕ, ◌==◌, if◌then◌else◌, Option, Bool, ◌%◌, ◌+◌, ◌^◌, ltb}
use progetto_sistemi_operati.Memory.{Addr, of_item, p_list, p_sib, s_link, s_list, Links}

-- The fields of uriscv's `state_t` that the kernel names. Registers hold 32-bit patterns.
pub record CpuState : Type 0 where
  pub entry_hi : ℕ
  pub cause : ℕ
  pub status : ℕ
  pub pc_epc : ℕ
  pub mie : ℕ
  pub gpr : ℕ → ℕ

-- `pcb_t` without its three list links. A null `p_semAdd` or `p_supportStruct` is the address 0.
pub record Pcb : Type 0 where
  pub parent : Option ℕ
  pub state : CpuState
  pub time : ℕ
  pub sem_add : ℕ
  pub support_struct : ℕ
  pub prio : ℕ
  pub pid : ℕ

-- `support_t`, as far as the nucleus reads and writes it.
pub record Context : Type 0 where
  pub stack_ptr : ℕ
  pub status : ℕ
  pub pc : ℕ

pub record Support : Type 0 where
  pub except_state : ℕ → CpuState
  pub except_context : ℕ → Context

-- uriscv's `passupvector_t`: the handlers that the BIOS calls, and their stacks.
pub record PassUpVector : Type 0 where
  pub tlb_refill_handler : ℕ
  pub tlb_refill_stack_ptr : ℕ
  pub exception_handler : ℕ
  pub exception_stack_ptr : ℕ

-- What the machine holds while a handler runs: the processor's number, the CAUSE and STATUS
-- registers, the time of day clock, the pass-up vector, and the words and states in memory by address.
pub record Machine : Type 0 where
  pub prid : ℕ
  pub cause : ℕ
  pub status : ℕ
  pub mie : ℕ
  pub clock : ℕ
  pub timescale : ℕ
  pub timer : ℕ
  pub interval : ℕ
  pub vector : PassUpVector
  pub word : ℕ → ℕ
  pub state_at : ℕ → CpuState

pub record Store : Type 0 where
  pub links : Links
  pub pcb : ℕ → Pcb
  pub s_key : ℕ → ℕ
  pub next_pid : ℕ
  pub process_count : ℕ
  pub soft_block_count : ℕ
  pub current_process : Option ℕ
  pub start_time : ℕ → ℕ
  pub support : ℕ → Support
  pub machine : Machine

-- How a handler gives the processor away for good: `LDST`, `LDCXT`, `HALT`, `PANIC`, `WAIT`.
pub data Exit : Type 0 where
  ldst : CpuState → Exit
  ldcxt : Context → Exit
  halt panic wait : Exit

-- `fault` is a null dereference, or `container_of` at a link of another structure.
pub data Run (A : Type 0) : Type 0 where
  ok : A → Store → Run A
  stop : Exit → Store → Run A
  fault : Run A
  out_of_fuel : Run A

abbrev pub Cmd : Type 0 → Type 0
Cmd A = Store → Run A

abbrev pub pure : {A : Type 0} → A → Cmd A
pure a s = ok a s

abbrev pub and_then : {A B : Type 0} → Run A → (A → Cmd B) → Run B
and_then (ok a s) k = k a s
and_then (stop e s) k = stop e s
and_then fault k = fault
and_then out_of_fuel k = out_of_fuel

infixl 5 ◌>>=◌ ◌>>◌
abbrev pub ◌>>=◌ : {A B : Type 0} → Cmd A → (A → Cmd B) → Cmd B
◌>>=◌ m k s = and_then (m s) k

abbrev pub ◌>>◌ : {B : Type 0} → Cmd (Unit {0}) → Cmd B → Cmd B
m >> k = m >>= λ _. k

abbrev pub gets : {A : Type 0} → (Store → A) → Cmd A
gets f s = ok (f s) s

abbrev pub modify : (Store → Store) → Cmd (Unit {0})
modify f s = ok tt (f s)

abbrev pub exit_with : {A : Type 0} → Exit → Cmd A
exit_with e s = stop e s

-- A write to the links, and to the fields of a PCB.
abbrev pub on_links : (Links → Links) → Store → Store
on_links f s = record s { links = f s.links }

abbrev pub put_pcb : ℕ → Pcb → Store → Store
put_pcb p x s = record s { pcb = λ q. if p == q then x else s.pcb q }

abbrev pub on_pcb : ℕ → (Pcb → Pcb) → Store → Store
on_pcb p f s = put_pcb p (f (s.pcb p)) s

-- `container_of` for each kind of link; the index stands for the pointer to the structure.
unfoldable pub pcb_of_list : Addr → Cmd ℕ
pcb_of_list (of_item (p_list p)) = pure p
pcb_of_list _ = λ _. fault

unfoldable pub pcb_of_sib : Addr → Cmd ℕ
pcb_of_sib (of_item (p_sib p)) = pure p
pcb_of_sib _ = λ _. fault

unfoldable pub semd_of_link : Addr → Cmd ℕ
semd_of_link (of_item (s_link d)) = pure d
semd_of_link _ = λ _. fault

unfoldable pub support_of_list : Addr → Cmd ℕ
support_of_list (of_item (s_list u)) = pure u
support_of_list _ = λ _. fault

-- `a < b` on 32-bit patterns read as signed integers.
abbrev pub signed_lt : ℕ → ℕ → Bool
signed_lt a b = ltb ((a + 2 ^ 31) % 2 ^ 32) ((b + 2 ^ 31) % 2 ^ 32)

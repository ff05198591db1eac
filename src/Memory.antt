-- ===== src/Memory.antt =====
-- The addresses of the `struct list_head`s of the kernel, and the memory that they live in.
-- headers/types.h places a `p_list`, a `p_child` and a `p_sib` in each PCB, a `s_procq` and a
-- `s_link` in each semaphore descriptor and a `s_list` in each support structure; phase1/pcb.c,
-- phase1/asl.c, phase2/initial.c and phase3/initProc.c declare the other list heads.
use progetto_sistemi_operati.Base.{ℕ, ite, ℕ_discrete}

-- A list's sentinel.
pub data Head : Type 0 where
  pcb_free semd_free semd_active ready_queue support_free : Head
  p_child s_procq : ℕ → Head

-- A link inside a structure that sits in lists: of a PCB, a semaphore descriptor, a support
-- structure. The number is the structure's index in its table.
pub data Item : Type 0 where
  p_list p_sib s_link s_list : ℕ → Item

pub data Addr : Type 0 where
  null : Addr
  of_head : Head → Addr
  of_item : Item → Addr

unfoldable pub Head-discrete : Discrete Head
unfolding ℕ_discrete
Head-discrete = hlevel ℕ_discrete

unfoldable pub Item-discrete : Discrete Item
unfolding ℕ_discrete
Item-discrete = hlevel ℕ_discrete

unfoldable pub Addr-discrete : Discrete Addr
unfolding Head-discrete Item-discrete
Addr-discrete = hlevel (Head-discrete, Item-discrete)

-- The two fields of every `struct list_head`.
pub record Links : Type 0 where
  pub next : Addr → Addr
  pub prev : Addr → Addr

-- `a->next = v` and `a->prev = v`.
abbrev pub set_next : Addr → Addr → Links → Links
set_next a v m = record m { next = λ b. ite (Addr-discrete a b) v (m.next b) }

abbrev pub set_prev : Addr → Addr → Links → Links
set_prev a v m = record m { prev = λ b. ite (Addr-discrete a b) v (m.prev b) }

-- ===== src/Examples/Paging.antt =====
-- The theorems on the pager and on the exceptions of user processes at a sample memory.
use progetto_sistemi_operati.Base.{
  ℕ, ◌+◌, ◌-◌, ◌*◌, ◌%◌, ◌^◌, ◌≡◌, refl, true, false, some, [], ◌∷◌, ◌++◌, arith, ◌==◌,
  if◌then◌else◌,
}
use progetto_sistemi_operati.Swap.{Pool, page_replacement, find_page_index}
use progetto_sistemi_operati.Process.Requests.{Asks}
use progetto_sistemi_operati.World.{
  World, Layout, except_state, put_except_state, create_process, passeren, verhogen, terminal_write,
}
use progetto_sistemi_operati.Pager.{pager_for, serve_fault, pager, page_in}
use progetto_sistemi_operati.Pager.Contract.{Own, IsTraced, KeepsPool}
use progetto_sistemi_operati.Pager.Faults.{Loaded}
use progetto_sistemi_operati.Pager.Serves.{Reads, Retries, page_in-KeepsPool, pager-KeepsPool}
use progetto_sistemi_operati.Pager.Causes.{pager_for-serve_fault}
use progetto_sistemi_operati.Store.{ldst}
use progetto_sistemi_operati.UserCalls.Terminal.{
  Course, sent, failed, statuses, tried, count, error, answered, observe, commands,
  write_terminal_sys_lem,
}
use progetto_sistemi_operati.UserCalls.{
  reg, state_of, write_terminal_sys, write_refused, general_exception_handler,
}
use progetto_sistemi_operati.UserCalls.Pool.{Keeps}
use progetto_sistemi_operati.UserCalls.Handler.{general_exception_handler-KeepsPool}
use progetto_sistemi_operati.Swap.{init_u_proc_state}
use progetto_sistemi_operati.Process.{perform}
use progetto_sistemi_operati.Pager.{shell_asid}
use progetto_sistemi_operati.Start.{test}
use progetto_sistemi_operati.Start.Shell.{Provided, awaits, test_lem}
use progetto_sistemi_operati.Examples.{sample_state, start, start_view, start-Rings, store_with}
use progetto_sistemi_operati.Examples.Buffers.{
  full, fresh, handlers, no_support, no_support_view, no_support-Rings,
}

-- The structure `i` is at the address 0x1000 + `i`.
abbrev pub layout : Layout
layout = record {
  support_addr = λ i. 0x1000 + i;
  support_index = λ a. a - 0x1000;
  swap_frames = 0x20020000;
  flash_semaphore = 0x2000;
  handlers = handlers;
  gpr_len = 32;
  reg_a0 = 24;
  reg_a1 = 25;
  reg_a2 = 26;
  reg_sp = 2;
  dev_reg_addr = λ line dev. 0x10000054 + (line - 17) * 0x80 + dev * 0x10;
  on_stack = sample_state;
}

-- The process with the structure 2 runs, and every frame is in use.
abbrev memory : World
memory = record { store = no_support; pool = full; user = λ i. fresh; byte = λ a. 0 }

memory-Own : Own 2 memory
memory-Own = record {
  view = no_support_view;
  rings = no_support-Rings;
  spare = [];
  listed = ground arith;
  mine = ground arith;
}

full-IsTraced : IsTraced memory.pool
full-IsTraced c lt used = (2, refl)

page_in-KeepsPool_example :
    (c : ℕ) × (t : Pool) × (page_replacement memory.pool ≡ some (c, t))
    × KeepsPool layout 2 0x1002 0
        (λ e u. ⊥)
        (λ h a u. (h ≡ true) × Loaded layout 2 31 c a u)
        true
        memory
        (page_in layout 2 31 memory)
    × Asks (Reads layout 2 0x1002 (λ e u. ⊥) refl 31 c) (page_in layout 2 31 memory)
page_in-KeepsPool_example =
    page_in-KeepsPool layout 2 0x1002 (λ e u. ⊥) refl 31 memory full-IsTraced (omega arith)

-- A fault at the page 1.
abbrev missing : World
missing = put_except_state 0x1002 0 (record sample_state { entry_hi = 0x80001000 }) memory

in_table : find_page_index (except_state 0x1002 0 missing).entry_hi ≡ 1
unfolding find_page_index
in_table = refl

pager-KeepsPool_example :
    KeepsPool {A = Unit {0}} layout 2 0x1002 0
      (Retries 0x1002)
      (λ h a u. ⊥)
      false
      missing
      (pager layout missing)
pager-KeepsPool_example =
    pager-KeepsPool layout 2 0x1002 missing refl refl (omega (arith, in_table))

pager_for-serve_fault_example : pager_for layout 0x1002 memory ≡ serve_fault layout 0x1002 memory
pager_for-serve_fault_example = pager_for-serve_fault layout 0x1002 memory

general_exception_handler-KeepsPool_example :
    Keeps layout 2 0x1002 refl memory (general_exception_handler layout memory)
general_exception_handler-KeepsPool_example =
    general_exception_handler-KeepsPool layout 2 0x1002 refl memory memory-Own

-- The memory before the first process has run.
abbrev initial : World
initial = record memory { store = store_with start }

test_lem_example :
    (m : World) × (test layout initial
      ≡ perform
          (create_process
            (init_u_proc_state layout.gpr_len layout.reg_sp shell_asid layout.on_stack)
            0
            (layout.support_addr 7))
          m
          awaits)
    × Provided layout m
test_lem_example =
    test_lem layout initial start_view start-Rings (λ j e. ground arith) (λ c. ground arith)

-- The process writes two characters, of which the second fails with the status 4.
abbrev pub writing : World
writing =
    put_except_state 0x1002 1 (record sample_state { gpr = λ k. if k == 26 then 2 else 0x80000100 })
      memory

abbrev one_sent : Course 2
one_sent = sent 5 refl (failed 4 refl)

accepted : write_refused 0x80000100 2 ≡ false
unfolding write_refused
accepted = refl

write_terminal_sys_lem_example :
    (v : World) × (observe (write_terminal_sys layout 0x1002 2 writing) (statuses one_sent) ≡ (
      passeren terminal_write
          ∷ (commands layout writing (reg 0x1002 25 writing) (tried one_sent)
              ++ verhogen terminal_write ∷ []),
      some (ldst (state_of 0x1002 v), v),
    ))
    × (reg 0x1002 24 v ≡ answered (error one_sent) (count one_sent))
    × ((state_of 0x1002 v).pc_epc ≡ ((state_of 0x1002 writing).pc_epc + 4) % 2 ^ 32)
write_terminal_sys_lem_example = write_terminal_sys_lem layout 0x1002 2 writing accepted one_sent

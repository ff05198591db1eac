-- ===== src/Nucleus/Saved.antt =====
-- The processor states that `copyState` of phase2/functions.c leaves, and what the suspension of a
-- process in phase2/exceptions.c makes of its PCB.
use progetto_sistemi_operati.Base.{
  ℕ, ◌+◌, ◌-◌, ◌%◌, ◌^◌, ◌<◌, ◌≡◌, refl, sym, subst, ap, fun_ext, none, arith, ltb, if◌then◌else◌,
  for_range_inv, ==_refl, ◌==◌,
}
use progetto_sistemi_operati.Store.{Store, CpuState, on_pcb}
use progetto_sistemi_operati.Nucleus.Platform.{Platform, put_current, on_state, advance}
use progetto_sistemi_operati.Nucleus.Functions.{copy_gpr, copy_state, update_time}
use progetto_sistemi_operati.Nucleus.Syscalls.{save_current}

-- All of `from`, of its registers the first `gpr_len`.
abbrev pub saved : ℕ → CpuState → CpuState → CpuState
saved gpr_len to from = record {
  entry_hi = from.entry_hi;
  cause = from.cause;
  status = from.status;
  pc_epc = from.pc_epc;
  mie = from.mie;
  gpr = λ k. if ltb k gpr_len then from.gpr k else to.gpr k;
}

pub copy_state_lem :
    (gpr_len : ℕ) (to from : CpuState) → copy_state gpr_len to from ≡ saved gpr_len to from
unfolding copy_state copy_gpr
copy_state_lem gpr_len to from =
    ap {A = ℕ → ℕ}
      (λ g. record {
        entry_hi = from.entry_hi;
        cause = from.cause;
        status = from.status;
        pc_epc = from.pc_epc;
        mie = from.mie;
        gpr = g;
      })
      (fun_ext (
        for_range_inv (λ c (g : ℕ → ℕ). (k : ℕ) → g k ≡ (if ltb k c then from.gpr k else to.gpr k))
          (λ c g k. if c == k then from.gpr c else g k) (λ c g h k. ground (arith, h k)) gpr_len 0
          gpr_len to.gpr (omega arith) (λ k. ground arith)))

-- The state `x` is `from`, its first `gpr_len` registers included.
pub record Copied (gpr_len : ℕ) (x from : CpuState) : Type 0 where
  pub entry_hi : x.entry_hi ≡ from.entry_hi
  pub cause : x.cause ≡ from.cause
  pub status : x.status ≡ from.status
  pub pc_epc : x.pc_epc ≡ from.pc_epc
  pub mie : x.mie ≡ from.mie
  pub gpr : (k : ℕ) → k < gpr_len → x.gpr k ≡ from.gpr k

pub copy_state-Copied :
    (gpr_len : ℕ) (to from : CpuState) → Copied gpr_len (copy_state gpr_len to from) from
copy_state-Copied gpr_len to from =
    subst (λ x. Copied gpr_len x from) (sym (copy_state_lem gpr_len to from))
      (record {
        entry_hi = refl;
        cause = refl;
        status = refl;
        pc_epc = refl;
        mie = refl;
        gpr = λ k lt. ground arith;
      })

-- The running process `p`, its state with the pc behind the system call and the time that it ran
-- added, has given the processor up.
abbrev pub suspended : Platform → ℕ → ℕ → Store → Store
suspended u state p t = put_current none (
    on_pcb p
      (λ x. record x {
        state = saved u.gpr_len x.state (advance (t.machine.state_at state));
        time =
            (x.time + (t.machine.clock + 2 ^ 32 - t.start_time t.machine.prid) % 2 ^ 32) % 2 ^ 32;
      })
      (on_state state advance t))

pub save_current-suspended :
    (u : Platform) (state p : ℕ) (t : Store)
    → put_current none (save_current u state p (on_state state advance t)) ≡ suspended u state p t
unfolding save_current update_time
save_current-suspended u state p t =
    rw (==_refl state, copy_state_lem u.gpr_len (t.pcb p).state) refl

-- ===== src/Pager/Ends.antt =====
-- `TerminateSys` keeps to the semaphore of the swap pool.
use progetto_sistemi_operati.Base.{
  ℕ, ◌≡◌, refl, ap, fun_ext, Bool, false, arith, ◌==◌, Bool-cases, inl, inr, eq_of_==,
}
use progetto_sistemi_operati.Store.{Exit}
use progetto_sistemi_operati.Supports.{deallocate_support}
use progetto_sistemi_operati.Swap.{Pool, free_swap_frames}
use progetto_sistemi_operati.Swap.Frames.{free_swap_frames_lem}
use progetto_sistemi_operati.Process.Protocol.{Follows}
use progetto_sistemi_operati.World.{World, Layout}
use progetto_sistemi_operati.Pager.{set_asid, shell_asid, terminate_sys}
use progetto_sistemi_operati.Pager.Contract.{swap_part, IsTraced, KeepsPool}

pub set_asid-swap_part : (i j a : ℕ) (w : World) → swap_part i (set_asid j a w) ≡ swap_part i w
set_asid-swap_part i j a w = ap (λ (f : ℕ → ℕ). (w.pool, f)) (fun_ext (λ p. ground arith))

pub free_swap_frames-IsTraced :
    (asid : ℕ) (s : Pool) → IsTraced s → IsTraced (free_swap_frames asid s)
free_swap_frames-IsTraced asid s traced c lt used =
    let (emptied, same, _) = free_swap_frames_lem asid s c lt in
    elim (Bool-cases ((s.frame c).sw_asid == asid)) [
      | inl e ↦ absurd (used (ap (λ x. x.sw_asid) (emptied (eq_of_== _ _ e))))
      | inr e ↦ let kept = same (ground (arith, e)) in rw kept (traced c lt (rw kept at used))
    ]

-- The process ends on every path, so that whatever is asked of its return holds.
pub terminate_sys-KeepsPool :
    (y : Layout) (i sup k : ℕ) (Leaves : Exit → World → Type 0)
    (Q : Bool → Unit {0} → World → Type 0) (asid : ℕ) (w : World)
    → (sup == 0) ≡ false
    → KeepsPool y i sup k Leaves Q false w (terminate_sys y asid w)
unfolding terminate_sys deallocate_support Follows
terminate_sys-KeepsPool y i sup k Leaves Q asid w nonzero = (
  refl,
  λ r v a kept. (
    refl,
    refl,
    λ r1 v1 a1 traced. (
      refl,
      free_swap_frames-IsTraced asid v1.pool traced,
      λ r2 v2 a2 _.
          rw (a.pointer refl, nonzero)
            (elim (Bool-cases (asid == shell_asid)) [
              | inl e ↦
                  rw e (set_asid-swap_part i (y.support_index sup) 0 v2, λ _ _ _ _. (refl, refl))
              | inr e ↦
                  rw e (set_asid-swap_part i (y.support_index sup) 0 v2, λ _ _ _ _. (refl, refl))
            ]),
    ),
  ),
)

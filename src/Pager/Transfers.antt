-- ===== src/Pager/Transfers.antt =====
-- The transfers of the pager between a frame and a flash device, under the semaphore of the pool.
use Prim.Native.Nat.{bit_and}
use progetto_sistemi_operati.Base.{
  ℕ, ◌≡◌, refl, sym, subst, ◌∙◌, ap, Bool, true, false, some, ◌==◌, Bool-cases, inl, inr,
}
use progetto_sistemi_operati.Store.{Exit}
use progetto_sistemi_operati.Swap.{Pool}
use progetto_sistemi_operati.Process.Protocol.{Follows}
use progetto_sistemi_operati.World.{World, Layout, interrupts_on}
use progetto_sistemi_operati.Pager.{
  present_flag, program_trap, transfer, read_from_device, write_to_device, update_cached, unmap,
  unmap_pte,
}
use progetto_sistemi_operati.Pager.Contract.{IsTraced, KeepsPool, KeepsPool-held}
use progetto_sistemi_operati.Pager.Ends.{terminate_sys-KeepsPool}

-- A return that still holds the semaphore, with the pool `s`.
abbrev pub Quiet : Pool → Bool → Unit {0} → World → Type 0
Quiet s h a u = (h ≡ true) × (u.pool ≡ s)

abbrev pub pools : {a b : Pool × (ℕ → ℕ)} → a ≡ b → a.0 ≡ b.0
pools k = ap (λ g. g.0) k

module _ (y : Layout) (i sup : ℕ) (Leaves : Exit → World → Type 0) (nonzero : (sup == 0) ≡ false)
    (s : Pool) (traced : IsTraced s) where
  pub transfer-KeepsPool :
      (asid c page command bad : ℕ) (w : World)
      → w.pool ≡ s
      → KeepsPool y i sup 0 Leaves (Quiet s) true w (transfer y asid c page command bad w)
  unfolding transfer program_trap Follows
  transfer-KeepsPool asid c page command bad w e = (
    tt,
    λ status v a kept.
        let same : v.pool ≡ s = pools kept ∙ e in
        elim (Bool-cases (bit_and status 0xff == bad)) [
          | inl e ↦ rw e (
            refl,
            subst IsTraced (sym same) traced,
            λ r v1 a1 _. terminate_sys-KeepsPool y i sup 0 Leaves (Quiet s) asid v1 nonzero,
          )
          | inr e ↦ rw e (tt, (refl, same))
        ],
  )

  pub read_from_device-KeepsPool :
      (p c : ℕ) (w : World)
      → w.pool ≡ s
      → KeepsPool y i sup 0 Leaves (Quiet s) true w (read_from_device y i p c w)
  unfolding read_from_device
  read_from_device-KeepsPool p c w e = transfer-KeepsPool _ c p 2 5 w e

  settled : (u : World) → u.pool ≡ s → KeepsPool y i sup 0 Leaves (Quiet s) true u (interrupts_on u)
  unfolding Follows
  settled u e = (tt, λ r1 v1 a1 k1. (tt, λ r2 v2 a2 k2. (tt, (refl, pools k2 ∙ pools k1 ∙ e))))

  pub unmap-KeepsPool :
      (j q : ℕ) (w : World) → w.pool ≡ s → KeepsPool y i sup 0 Leaves (Quiet s) true w (unmap j q w)
  unfolding unmap update_cached Follows
  unmap-KeepsPool j q w e = (
    tt,
    λ r1 v1 a1 k1. (
      tt,
      λ r2 v2 a2 k2. (
        tt,
        λ index v3 a3 k3.
            let still = pools k3 ∙ pools k2 ∙ pools k1 ∙ e in
            elim (Bool-cases (bit_and index present_flag == 0)) [
              | inl e ↦
                  rw e (
                    tt,
                    λ r4 v4 a4 k4. (tt, λ r5 v5 a5 k5. settled v5 (pools k5 ∙ pools k4 ∙ still)),
                  )
              | inr e ↦ rw e (settled v3 still)
            ],
      ),
    ),
  )

  -- The frame is in use, and so the pool knows the entry of its page.
  pub write_to_device-KeepsPool :
      (c : ℕ) (w : World) (x : ℕ × ℕ)
      → w.pool ≡ s
      → (s.frame c).sw_pte ≡ some x
      → KeepsPool y i sup 0 Leaves (Quiet s) true w (write_to_device y c w)
  unfolding write_to_device unmap_pte Follows
  write_to_device-KeepsPool c w (j, q) e in_use = (
    tt,
    λ r1 v1 a1 k1. (
      tt,
      λ r2 v2 a2 k2.
          let same : v2.pool ≡ s = pools k2 ∙ pools k1 ∙ e in
          let known : (v2.pool.frame c).sw_pte ≡ some (j, q) =
            ap (λ z. (z.frame c).sw_pte) same ∙ in_use in
          rw known (
            KeepsPool-held y i sup 0 Leaves (λ _ u. u.pool ≡ s) (Quiet s) (unmap j q v2) _ v2
              (unmap-KeepsPool j q v2 same) (λ _ u kept. transfer-KeepsPool _ c _ 3 4 u kept)),
    ),
  )

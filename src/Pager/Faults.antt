-- ===== src/Pager/Faults.antt =====
-- The pager as a whole: it keeps to the semaphore of the swap pool, and the page that was missing is
-- in a frame when it gives the semaphore back.
use Prim.Native.Nat.{bit_and, bit_or}
use progetto_sistemi_operati.Base.{
  ℕ, ◌<◌, ◌≡◌, refl, sym, subst, ◌∙◌, true, some, arith, ◌==◌, Bool-cases, inl, inr,
}
use progetto_sistemi_operati.Store.{Exit}
use progetto_sistemi_operati.Swap.{Pool, Frame, pool_size, put_frame}
use progetto_sistemi_operati.Process.Protocol.{Follows}
use progetto_sistemi_operati.World.{World, Layout, on_pool, interrupts_on}
use progetto_sistemi_operati.Pager.{
  frame_addr, valid_at, lo_of, set_lo, present_flag, enter_tlb, map_page,
}
use progetto_sistemi_operati.Pager.Contract.{swap_part, IsTraced, KeepsPool}
use progetto_sistemi_operati.Pager.Transfers.{pools}

-- The frame `c` of the pool holds the page `p` of the structure `i`, and the page's entry says so: its
-- valid bit, 0x200, is set, and it has the number of the frame's page above its low 12 bits.
pub record IsLoaded (y : Layout) (i p c : ℕ) (g : Pool × (ℕ → ℕ)) (asid : ℕ) : Type 0 where
  pub low : ℕ
  pub within : c < pool_size
  pub holds : g.0.frame c ≡ record { sw_asid = asid; sw_page_no = p; sw_pte = some (i, p) }
  pub valid :
      g.1 p ≡ bit_or (bit_and (bit_or low 0x200) 0xFFF) (bit_and (frame_addr y c) 0xFFFFF000)
  pub traced : IsTraced g.0

-- A return that still holds the semaphore, with the page loaded.
abbrev pub Loaded : Layout → ℕ → ℕ → ℕ → Unit {0} → World → Type 0
Loaded y i p c a u = IsLoaded y i p c (swap_part i u) (u.user i).asid

pub put_frame-IsTraced :
    (c j : ℕ) (f : Frame) (s : Pool)
    → f.sw_pte ≡ some (j, f.sw_page_no)
    → IsTraced s
    → IsTraced (put_frame c f s)
put_frame-IsTraced c j f s e t d lt used = elim (Bool-cases (c == d)) [
  | inl same ↦ (j, rw same e)
  | inr differ ↦ let (z, q) = t d lt (rw differ at used) in (z, rw differ q)
]

module _ (y : Layout) (i sup : ℕ) (Leaves : Exit → World → Type 0) where
  -- The memory once the frame and the entry have been written.
  abbrev mapped : ℕ → ℕ → World → World
  mapped p c w =
      let w1 =
        on_pool
          (put_frame c (record { sw_asid = (w.user i).asid; sw_page_no = p; sw_pte = some (i, p) }))
          w in
      set_lo i p (valid_at (frame_addr y c) (lo_of i p w1)) w1

  mapped-IsLoaded :
      (p c : ℕ) (w : World)
      → c < pool_size
      → IsTraced w.pool
      → IsLoaded y i p c (swap_part i (mapped p c w)) ((mapped p c w).user i).asid
  mapped-IsLoaded p c w lt t = record {
    low = lo_of i p w;
    within = lt;
    holds = ground arith;
    valid = ground arith;
    traced = put_frame-IsTraced c i _ w.pool refl t;
  }

  carry :
      (p c : ℕ) (u v : World)
      → swap_part i v ≡ swap_part i u
      → (v.user i).asid ≡ (u.user i).asid
      → Loaded y i p c tt u
      → Loaded y i p c tt v
  carry p c u v e a loaded =
      subst (λ n. IsLoaded y i p c (swap_part i v) n) (sym a)
        (subst (λ g. IsLoaded y i p c g (u.user i).asid) (sym e) loaded)

  -- The end of the atomic action.
  finish :
      (p c : ℕ) (u : World)
      → Loaded y i p c tt u
      → KeepsPool y i sup 0 Leaves
          (λ h a v. (h ≡ true) × Loaded y i p c a v)
          true
          u
          (interrupts_on u)
  unfolding Follows
  finish p c u loaded = (
    tt,
    λ r1 v1 a1 k1.
        (tt, λ r2 v2 a2 k2. (tt, (refl, carry p c u v2 (k2 ∙ k1) (a2.asid ∙ a1.asid) loaded))),
  )

  pub map_page-KeepsPool :
      (p c : ℕ) (w : World)
      → c < pool_size
      → IsTraced w.pool
      → KeepsPool y i sup 0 Leaves
          (λ h a u. (h ≡ true) × Loaded y i p c a u)
          true
          w
          (map_page y i p c w)
  unfolding map_page enter_tlb Follows
  map_page-KeepsPool p c w lt t = (
    tt,
    λ r1 v1 a1 k1. (
      tt,
      λ r2 v2 a2 k2.
          let t2 : IsTraced v2.pool = subst IsTraced (sym (pools k2 ∙ pools k1)) t in
          let loaded = mapped-IsLoaded p c v2 lt t2 in
          (
            tt,
            λ r3 v3 a3 k3. (
              tt,
              λ r4 v4 a4 k4. (
                tt,
                λ index v5 a5 k5. (
                  tt,
                  λ r6 v6 a6 k6.
                      let m = mapped p c v2 in
                      let same : swap_part i v6 ≡ swap_part i m = k6 ∙ k5 ∙ k4 ∙ k3 in
                      let asid : (v6.user i).asid ≡ (m.user i).asid =
                        a6.asid ∙ a5.asid ∙ a4.asid ∙ a3.asid in
                      elim (Bool-cases (bit_and index present_flag == 0)) [
                        | inl e ↦ rw e (
                          tt,
                          λ r7 v7 a7 k7.
                              finish p c v7 (carry p c m v7 (k7 ∙ same) (a7.asid ∙ asid) loaded),
                        )
                        | inr e ↦ rw e (
                          tt,
                          λ r7 v7 a7 k7.
                              finish p c v7 (carry p c m v7 (k7 ∙ same) (a7.asid ∙ asid) loaded),
                        )
                      ],
                ),
              ),
            ),
          ),
    ),
  )

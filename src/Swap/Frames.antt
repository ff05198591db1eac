-- ===== src/Swap/Frames.antt =====
-- The frames of the swap pool: `initSwapStructs`, `pageReplacement` and `freeSwapFrames` of
-- phase3/vmSupport.c.
use progetto_sistemi_operati.Base.{
  ℕ, zero, suc, ◌+◌, ◌%◌, ◌^◌, ◌<◌, ◌≤◌, ◌≡◌, ◌≢◌, ◌⊎◌, inl, inr, refl, none, some, arith, ◌==◌,
  for_range_inv, Bool-cases, eq_of_==, false,
}
use progetto_sistemi_operati.Swap.{
  pool_size, minus_one, Pool, no_page, put_frame, init_swap_structs, find_free, page_replacement,
  free_frame, free_swap_frames,
}

abbrev pub IsFree : Pool → ℕ → Type 0
IsFree s c = (s.frame c).sw_asid ≡ minus_one

pub init_swap_structs-frame :
    (s : Pool) (c : ℕ) → c < pool_size → (init_swap_structs s).frame c ≡ no_page
unfolding init_swap_structs
init_swap_structs-frame s c lt =
    for_range_inv (λ i (t : Pool). c < i → t.frame c ≡ no_page) (λ i. put_frame i no_page)
      (λ i t h l. ground (arith, h)) pool_size 0 pool_size s (omega arith)
      (λ l. absurd (omega arith)) lt

-- Killing a process empties exactly its frames: `freeSwapFrames` makes each frame of the pool that
-- the asid holds a free one, and leaves the other frames and the position of the replacement.
pub free_swap_frames_lem :
    (asid : ℕ) (s : Pool) (c : ℕ)
    → c < pool_size
    → ((s.frame c).sw_asid ≡ asid → (free_swap_frames asid s).frame c ≡ no_page)
      × ((s.frame c).sw_asid ≢ asid → (free_swap_frames asid s).frame c ≡ s.frame c)
      × ((free_swap_frames asid s).frame_index ≡ s.frame_index)
unfolding free_swap_frames free_frame
free_swap_frames_lem asid s c lt =
    let (done, _, same, index) =
      for_range_inv
        (λ i (t : Pool).
          ((s.frame c).sw_asid ≡ asid → c < i → t.frame c ≡ no_page)
          × (i ≤ c → t.frame c ≡ s.frame c)
          × ((s.frame c).sw_asid ≢ asid → t.frame c ≡ s.frame c)
          × (t.frame_index ≡ s.frame_index))
        (free_frame asid) (λ i t h. ground (arith, h.0, h.1, h.2, h.3)) pool_size 0 pool_size s
        (omega arith) (λ e l. absurd (omega arith), λ l. refl, λ ne. refl, refl) in
    (λ e. done e lt, same, index)

-- The first free frame from `c` on, if there is one.
find_free-cases :
    (n c : ℕ) (s : Pool)
    → ((i : ℕ) × (find_free n c s ≡ some i)
        × (c ≤ i)
        × (i < c + n)
        × IsFree s i
        × ((j : ℕ) → c ≤ j → j < i → ¬ IsFree s j))
      ⊎ ((find_free n c s ≡ none) × ((j : ℕ) → c ≤ j → j < c + n → ¬ IsFree s j))
unfolding find_free
find_free-cases zero c s = inr (refl, λ j l k. absurd (omega arith))
find_free-cases (suc n) c s = elim (Bool-cases ((s.frame c).sw_asid == minus_one)) [
  | inl e ↦
      inl (c, rw e refl, omega arith, omega arith, eq_of_== _ _ e, λ j l k. absurd (omega arith))
  | inr e ↦ elim (find_free-cases n (c + 1) s) [
    | inl (i, f, lo, hi, free, before) ↦
        inl (i, rw e f, omega arith, omega arith, free, λ j l k. later e (i) before j l k)
    | inr (f, nothing) ↦
        inr (rw e f, λ j l k. later e (c + suc n) (λ j l k. nothing j l (omega arith)) j l k)
  ]
]
  where
    later :
        ((s.frame c).sw_asid == minus_one) ≡ false
        → (i : ℕ) → ((j : ℕ) → c + 1 ≤ j → j < i → ¬ IsFree s j)
        → (j : ℕ) → c ≤ j
        → j < i
        → ¬ IsFree s j
    later e i rest j l k free = elim (Bool-cases (c == j)) [
      | inl q ↦
          let free' : IsFree s c = rw (eq_of_== c j q) free in absurd (ground (arith, e, free'))
      | inr q ↦ rest j (ground (arith, q, l)) k free
    ]

-- While the signed counter has not reached its limit, `pageReplacement` returns a frame of the
-- pool: the first free one, and nothing changes; or, where all are in use, the one behind the frame
-- that it chose last, and the frames stay as they are.
pub page_replacement_lem :
    (s : Pool)
    → s.frame_index + 1 < 2 ^ 31
    → ((i : ℕ) × (page_replacement s ≡ some (i, s))
        × (i < pool_size)
        × IsFree s i
        × ((j : ℕ) → j < i → ¬ IsFree s j))
      ⊎ ((i : ℕ) × (t : Pool) × (page_replacement s ≡ some (i, t))
          × (i < pool_size)
          × (i ≡ (s.frame_index + 1) % pool_size)
          × (t.frame_index ≡ s.frame_index + 1)
          × ((c : ℕ) → t.frame c ≡ s.frame c)
          × ((j : ℕ) → j < pool_size → ¬ IsFree s j))
unfolding page_replacement
page_replacement_lem s lt = elim (find_free-cases pool_size 0 s) [
  | inl (i, f, lo, hi, free, before) ↦
      inl (i, rw (page_replacement, f) refl, omega arith, free, λ j k. before j (omega arith) k)
  | inr (f, nothing) ↦ inr (
    (s.frame_index + 1) % pool_size,
    record s { frame_index = s.frame_index + 1 },
    rw (page_replacement, f) (ground arith),
    omega arith,
    refl,
    refl,
    λ c. refl,
    λ j k. nothing j (omega arith) (omega arith),
  )
]

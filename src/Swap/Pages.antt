-- ===== src/Swap/Pages.antt =====
-- The page table that `initSupportStructure` fills and the index that `findPageIndex` computes.
use progetto_sistemi_operati.Base.{
  ℕ, ◌+◌, ◌<◌, ◌≡◌, arith, for_range, for_range_inv, Bool-cases, inl, inr, ◌==◌,
}
use progetto_sistemi_operati.Swap.{
  find_page_index, UserSupport, put_pte, entry_hi_of, Handlers, init_support_structure,
}

table :
    (asid : ℕ) (x : UserSupport) (i : ℕ)
    → i < 31
    → (λ (y : UserSupport).
          (y.pte_entry_hi i ≡ entry_hi_of (0x80000 + i) asid) × (y.pte_entry_lo i ≡ 0x400))
        (for_range 31 0 (λ i. put_pte i (entry_hi_of (0x80000 + i) asid) 0x400) x)
table asid x i lt =
    for_range_inv
      (λ n (y : UserSupport).
        i < n → (y.pte_entry_hi i ≡ entry_hi_of (0x80000 + i) asid) × (y.pte_entry_lo i ≡ 0x400))
      (λ i. put_pte i (entry_hi_of (0x80000 + i) asid) 0x400) (λ n y h l. ground (arith, h)) 31 0 31
      x (omega arith) (λ l. absurd (omega arith)) lt

-- Each entry of a page table that `initSupportStructure` has filled, for an asid of at most 6 bits,
-- leads `findPageIndex` back to its place in the table; and the entry is writable but not valid.
pub find_page_index-init_support_structure :
    (a : Handlers) (asid : ℕ) (x : UserSupport) (i : ℕ)
    → i < 32
    → asid < 64
    → (find_page_index ((init_support_structure a asid x).pte_entry_hi i) ≡ i)
      × ((init_support_structure a asid x).pte_entry_lo i ≡ 0x400)
unfolding find_page_index init_support_structure
find_page_index-init_support_structure a asid x i lt la = elim (Bool-cases (i == 31)) [
  | inl e ↦ ground (arith, e)
  | inr e ↦
      let (hi, lo) = table asid (record x { asid = asid }) i (ground arith) in
      ground (arith, e, hi, lo)
]

-- ===== src/Pager/Serves.antt =====
-- The pager as a whole, on every path that the rest of the system may take.
use Prim.Native.Nat.{bit_and, bit_or}
use progetto_sistemi_operati.Base.{
  ℕ, ◌+◌, ◌*◌, ◌%◌, ◌^◌, ◌<◌, ◌≡◌, refl, sym, subst, ap, Bool, true, false, Option, none, some,
  arith, ◌==◌, Bool-cases, inl, inr, ltb,
}
use progetto_sistemi_operati.Store.{Exit, ldst}
use progetto_sistemi_operati.Nucleus.Platform.{getexeccode}
use progetto_sistemi_operati.Swap.{Pool, pool_size, minus_one, page_replacement, find_page_index}
use progetto_sistemi_operati.Swap.Frames.{page_replacement_lem}
use progetto_sistemi_operati.Process.{Tree, ret, fault, ◌>>=◌}
use progetto_sistemi_operati.Process.Requests.{Asks, Asks-and_then}
use progetto_sistemi_operati.Process.Protocol.{Follows, Follows-held}
use progetto_sistemi_operati.World.{World, Layout, Op, swap_pool, except_state, do_io}
use progetto_sistemi_operati.Pager.{
  flash_reg, asid_of, hi_of, frame_addr, transfer, take_frame, read_from_device, write_to_device,
  map_page, page_in, serve_fault, pager_for, pager, program_trap, tlbinvldmod,
}
use progetto_sistemi_operati.Pager.Contract.{
  effect_on, Answers, swap_part, IsTraced, KeepsPool, KeepsPool-held,
}
use progetto_sistemi_operati.Pager.Ends.{terminate_sys-KeepsPool}
use progetto_sistemi_operati.Pager.Transfers.{read_from_device-KeepsPool, write_to_device-KeepsPool}
use progetto_sistemi_operati.Pager.Faults.{Loaded, map_page-KeepsPool}

-- The frame that `pageReplacement` chooses.
taken :
    (s : Pool)
    → s.frame_index + 1 < 2 ^ 31
    → IsTraced s
    → (c : ℕ) × (t : Pool) × (page_replacement s ≡ some (c, t)) × (c < pool_size) × IsTraced t
taken s counter traced = elim (page_replacement_lem s counter) [
  | inl (c, e, lt, _, _) ↦ (c, s, e, lt, traced)
  | inr (c, t, e, lt, _, _, same, _) ↦
      (c, t, e, lt, λ d ld used. rw (same d) (traced d ld (rw (same d) at used)))
]

-- What the memory was when the semaphore was taken does not count.
KeepsPool-swapped :
    (y : Layout) (i sup : ℕ) (Leaves : Exit → World → Type 0) (Q : Bool → Unit {0} → World → Type 0)
    (t : Tree Op World (Unit {0})) (w w' : World)
    → KeepsPool y i sup 0 Leaves Q true w' t
    → KeepsPool y i sup 0 Leaves Q true w t
KeepsPool-swapped y i sup Leaves Q t w w' =
    Follows-held (effect_on 0 swap_pool) (swap_part i) (λ g. IsTraced g.0) (Answers y i sup 0)
      Leaves Q t (swap_part i w') (swap_part i w)

take_frame_lem :
    (w : World) (c : ℕ) (t : Pool)
    → page_replacement w.pool ≡ some (c, t)
    → take_frame w ≡ ret c (record w { pool = t })
unfolding take_frame
take_frame_lem w c t e =
    let chosen : Option (ℕ × Pool) → Tree Op World ℕ =
      λ o. elim o [ none ↦ fault | some (d, s) ↦ ret d (record w { pool = s }) ] in
    ap chosen e

module _ (y : Layout) (i sup : ℕ) (Leaves : Exit → World → Type 0)
    (nonzero : (sup == 0) ≡ false) where
  abbrev Fills : ℕ → ℕ → World → Type 0
  Fills p c w =
      KeepsPool y i sup 0 Leaves (λ h a u. (h ≡ true) × Loaded y i p c a u) true w
        ((read_from_device y i p c >>= λ _. map_page y i p c) w)

  filled : (p c : ℕ) (w : World) → c < pool_size → IsTraced w.pool → Fills p c w
  filled p c w lt t =
      KeepsPool-held y i sup 0 Leaves (λ _ u. u.pool ≡ w.pool)
        (λ h a u. (h ≡ true) × Loaded y i p c a u) (read_from_device y i p c w) _ w
        (read_from_device-KeepsPool y i sup Leaves nonzero w.pool t p c w refl)
        (λ _ u same. map_page-KeepsPool y i sup Leaves p c u lt (subst IsTraced (sym same) t))

  -- The operation that has the flash device of the process read the page into the frame: the address of
  -- the frame is in the register `data0`, and the command goes to the register behind it.
  abbrev pub Reads : ℕ → ℕ → Op → World → Type 0
  Reads p c o u =
      let reg = flash_reg y (asid_of (hi_of i p u)) in
      (o ≡ do_io (reg + 4) (bit_or ((p * 2 ^ 8) % 2 ^ 32) 2))
      × (u.store.machine.word (reg + 8) ≡ frame_addr y c)

  asks :
      (p c : ℕ) (w : World)
      → Asks (Reads p c) ((read_from_device y i p c >>= λ _. map_page y i p c) w)
  unfolding read_from_device transfer Asks
  asks p c w = inl (refl, ground arith)

  -- Under the semaphore, and with fewer than 2 ^ 31 - 1 frames taken by turns so far, a page is
  -- brought into the frame that pageReplacement chooses: wherever the pager goes on, it has asked the
  -- flash device of the process to read the page into that frame, it still holds the semaphore, the
  -- pool has the page in that frame, the page's entry has its valid bit set and stands for that frame,
  -- and every frame in use names an entry of the page that it records. On the way the pool changes only
  -- while the semaphore is held, and where the process ends it is given back.
  pub page_in-KeepsPool :
      (p : ℕ) (w : World)
      → IsTraced w.pool
      → w.pool.frame_index + 1 < 2 ^ 31
      → (c : ℕ) × (t : Pool) × (page_replacement w.pool ≡ some (c, t))
        × KeepsPool y i sup 0 Leaves
            (λ h a u. (h ≡ true) × Loaded y i p c a u)
            true
            w
            (page_in y i p w)
        × Asks (Reads p c) (page_in y i p w)
  unfolding page_in
  page_in-KeepsPool p w traced counter =
      let (c, t, e, lt, traced') = taken w.pool counter traced in
      let w' = record w { pool = t } in
      let Q = λ (h : Bool) (a : Unit {0}) (u : World). (h ≡ true) × Loaded y i p c a u in
      (
        c,
        t,
        e,
        elim (Bool-cases ((t.frame c).sw_asid == minus_one)) [
          | inl free ↦
              rw (take_frame_lem w c t e, free)
                (KeepsPool-swapped y i sup Leaves Q _ w w' (filled p c w' lt traced'))
          | inr used ↦
              let (j, known) = traced' c lt (ground (arith, used)) in
              rw (take_frame_lem w c t e, used)
                (KeepsPool-swapped y i sup Leaves Q _ w w' (
                  KeepsPool-held y i sup 0 Leaves (λ _ u. u.pool ≡ t) Q (write_to_device y c w') _
                    w'
                    (write_to_device-KeepsPool y i sup Leaves nonzero t traced' c w'
                      (j, (t.frame c).sw_page_no) refl known)
                    (λ _ u same. filled p c u lt (subst IsTraced (sym same) traced'))))
        ],
        rw (take_frame_lem w c t e) (Asks-and_then (Reads p c) _ _ (λ _ u. asks p c u)),
      )

-- Where the pager leaves, it loads the exception state that the nucleus has saved.
abbrev pub Retries : ℕ → Exit → World → Type 0
Retries sup e u = e ≡ ldst (except_state sup 0 u)

serve :
    (y : Layout) (i sup : ℕ) (w : World)
    → (sup == 0) ≡ false
    → y.support_index sup ≡ i
    → find_page_index (except_state sup 0 w).entry_hi < 32
    → KeepsPool {A = Unit {0}} y i sup 0 (Retries sup) (λ h a u. ⊥) false w (serve_fault y sup w)
unfolding serve_fault Follows
serve y i sup w nonzero index small = (
  refl,
  refl,
  λ r v a traced.
      let p = find_page_index (except_state sup 0 v).entry_hi in
      let lt : p < 32 = subst (λ x. find_page_index x.entry_hi < 32) (sym a.state) small in
      let in_table : ltb p 32 ≡ true = ground (arith, lt) in
      rw (in_table, index)
        (let (c, t, e, keeps, asked) =
            page_in-KeepsPool y i sup (Retries sup) nonzero p v traced (a.counter refl) in
          KeepsPool-held y i sup 0 (Retries sup) (Loaded y i p c) (λ h a u. ⊥) (page_in y i p v) _ v
            keeps (λ _ u loaded. (refl, loaded.traced, λ r1 v1 a1 _. (refl, refl, refl)))),
)

-- With a support structure, for a fault at a page of its table, the pager never returns, faults or
-- runs on: on every path it takes the semaphore of the swap pool once at a time, changes the pool and
-- the validity of its own pages only while it holds it, gives it back with every frame in use naming
-- an entry of the page that it records, and then either loads the saved exception state or ends the
-- process.
pub pager-KeepsPool :
    (y : Layout) (i sup : ℕ) (w : World)
    → (sup == 0) ≡ false
    → y.support_index sup ≡ i
    → find_page_index (except_state sup 0 w).entry_hi < 32
    → KeepsPool {A = Unit {0}} y i sup 0 (Retries sup) (λ h a u. ⊥) false w (pager y w)
unfolding pager pager_for program_trap Follows
pager-KeepsPool y i sup w nonzero index small = (
  refl,
  λ r v a kept.
      rw (a.pointer refl, nonzero)
        (elim (Bool-cases (bit_and (except_state sup 0 v).cause getexeccode == tlbinvldmod)) [
          | inl e ↦ rw e (terminate_sys-KeepsPool y i sup 0 (Retries sup) (λ h a u. ⊥) _ v nonzero)
          | inr e ↦ rw e (
              serve y i sup v nonzero index
                (subst (λ x. find_page_index x.entry_hi < 32) (sym a.state) small))
        ]),
)

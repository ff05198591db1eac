-- ===== src/Pager/Causes.antt =====
-- The cause of a TLB exception as the pager reads it.
use Prim.Native.Nat.{min, bit_and, bit_and-bitwise}
use progetto_sistemi_operati.Base.{ℕ, zero, suc, ◌%◌, ◌≡◌, refl, false, arith, ◌==◌}
use progetto_sistemi_operati.World.{World, Layout, except_state}
use progetto_sistemi_operati.Pager.{tlbinvldmod, serve_fault, pager_for}

bit_and_parity : (a b : ℕ) → bit_and a b % 2 ≡ min (a % 2) (b % 2)
bit_and_parity zero b = omega (arith, bit_and-bitwise zero b)
bit_and_parity (suc a) b = omega (arith, bit_and-bitwise (suc a) b)

-- Whatever the cause of the exception is, the pager brings a page in: the mask 0x7C that it lays over
-- the cause clears the lowest bit, so that the code 1, at which it would end the process, is never
-- found.
pub pager_for-serve_fault :
    (y : Layout) (sup : ℕ) (w : World) → pager_for y sup w ≡ serve_fault y sup w
unfolding pager_for
pager_for-serve_fault y sup w =
    let blind : (bit_and (except_state sup 0 w).cause 0x7C == tlbinvldmod) ≡ false =
      ground (arith, bit_and_parity (except_state sup 0 w).cause 0x7C) in
    rw blind refl

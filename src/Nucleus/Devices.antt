-- ===== src/Nucleus/Devices.antt =====
-- The semaphores of the devices: `findDeviceIndex` of phase2/functions.c at the addresses that
-- `calcDevAddr` of phase2/interrupts.c computes.
use progetto_sistemi_operati.Base.{
  ℕ, ◌+◌, ◌-◌, ◌*◌, ◌/◌, ◌%◌, ◌^◌, ◌<◌, ◌≤◌, ◌≡◌, ◌∙◌, ap, none, some, ◌⊎◌, inl, inr, arith, leb,
  if◌then◌else◌,
}
use progetto_sistemi_operati.Nucleus.Functions.{find_device_index}
use progetto_sistemi_operati.Nucleus.Platform.{start_devreg}
use progetto_sistemi_operati.Nucleus.Interrupts.{dev_addr}

bottom_of : (n : ℕ) → n < 0x400 → (start_devreg + n + 2 ^ 32 - start_devreg) % 2 ^ 32 ≡ n
bottom_of n h = omega arith

-- The semaphore's index by the distance from the first device register.
pub index_at : ℕ → ℕ
index_at n = if leb 0x200 n then 32 + (n - 0x200) / 8 else n / 0x10

find_device_index-index_at :
    (n : ℕ) → n < 0x288 → find_device_index (start_devreg + n) ≡ some (index_at n)
unfolding find_device_index index_at
find_device_index-index_at n h = rw (bottom_of n (omega arith)) (ground arith)

-- Every register of a disk, flash, network or printer device leads to the one semaphore of that
-- device, so that `DOIO`, which is given the command register, and the interrupt, which is given
-- the first register, agree.
pub find_device_index-dev_addr :
    (line dev off : ℕ)
    → 3 ≤ line
    → line ≤ 6
    → dev < 8
    → off < 0x10
    → find_device_index (dev_addr line dev + off) ≡ some (8 * (line - 3) + dev)
unfolding index_at
find_device_index-dev_addr line dev off lo hi d o =
    let n : ℕ = (line - 3) * 0x80 + dev * 0x10 + off in
    let e : dev_addr line dev + off ≡ start_devreg + n = omega arith in
    rw (e, find_device_index-index_at n (omega arith)) (ground arith)

-- A terminal has two: one for the registers of the receiver, one for those of the transmitter.
pub find_device_index-terminal :
    (dev off : ℕ)
    → dev < 8
    → off < 0x10
    → find_device_index (dev_addr 7 dev + off) ≡ some (32 + 2 * dev + off / 8)
unfolding index_at
find_device_index-terminal dev off d o =
    let n : ℕ = 0x200 + dev * 0x10 + off in
    let e : dev_addr 7 dev + off ≡ start_devreg + n = omega arith in
    rw (e, find_device_index-index_at n (omega arith)) (ground arith)

index_at-lt : (n : ℕ) → n < 0x288 → index_at n < 49
unfolding index_at
index_at-lt n h = ground arith

out_of_range : (a : ℕ) → a < 2 ^ 32 → start_devreg + 0x288 ≤ a → find_device_index a ≡ none
unfolding find_device_index
out_of_range a word high =
    let bottom : (a + 2 ^ 32 - start_devreg) % 2 ^ 32 ≡ a - start_devreg = omega arith in
    rw bottom (ground arith)

below_range : (a : ℕ) → a < start_devreg → find_device_index a ≡ none
unfolding find_device_index
below_range a low =
    let bottom : (a + 2 ^ 32 - start_devreg) % 2 ^ 32 ≡ a + 2 ^ 32 - start_devreg = omega arith in
    rw bottom (ground arith)

-- For every 32-bit address `findDeviceIndex` gives an index within the 49 entries of
-- `deviceSemaphore` exactly from the first device register to the 0x287th byte behind it, and -1
-- below and above: an index outside the array is never given.
pub find_device_index_bounds :
    (a : ℕ)
    → a < 2 ^ 32
    → (start_devreg ≤ a
        → a < start_devreg + 0x288
        → (k : ℕ) × (find_device_index a ≡ some k) × (k < 49))
      × ((a < start_devreg) ⊎ (start_devreg + 0x288 ≤ a) → find_device_index a ≡ none)
find_device_index_bounds a word = (
  λ from to.
      let e : a ≡ start_devreg + (a - start_devreg) = omega arith in
      (
        index_at (a - start_devreg),
        ap find_device_index e ∙ find_device_index-index_at (a - start_devreg) (omega arith),
        index_at-lt (a - start_devreg) (omega arith),
      ),
  λ out. elim out [ inl low ↦ below_range a low | inr high ↦ out_of_range a word high ],
)

-- ===== src/Klog/Bounds.antt =====
-- The functions of klog.c stay inside the buffer.
use progetto_sistemi_operati.Base.{
  ℕ, zero, suc, ◌+◌, ◌*◌, ◌/◌, ◌%◌, ◌^◌, ◌<◌, ◌≡◌, refl, Option, some, List, [], ◌∷◌, arith,
  for_range_inv, Bool-cases, inl, inr, ◌==◌, leb,
}
use progetto_sistemi_operati.Klog.{
  klog_lines, klog_line_size, Klog, and_then, write, put, next_line, next_char, put_char,
  klog_print, digit, print_digits, klog_print_dec, klog_print_hex,
}

-- The next write lands in the buffer.
pub record InBounds (k : Klog) : Type 0 where
  pub line : k.line_index < klog_lines
  pub char : k.char_index < klog_line_size

-- A run that returns, with the next write in the buffer.
abbrev pub IsSafe : Option Klog → Type 0
IsSafe r = (k : Klog) × (r ≡ some k) × InBounds k

IsSafe-and_then :
    (r : Option Klog) (f : Klog → Option Klog)
    → IsSafe r
    → ((k : Klog) → InBounds k → IsSafe (f k))
    → IsSafe (and_then r f)
IsSafe-and_then r f (k, e, b) next = rw e (next k b)

pub next_line-indices :
    (k : Klog)
    → ((next_line k).line_index ≡ (k.line_index + 1) % 2 ^ 32 % klog_lines)
      × ((next_line k).char_index ≡ 0)
unfolding next_line
next_line-indices k =
    let l = (k.line_index + 1) % 2 ^ 32 % klog_lines in
    for_range_inv (λ _ (j : Klog). (j.line_index ≡ l) × (j.char_index ≡ 0)) (λ i. write l i 32)
      (λ i s h. h) klog_line_size 0 klog_line_size (record k { line_index = l; char_index = 0 })
      (omega arith) (refl, refl)

pub next_line-InBounds : (k : Klog) → InBounds (next_line k)
next_line-InBounds k = record {
  line = rw (next_line-indices k).0 (omega arith);
  char = rw (next_line-indices k).1 (omega arith);
}

pub next_char-InBounds : (k : Klog) → InBounds k → InBounds (next_char k)
unfolding next_char
next_char-InBounds k b =
    ground (arith, b.line, b.char, next_line-InBounds (record k { char_index = 0 }))

pub put-IsSafe : (x : ℕ) (k : Klog) → InBounds k → IsSafe (put x k)
unfolding put
put-IsSafe x k b =
    let e : put x k ≡ some (write k.line_index k.char_index x k) = ground (arith, b.line, b.char) in
    (_, e, record { line = b.line; char = b.char })

pub put_char-IsSafe : (x : ℕ) (k : Klog) → InBounds k → IsSafe (put_char x k)
put_char-IsSafe x k b =
    IsSafe-and_then (put x k) _ (put-IsSafe x k b)
      (λ j c. (next_char j, refl, next_char-InBounds j c))

-- From within the buffer `klog_print` prints every string without a write outside of it.
pub klog_print-IsSafe : (xs : List ℕ) (k : Klog) → InBounds k → IsSafe (klog_print xs k)
unfolding klog_print
klog_print-IsSafe [] k b = (k, refl, b)
klog_print-IsSafe (x ∷ xs) k b =
    IsSafe-and_then _ (klog_print xs)
      (elim (Bool-cases (x == 10)) [
        | inl e ↦ rw e (next_line k, refl, next_line-InBounds k)
        | inr e ↦ rw e (put_char-IsSafe x k b)
      ])
      (klog_print-IsSafe xs)

-- A base by which division at least halves.
abbrev pub Halves : ℕ → Type 0
Halves base = (n p : ℕ) → n < 2 * p → n / base < p

-- The rounds from a number that is not 0 are safe.
abbrev pub RestIsSafe : ℕ → ℕ → Type 0
RestIsSafe f base =
    (n : ℕ) (k : Klog) → suc n < 2 ^ f → InBounds k → IsSafe (print_digits f base (suc n) k)

print_digits-IsSafe :
    (f base num : ℕ) (k : Klog)
    → Halves base
    → RestIsSafe f base
    → num < 2 ^ suc f
    → InBounds k
    → IsSafe (print_digits (suc f) base num k)
unfolding print_digits
print_digits-IsSafe f base num k halves next lt b =
    IsSafe-and_then (put_char (digit (num % base)) k) _ (put_char-IsSafe _ k b)
      (print_rest (num / base) (halves num (2 ^ f) (omega arith)))
  where
    print_rest :
        (q : ℕ)
        → q < 2 ^ f
        → (j : Klog) → InBounds j
        → IsSafe (elim q [ zero ↦ some j | suc n ↦ print_digits f base (suc n) j ])
    print_rest zero l j c = (j, refl, c)
    print_rest (suc n) l j c = next n j l c

rest-IsSafe : (f base : ℕ) → Halves base → RestIsSafe f base
rest-IsSafe zero base halves n k lt b = absurd (omega arith)
rest-IsSafe (suc f) base halves n k lt b =
    print_digits-IsSafe f base (suc n) k halves (rest-IsSafe f base halves) lt b

-- From within the buffer `klog_print_dec` and `klog_print_hex` print every 32-bit number: the loops
-- end, and no write lands outside of the buffer.
pub klog_print_number-IsSafe :
    (num : ℕ) (k : Klog)
    → num < 2 ^ 32
    → InBounds k
    → IsSafe (klog_print_dec num k) × IsSafe (klog_print_hex num k)
unfolding klog_print_dec klog_print_hex
klog_print_number-IsSafe num k lt b = (
  elim (Bool-cases (leb 10 num)) [
    | inl e ↦ rw e (
        print_digits-IsSafe 31 10 num k (λ n p l. omega arith)
          (rest-IsSafe 31 10 (λ n p l. omega arith)) lt b)
    | inr e ↦ rw e (
        IsSafe-and_then (put_char (digit (num / 10 % 10)) k) _ (put_char-IsSafe _ k b)
          (put_char-IsSafe _))
  ],
  print_digits-IsSafe 31 16 num k (λ n p l. omega arith) (rest-IsSafe 31 16 (λ n p l. omega arith))
      lt b,
)

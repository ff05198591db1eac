-- ===== src/Klog/Digits.antt =====
-- What `klog_print_dec` and `klog_print_hex` of klog.c leave in the line.
use progetto_sistemi_operati.Base.{
  ℕ, zero, suc, ◌+◌, ◌*◌, ◌/◌, ◌%◌, ◌<◌, ◌≤◌, ◌≡◌, refl, some, arith, true, false, leb,
}
use progetto_sistemi_operati.Klog.{
  klog_lines, klog_line_size, Klog, write, put, next_char, put_char, digit, print_digits,
  klog_print_dec,
}

-- The buffer behind a character that does not end its line.
abbrev pub typed : ℕ → Klog → Klog
typed x k = record (write k.line_index k.char_index x k) { char_index = k.char_index + 1 }

put_char-typed :
    (x : ℕ) (k : Klog)
    → k.line_index < klog_lines
    → k.char_index + 1 < klog_line_size
    → put_char x k ≡ some (typed x k)
unfolding put next_char
put_char-typed x k l c = ground (arith, l, c)

print_digits-one :
    (f base num : ℕ) (k : Klog)
    → k.line_index < klog_lines
    → k.char_index + 1 < klog_line_size
    → num / base ≡ 0
    → print_digits (suc f) base num k ≡ some (typed (digit (num % base)) k)
unfolding print_digits
print_digits-one f base num k l c e = rw (put_char-typed (digit (num % base)) k l c, e) refl

print_digits-two :
    (f base num n : ℕ) (k : Klog)
    → k.line_index < klog_lines
    → k.char_index + 2 < klog_line_size
    → num / base ≡ suc n
    → suc n / base ≡ 0
    → print_digits (suc (suc f)) base num k
      ≡ some (typed (digit (suc n % base)) (typed (digit (num % base)) k))
unfolding print_digits
print_digits-two f base num n k l c e z =
    rw (put_char-typed (digit (num % base)) k l (omega arith), e)
      (print_digits-one f base (suc n) (typed (digit (num % base)) k) l (omega arith) z)

print_dec_small :
    (units : ℕ) (k : Klog)
    → units < 10
    → k.line_index < klog_lines
    → k.char_index + 2 < klog_line_size
    → klog_print_dec units k ≡ some (typed (digit units) (typed (digit 0) k))
unfolding klog_print_dec
print_dec_small units k u l c =
    let small : leb 10 units ≡ false = ground (arith, u) in
    let tens : units / 10 % 10 ≡ 0 = omega arith in
    let same : units % 10 ≡ units = omega arith in
    rw (
      small,
      tens,
      same,
      put_char-typed (digit 0) k l (omega arith),
      put_char-typed (digit units) (typed (digit 0) k) l (omega arith),
    )

-- Where two characters fit in the line, `klog_print_dec` writes a number of two digits with its
-- units first, and a number below 10 with a leading zero.
pub klog_print_dec-order :
    (tens units : ℕ) (k : Klog)
    → tens < 10
    → units < 10
    → k.line_index < klog_lines
    → k.char_index + 2 < klog_line_size
    → (1 ≤ tens
        → klog_print_dec (10 * tens + units) k ≡ some (typed (digit tens) (typed (digit units) k)))
      × (klog_print_dec units k ≡ some (typed (digit units) (typed (digit 0) k)))
unfolding klog_print_dec
klog_print_dec-order zero units k t u l c =
    (λ le. absurd (omega arith), print_dec_small units k u l c)
klog_print_dec-order (suc n) units k t u l c = (
  λ le.
      let big : leb 10 (10 * suc n + units) ≡ true = ground arith in
      let low : (10 * suc n + units) % 10 ≡ units = omega arith in
      let high : suc n % 10 ≡ suc n = omega arith in
      rw big (
        rw (low, high) at
          (print_digits-two 30 10 (10 * suc n + units) n k l c (omega arith) (omega arith))),
  print_dec_small units k u l c,
)

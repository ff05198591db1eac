-- ===== src/Klog.antt =====
-- klog.c: the circular log buffer. A character is its code; a write outside the buffer gives
-- `none`, and so does a loop that runs out of fuel.
pub mod Bounds
pub mod Digits
use progetto_sistemi_operati.Base.{
  ℕ, zero, suc, ◌+◌, ◌/◌, ◌%◌, ◌^◌, Option, none, some, List, [], ◌∷◌, ◌==◌, if◌then◌else◌, ltb,
  leb, for_range,
}

abbrev pub klog_lines : ℕ
klog_lines = 64

abbrev pub klog_line_size : ℕ
klog_line_size = 42

pub record Klog : Type 0 where
  pub line_index : ℕ
  pub char_index : ℕ
  pub buffer : ℕ → ℕ → ℕ

abbrev pub and_then : Option Klog → (Klog → Option Klog) → Option Klog
and_then none f = none
and_then (some k) f = f k

-- `klog_buffer[l][c] = x`
abbrev pub write : ℕ → ℕ → ℕ → Klog → Klog
write l c x k = record k {
  buffer = λ i j. if i == l then (if j == c then x else k.buffer i j) else k.buffer i j;
}

-- `klog_buffer[klog_line_index][klog_char_index] = x`
unfoldable pub put : ℕ → Klog → Option Klog
put x k =
    if ltb k.line_index klog_lines
    then (if ltb k.char_index klog_line_size
        then some (write k.line_index k.char_index x k)
        else none)
    else none

-- The new line is filled with spaces.
unfoldable pub next_line : Klog → Klog
next_line k =
    let l = (k.line_index + 1) % 2 ^ 32 % klog_lines in
    for_range klog_line_size 0 (λ i. write l i 32) (record k { line_index = l; char_index = 0 })

unfoldable pub next_char : Klog → Klog
next_char k =
    let c = (k.char_index + 1) % 2 ^ 32 in
    if leb klog_line_size c
    then next_line (record k { char_index = 0 })
    else record k { char_index = c }

abbrev pub put_char : ℕ → Klog → Option Klog
put_char x k = and_then (put x k) (λ k. some (next_char k))

-- The string without the zero that ends it.
unfoldable pub klog_print : List ℕ → Klog → Option Klog
klog_print [] k = some k
klog_print (x ∷ xs) k =
    and_then (if x == 10 then some (next_line k) else put_char x k) (klog_print xs)

-- `digits[d]`
abbrev pub digit : ℕ → ℕ
digit d = if ltb d 10 then 48 + d else 55 + d

-- The loop that prints a number's digits, the last one first.
unfoldable pub print_digits : ℕ → ℕ → ℕ → Klog → Option Klog
print_digits zero base num k = none
print_digits (suc fuel) base num k =
    and_then (put_char (digit (num % base)) k)
      (λ k. elim (num / base) [ zero ↦ some k | suc n ↦ print_digits fuel base (suc n) k ])

-- A 32-bit number has at most 32 digits in any base.
unfoldable pub klog_print_dec : ℕ → Klog → Option Klog
klog_print_dec num k =
    if leb 10 num
    then print_digits 32 10 num k
    else and_then (put_char (digit (num / 10 % 10)) k) (put_char (digit (num % 10)))

unfoldable pub klog_print_hex : ℕ → Klog → Option Klog
klog_print_hex num k = print_digits 32 16 num k

-- ===== src/Programs/Prints.antt =====
-- testers/print.c and the programs that print by it: fibEight.c, fibEleven.c, uname.c, date.c, sl.c
-- and echo.c.
use progetto_sistemi_operati.Base.{
  ℕ, zero, suc, ◌+◌, ◌%◌, ◌^◌, Option, none, some, List, [], ◌∷◌, ◌++◌, ◌==◌, ltb, leb,
  if◌then◌else◌,
}
use progetto_sistemi_operati.Process.{ret, fault, pure, ask, call, ◌>>=◌, ◌>>◌}
use progetto_sistemi_operati.Programs.{write, read, Buffer, Program, codes, quit}

-- `print` of the characters `str`. Its message is written with the length 26, one more than its 24
-- characters and the NUL: `beyond` is what stands behind the literal in memory.
unfoldable pub print : ℕ → List ℕ → Program (Unit {0})
print beyond str = do
  status ← ask (write str)
  if leb (2 ^ 31) status
      then (call (write (codes "Bad device write status\n" ++ 0 ∷ beyond ∷ [])) >> quit)
      else pure tt

-- `fib`, which does not return for 0.
unfoldable pub fib : ℕ → Option ℕ
fib zero = none
fib (suc zero) = some 1
fib (suc (suc zero)) = some 1
fib (suc (suc (suc n))) = elim (fib (suc (suc n))) [
  | none ↦ none
  | some a ↦ elim (fib (suc n)) [ none ↦ none | some b ↦ some ((a + b) % 2 ^ 32) ]
]

-- The programs that compute `fib(n)` and compare it with `value`.
unfoldable pub fib_test : ℕ → List ℕ → ℕ → ℕ → Program (Unit {0})
fib_test beyond title n value = do
  print beyond title
  i ← λ u. elim (fib n) [ none ↦ fault | some i ↦ ret i u ]
  print beyond (codes "Recursion Concluded\n")
  if i == value
      then print beyond (codes "Recursion Concluded Successfully\n")
      else print beyond (codes "ERROR: Recursion problems\n")
  quit

abbrev pub fib_eight : ℕ → Program (Unit {0})
fib_eight beyond = fib_test beyond (codes "Recursive Fibanaci (8) Test starts\n") 8 21

abbrev pub fib_eleven : ℕ → Program (Unit {0})
fib_eleven beyond = fib_test beyond (codes "Recursive Fibanaci (11) Test starts\n") 11 89

unfoldable pub uname : ℕ → Program (Unit {0})
uname beyond = do print beyond (codes "PandOSsh\n"); quit

unfoldable pub date : ℕ → Program (Unit {0})
date beyond = do print beyond (codes "Sat  5 Nov 06:15:00 PST 1955\n"); quit

unfoldable pub sl : ℕ → Program (Unit {0})
sl beyond = do
  print beyond (codes "     ++      +------ \n")
  print beyond (codes "     ||      |+-+ |  \n")
  print beyond (codes "   /---------|| | |  \n")
  print beyond (codes "  + ========  +-+ |  \n")
  print beyond (codes " _|--O========O~\\-+ \n")
  print beyond (codes "//// \\_/      \\_/  \n")
  quit

-- The characters of an array before its NUL, of which `n` are left.
unfoldable pub before_nul : ℕ → Buffer → ℕ → Option (List ℕ)
before_nul zero u i = none
before_nul (suc n) u i =
    let rest = before_nul n u (i + 1) in
    if u i == 0 then some [] else elim rest [ none ↦ none | some xs ↦ some (u i ∷ xs) ]

-- The array has 15 characters; the status of the read is the index of the NUL that ends the line.
unfoldable pub echo : ℕ → Program (Unit {0})
echo beyond = do
  print beyond (codes "Enter a string: ")
  status ← ask read
  λ u. if ltb status 15 then ret tt (λ k. if status == k then 0 else u k) else fault
  print beyond (10 ∷ [])
  λ u. elim (before_nul 15 u 0) [ none ↦ fault | some xs ↦ print beyond xs u ]
  print beyond (10 ∷ [])
  quit

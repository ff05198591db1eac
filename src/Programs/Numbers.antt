-- ===== src/Programs/Numbers.antt =====
-- The calculator of testers/calc.c and the numbers that it prints.
use progetto_sistemi_operati.Base.{
  ℕ, ◌+◌, ◌-◌, ◌*◌, ◌/◌, ◌%◌, ◌^◌, ◌≤◌, ◌<◌, ◌≡◌, refl, Bool, true, false, List, [], ◌∷◌, ◌==◌, ltb,
  if◌then◌else◌, arith, ◌⊎◌, inl, inr, Bool-cases, ◌||◌, ◌&&◌, Option, none, some, leb,
}
use mathlib.Core.Option
use native.Mathlib.Nat.{mul-le-mul, div-le_self}
use progetto_sistemi_operati.Programs.{
  write, read, terminate, Buffer, codes, int_to_str, calculate, calc, play,
}

-- The number that decimal digits before a newline stand for, and a number with its sign.
abbrev pub digits_value : ℕ → List ℕ → Option ℕ
digits_value acc [] = none
digits_value acc (c ∷ cs) =
    if c == 10
    then some acc
    else if leb 48 c && leb c 57
    then digits_value (acc * 10 + (c - 48)) cs
    else none

abbrev pub number : List ℕ → Option (Bool × ℕ)
number [] = none
number (c ∷ cs) =
    if c == 45
    then Option.map (λ n. (true, n)) (digits_value 0 cs)
    else Option.map (λ n. (false, n)) (digits_value 0 (c ∷ cs))

int_to_str-number : (m : ℕ) → m < 100 → number (int_to_str m) ≡ some (false, m)
unfolding int_to_str
int_to_str-number m lt = ground arith

int_to_str-negative : (m : ℕ) → 1 ≤ m → m < 10 → number (int_to_str (2 ^ 32 - m)) ≡ some (true, m)
unfolding int_to_str
int_to_str-negative m lo lt = ground arith

-- What the calculator has to print for the digits `a` and `b` and an operator: a message or a number.
abbrev pub expected : ℕ → ℕ → ℕ → List ℕ ⊎ (Bool × ℕ)
expected op a b =
    if op == 43
    then inr (false, a + b)
    else if op == 45
    then inr (if ltb a b then (true, b - a) else (false, a - b))
    else if op == 42
    then inr (false, a * b)
    else if op == 47
    then (if b == 0 then inl (codes "Div 0\n") else inr (false, a / b))
    else inl (codes "Errore\n")

abbrev pub Shows : List ℕ ⊎ (Bool × ℕ) → List ℕ → Type 0
Shows (inl message) xs = xs ≡ message
Shows (inr n) xs = number xs ≡ some n

minus-number :
    (a b : ℕ)
    → a < 10
    → b < 10
    → number (int_to_str ((a + 2 ^ 32 - b) % 2 ^ 32))
      ≡ some (if ltb a b then (true, b - a) else (false, a - b))
minus-number a b la lb = elim (Bool-cases (ltb a b)) [
  | inl e ↦
      let at : (a + 2 ^ 32 - b) % 2 ^ 32 ≡ 2 ^ 32 - (b - a) = ground arith in
      rw (at, e) (int_to_str-negative (b - a) (ground arith) (omega arith))
  | inr e ↦
      let at : (a + 2 ^ 32 - b) % 2 ^ 32 ≡ a - b = ground arith in
      rw (at, e) (int_to_str-number (a - b) (omega arith))
]

-- What the calculator prints behind its prompt, given a line.
abbrev pub Prints : List (List ℕ) → Buffer → List ℕ → List ℕ → Type 0
Prints ls u line xs =
    play (line ∷ ls) (calc u) ≡ write (codes "Calc> ") ∷ read ∷ write xs ∷ terminate ∷ []

-- For two digits with a character between them, the calculator reads the line, prints once and ends:
-- the decimal sum, difference (with its sign), product or quotient for the operators +, -, * and /,
-- the message on a division by zero, and an error message for any other character.
pub calc_lem :
    (ls : List (List ℕ)) (u : Buffer) (a op b : ℕ)
    → a < 10
    → b < 10
    → (xs : List ℕ) × Prints ls u ((48 + a) ∷ op ∷ (48 + b) ∷ 10 ∷ []) xs
      × Shows (expected op a b) xs
unfolding calc calculate play
calc_lem ls u a op b la lb =
    let digits : (ltb (48 + a) 48 || ltb 57 (48 + a) || ltb (48 + b) 48 || ltb 57 (48 + b))
        ≡ false =
      ground arith in
    let ea : 48 + a - 48 ≡ a = omega arith in
    let eb : 48 + b - 48 ≡ b = omega arith in
    elim (Bool-cases (op == 43)) [
      | inl e ↦ (
        int_to_str (a + b),
        rw (digits, ea, eb, e) refl,
        rw e (int_to_str-number (a + b) (omega arith)),
      )
      | inr e1 ↦ elim (Bool-cases (op == 45)) [
        | inl e ↦ (
          int_to_str ((a + 2 ^ 32 - b) % 2 ^ 32),
          rw (digits, ea, eb, e1, e) refl,
          rw (e1, e) (minus-number a b la lb),
        )
        | inr e2 ↦ elim (Bool-cases (op == 42)) [
          | inl e ↦ (
            int_to_str (a * b),
            rw (digits, ea, eb, e1, e2, e) refl,
            rw (e1, e2, e) (int_to_str-number (a * b) (product a b la lb)),
          )
          | inr e3 ↦ elim (Bool-cases (op == 47)) [
            | inr e ↦
                (codes "Errore\n", rw (digits, ea, eb, e1, e2, e3, e) refl, rw (e1, e2, e3, e) refl)
            | inl e ↦ elim (Bool-cases (b == 0)) [
              | inl z ↦ (
                codes "Div 0\n",
                rw (digits, ea, eb, e1, e2, e3, e, z) refl,
                rw (e1, e2, e3, e, z) refl,
              )
              | inr z ↦ (
                int_to_str (a / b),
                rw (digits, ea, eb, e1, e2, e3, e, z) refl,
                rw (e1, e2, e3, e, z) (int_to_str-number (a / b) (omega (arith, div-le_self a b))),
              )
            ]
          ]
        ]
      ]
    ]
  where
    product : (a b : ℕ) → a < 10 → b < 10 → a * b < 100
    product a b la lb =
        let la' : a ≤ 9 = omega arith in
        let lb' : b ≤ 9 = omega arith in
        let le : a * b ≤ 9 * 9 = mul-le-mul la' lb' in omega (arith, le)

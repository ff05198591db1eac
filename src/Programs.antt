-- ===== src/Programs.antt =====
-- The user programs in testers, which act by the system calls of the support level.
pub mod Lines
pub mod Numbers
pub mod Prints
use Prim.Native.Char.{code}
use Prim.Native.String.{String}
use progetto_sistemi_operati.Base.{
  ℕ, zero, suc, ◌+◌, ◌-◌, ◌*◌, ◌/◌, ◌%◌, ◌^◌, Bool, true, false, not, ◌&&◌, ◌||◌, Option, none,
  some, List, [], ◌∷◌, ◌++◌, length, ◌==◌, ltb, leb, if◌then◌else◌,
}
use progetto_sistemi_operati.Process.{
  Tree, Proc, ret, perform, leave, fault, out_of_fuel, pure, modify, ask, call, ◌>>=◌, ◌>>◌,
}

-- A system call: `write` sends the characters that its array begins with, `read` fills the buffer of
-- the program, which is its memory, with a line, and `execute` starts the program of a number.
pub data Call : Type 0 where
  write : List ℕ → Call
  read terminate : Call
  execute : ℕ → Call

abbrev pub Buffer : Type 0
Buffer = ℕ → ℕ

abbrev pub Program : Type 0 → Type 0
Program A = Proc Call Buffer A

-- The characters of a literal, and an array that begins with them and ends with NUL.
abbrev pub codes : String → List ℕ
codes String.[] = []
codes (String.◌∷◌ c s) = code c ∷ codes s

abbrev pub cell : List ℕ → Buffer
cell [] k = 0
cell (x ∷ xs) zero = x
cell (x ∷ xs) (suc k) = cell xs k

-- The loops `for(int i = 0; i < 128; i++) input[i] = '\0';`
abbrev pub clear : Buffer → Buffer
clear u k = if ltb k 128 then 0 else u k

-- `TERMINATE`, which does not return.
abbrev pub quit : {A : Type 0} → Program A
quit u = perform terminate u (λ _ _. fault)

abbrev pub ended : ℕ → Bool
ended c = c == 0 || c == 10

-- `str_uguali` from the character `i`; the second string bounds the rounds.
unfoldable pub str_uguali : ℕ → Buffer → Buffer → ℕ → Option Bool
str_uguali zero a b i = none
str_uguali (suc n) a b i =
    let rest = str_uguali n a b (i + 1) in
    if not (ended (a i)) && not (ended (b i))
    then (if a i == b i then rest else some false)
    else some (ended (a i) && ended (b i))

-- `if (str_uguali(inputBuffer, name)) hit else miss`
unfoldable pub on_line : List ℕ → Program (Unit {0}) → Program (Unit {0}) → Program (Unit {0})
on_line name hit miss u = elim (str_uguali (suc (length name)) u (cell name) 0) [
  | none ↦ out_of_fuel
  | some same ↦ if same then hit u else miss u
]

-- The answer of the shell to a line.
unfoldable pub command : Program (Unit {0})
command = on_line (codes "exit") quit (
    on_line (codes "fibEight") (call (execute 2)) (
      on_line (codes "echo") (call (execute 3)) (
        on_line (codes "fibEleven") (call (execute 4)) (
          on_line (codes "uname") (call (execute 5)) (
            on_line (codes "date") (call (execute 6)) (
              on_line (codes "sl") (call (execute 7)) (
                on_line (codes "calc") (call (execute 8))
                  (on_line [] (pure tt) (call (write (codes "Comando non trovato\n")))))))))))

-- The loop of the shell, for a number of rounds.
unfoldable pub shell : ℕ → Program (Unit {0})
shell zero = λ u. out_of_fuel
shell (suc rounds) = do
  modify clear
  call (write (codes "PandOS> "))
  call read
  command
  shell rounds

-- The characters that `int_to_str` puts into its array before the NUL; `num` is a 32-bit pattern.
unfoldable pub int_to_str : ℕ → List ℕ
int_to_str num =
    let negative = leb (2 ^ 31) num in
    let n = if negative then (2 ^ 32 - num) % 2 ^ 32 else num in
    let digits =
      if ltb 9 n
      then (n / 10 + 48) % 2 ^ 8 ∷ (n % 10 + 48) % 2 ^ 8 ∷ []
      else (n + 48) % 2 ^ 8 ∷ [] in
    (if negative then 45 ∷ digits else digits) ++ 10 ∷ []

-- The steps 2 to 4 of the calculator: two digits with an operator between them.
unfoldable pub calculate : Program ℕ
calculate u =
    if ltb (u 0) 48 || ltb 57 (u 0) || ltb (u 2) 48 || ltb 57 (u 2)
    then (call (write (codes "Errore\n")) >> quit) u
    else let n1 = u 0 - 48 in
      let n2 = u 2 - 48 in
      if u 1 == 43
      then ret (n1 + n2) u
      else if u 1 == 45
      then ret ((n1 + 2 ^ 32 - n2) % 2 ^ 32) u
      else if u 1 == 42
      then ret (n1 * n2) u
      else if u 1 == 47
      then (if n2 == 0 then (call (write (codes "Div 0\n")) >> quit) u else ret (n1 / n2) u)
      else (call (write (codes "Errore\n")) >> quit) u

unfoldable pub calc : Program (Unit {0})
calc = do
  modify clear
  call (write (codes "Calc> "))
  call read
  res ← calculate
  call (write (int_to_str res))
  quit

-- The buffer behind the read of a line.
abbrev pub received : List ℕ → Buffer → Buffer
received l u k = if ltb k (length l) then cell l k else u k

-- The calls of a program that reads these lines, each with its newline. It waits where no line is left.
unfoldable pub play : {A : Type 0} → List (List ℕ) → Tree Call Buffer A → List Call
play ls (ret a u) = []
play ls (leave e u) = []
play ls fault = []
play ls out_of_fuel = []
play ls (perform (write xs) u next) = write xs ∷ play ls (next (length xs) u)
play [] (perform read u next) = read ∷ []
play (l ∷ ls) (perform read u next) = read ∷ play ls (next (length l) (received l u))
play ls (perform terminate u next) = terminate ∷ []
play ls (perform (execute n) u next) = execute n ∷ play ls (next 0 u)

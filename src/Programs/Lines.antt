-- ===== src/Programs/Lines.antt =====
-- The shell of testers/shell.c and the lines that it is given.
use progetto_sistemi_operati.Base.{
  ℕ, suc, ◌+◌, ◌≤◌, ◌<◌, ◌≡◌, refl, ◌∙◌, ap, Bool, true, false, not, ◌&&◌, Option, none, some, List,
  [], ◌∷◌, ◌++◌, length, All, ◌==◌, if◌then◌else◌, arith, Bool-cases, inl, inr,
}
use progetto_sistemi_operati.Process.{Tree, and_then, call, pure}
use progetto_sistemi_operati.Programs.{
  Call, write, read, terminate, execute, Buffer, codes, cell, clear, ended, str_uguali, on_line,
  command, shell, received, play, Program, quit,
}

-- Two lists of characters are the same.
abbrev pub same : List ℕ → List ℕ → Bool
same [] [] = true
same [] (y ∷ ys) = false
same (x ∷ xs) [] = false
same (x ∷ xs) (y ∷ ys) = if x == y then same xs ys else false

-- A character that does not end a line.
abbrev pub IsPlain : ℕ → Type 0
IsPlain c = ended c ≡ false

-- `str_uguali` compares what is left of a line with what is left of a name.
str_uguali-same :
    (l name : List ℕ) (a b : Buffer) (i : ℕ)
    → All IsPlain l
    → All IsPlain name
    → ((k : ℕ) → k ≤ length l → a (i + k) ≡ cell (l ++ 10 ∷ []) k)
    → ((k : ℕ) → b (i + k) ≡ cell name k)
    → str_uguali (suc (length name)) a b i ≡ some (same l name)
unfolding str_uguali
str_uguali-same [] [] a b i pl pn ha hb =
    let a0 : a i ≡ 10 = ap a (omega arith) ∙ ha 0 (omega arith) in
    let b0 : b i ≡ 0 = ap b (omega arith) ∙ hb 0 in rw (a0, b0) refl
str_uguali-same [] (y ∷ ys) a b i pl pn ha hb =
    let a0 : a i ≡ 10 = ap a (omega arith) ∙ ha 0 (omega arith) in
    let b0 : b i ≡ y = ap b (omega arith) ∙ hb 0 in rw (a0, b0, pn.0) refl
str_uguali-same (x ∷ xs) [] a b i pl pn ha hb =
    let a0 : a i ≡ x = ap a (omega arith) ∙ ha 0 (omega arith) in
    let b0 : b i ≡ 0 = ap b (omega arith) ∙ hb 0 in rw (a0, b0, pl.0) refl
str_uguali-same (x ∷ xs) (y ∷ ys) a b i pl pn ha hb =
    let a0 : a i ≡ x = ap a (omega arith) ∙ ha 0 (omega arith) in
    let b0 : b i ≡ y = ap b (omega arith) ∙ hb 0 in
    let rest =
      str_uguali-same xs ys a b (i + 1) pl.1 pn.1
        (λ k le. ap a (omega arith) ∙ ha (suc k) (omega (arith, le)))
        (λ k. ap b (omega arith) ∙ hb (suc k)) in
    elim (Bool-cases (x == y)) [
      | inl e ↦ rw (a0, b0, pl.0, pn.0, e, rest) refl
      | inr e ↦ rw (a0, b0, pl.0, pn.0, e) refl
    ]

abbrev is_plain : List ℕ → Bool
is_plain [] = true
is_plain (x ∷ xs) = not (ended x) && is_plain xs

is_plain-IsPlain : (xs : List ℕ) → is_plain xs ≡ true → All IsPlain xs
is_plain-IsPlain [] e = tt
is_plain-IsPlain (x ∷ xs) e = elim (Bool-cases (ended x)) [
  | inl b ↦ absurd (ground (arith, b, e))
  | inr b ↦ (b, is_plain-IsPlain xs (rw b at e))
]

-- What the shell answers to each line; the empty line has no answer.
abbrev pub commands : List (List ℕ × Option Call)
commands =
    (codes "exit", some terminate)
    ∷ (codes "fibEight", some (execute 2))
    ∷ (codes "echo", some (execute 3))
    ∷ (codes "fibEleven", some (execute 4))
    ∷ (codes "uname", some (execute 5))
    ∷ (codes "date", some (execute 6))
    ∷ (codes "sl", some (execute 7))
    ∷ (codes "calc", some (execute 8))
    ∷ ([], none)
    ∷ []

abbrev pub choose : List ℕ → List (List ℕ × Option Call) → Option Call
choose l [] = some (write (codes "Comando non trovato\n"))
choose l (c ∷ cs) = if same l c.0 then c.1 else choose l cs

-- The calls from the answer on; behind `TERMINATE` there are none.
abbrev pub carry : Option Call → List Call → List Call
carry none cs = cs
carry (some terminate) cs = terminate ∷ []
carry (some c) cs = c ∷ cs

received-cell :
    (l : List ℕ) (u : Buffer) (k : ℕ)
    → k ≤ length l
    → received (l ++ 10 ∷ []) u k ≡ cell (l ++ 10 ∷ []) k
received-cell l u k le = ground (arith, length-line l)
  where
    length-line : (l : List ℕ) → length (l ++ 10 ∷ []) ≡ suc (length l)
    length-line [] = refl
    length-line (x ∷ xs) = ap suc (length-line xs)

module _ (l : List ℕ) (plain : All IsPlain l) (ls : List (List ℕ)) (u : Buffer)
    (k : Unit {0} → Buffer → Tree Call Buffer (Unit {0})) (rest : List Call) where
  abbrev line : Buffer
  line = received (l ++ 10 ∷ []) u

  on_line-same :
      (name : List ℕ) (hit miss : Program (Unit {0}))
      → All IsPlain name
      → on_line name hit miss line ≡ (if same l name then hit line else miss line)
  unfolding on_line
  on_line-same name hit miss pn =
      let e =
        str_uguali-same l name line (cell name) 0 plain pn
          (λ j le. ap line (omega arith) ∙ received-cell l u j le)
          (λ j. ap (cell name) (omega arith)) in
      rw (e, on_line) refl

  on_line_lem :
      (name : List ℕ) (act : Option Call) (hit miss : Program (Unit {0}))
      (cs : List (List ℕ × Option Call))
      → is_plain name ≡ true
      → play ls (and_then (hit line) k) ≡ carry act rest
      → play ls (and_then (miss line) k) ≡ carry (choose l cs) rest
      → play ls (and_then (on_line name hit miss line) k) ≡ carry (choose l ((name, act) ∷ cs)) rest
  on_line_lem name act hit miss cs pn h m =
      let e = on_line-same name hit miss (is_plain-IsPlain name pn) in
      elim (Bool-cases (same l name)) [ inl b ↦ rw (e, b) h | inr b ↦ rw (e, b) m ]

  -- A command that starts a program.
  started :
      (name : List ℕ) (n : ℕ) (p : Program (Unit {0})) (cs : List (List ℕ × Option Call))
      → is_plain name ≡ true
      → play ls (k tt line) ≡ rest
      → play ls (and_then (p line) k) ≡ carry (choose l cs) rest
      → play ls (and_then (on_line name (call (execute n)) p line) k)
        ≡ carry (choose l ((name, some (execute n)) ∷ cs)) rest
  unfolding play
  started name n p cs plain_n e m =
      on_line_lem name (some (execute n)) (call (execute n)) p cs plain_n
        (ap (λ r. execute n ∷ r) e) m

-- For a line of up to 127 characters and its newline, the shell prints its prompt, reads the line
-- and makes exactly the call of the first command in the table whose name is the line: for `exit` it
-- ends, and an empty line has no answer. A line that is no command gets an error message. Then, but
-- for `exit`, it goes on with the lines that are left.
pub shell_lem :
    (rounds : ℕ) (l : List ℕ) (ls : List (List ℕ)) (u : Buffer)
    → All IsPlain l
    → length l < 128
    → play ((l ++ 10 ∷ []) ∷ ls) (shell (suc rounds) u)
      ≡ write (codes "PandOS> ")
        ∷ read
        ∷ carry (choose l commands) (play ls (shell rounds (received (l ++ 10 ∷ []) (clear u))))
unfolding shell command play
shell_lem rounds l ls u plain fits =
    let v = clear u in
    let k : Unit {0} → Buffer → Tree Call Buffer (Unit {0}) = λ _ w. shell rounds w in
    let rest = play ls (shell rounds (received (l ++ 10 ∷ []) v)) in
    let step = on_line_lem l plain ls v k rest in
    let starts = started l plain ls v k rest in
    let p9 = on_line [] (pure tt) (call (write (codes "Comando non trovato\n"))) in
    let c9 : List (List ℕ × Option Call) = ([], none) ∷ [] in
    let e9 =
      step [] none (pure tt) (call (write (codes "Comando non trovato\n"))) [] refl refl refl in
    let p8 = on_line (codes "calc") (call (execute 8)) p9 in
    let c8 : List (List ℕ × Option Call) = (codes "calc", some (execute 8)) ∷ c9 in
    let e8 = starts (codes "calc") 8 p9 c9 refl refl e9 in
    let p7 = on_line (codes "sl") (call (execute 7)) p8 in
    let c7 : List (List ℕ × Option Call) = (codes "sl", some (execute 7)) ∷ c8 in
    let e7 = starts (codes "sl") 7 p8 c8 refl refl e8 in
    let p6 = on_line (codes "date") (call (execute 6)) p7 in
    let c6 : List (List ℕ × Option Call) = (codes "date", some (execute 6)) ∷ c7 in
    let e6 = starts (codes "date") 6 p7 c7 refl refl e7 in
    let p5 = on_line (codes "uname") (call (execute 5)) p6 in
    let c5 : List (List ℕ × Option Call) = (codes "uname", some (execute 5)) ∷ c6 in
    let e5 = starts (codes "uname") 5 p6 c6 refl refl e6 in
    let p4 = on_line (codes "fibEleven") (call (execute 4)) p5 in
    let c4 : List (List ℕ × Option Call) = (codes "fibEleven", some (execute 4)) ∷ c5 in
    let e4 = starts (codes "fibEleven") 4 p5 c5 refl refl e5 in
    let p3 = on_line (codes "echo") (call (execute 3)) p4 in
    let c3 : List (List ℕ × Option Call) = (codes "echo", some (execute 3)) ∷ c4 in
    let e3 = starts (codes "echo") 3 p4 c4 refl refl e4 in
    let p2 = on_line (codes "fibEight") (call (execute 2)) p3 in
    let c2 : List (List ℕ × Option Call) = (codes "fibEight", some (execute 2)) ∷ c3 in
    let e2 = starts (codes "fibEight") 2 p3 c3 refl refl e3 in
    ap (λ cs. write (codes "PandOS> ") ∷ read ∷ cs)
      (step (codes "exit") (some terminate) quit p2 c2 refl refl e2)

-- ===== src/UserCalls/Reading.antt =====
-- What `READTERMINAL` of phase3/sysSupport.c stores and answers.
use Prim.Native.Nat.{bit_and}
use progetto_sistemi_operati.Base.{
  ℕ, zero, suc, ◌+◌, ◌-◌, ◌/◌, ◌%◌, ◌^◌, ◌<◌, ◌≤◌, ◌≡◌, ◌∙◌, refl, sym, ap, subst, true, false,
  Option, none, some, ◌⊎◌, inl, List, [], ◌∷◌, ◌++◌, arith, ◌==◌, ltb, leb, if◌then◌else◌, length,
}
use progetto_sistemi_operati.Store.{ldst}
use progetto_sistemi_operati.Nucleus.Platform.{advance}
use progetto_sistemi_operati.World.{
  World, Layout, Op, passeren, verhogen, do_io, terminal_read, get_support_ptr, term_process,
  swap_pool,
}
use progetto_sistemi_operati.Process.{Tree, ret, perform, leave, fault, out_of_fuel}
use progetto_sistemi_operati.Supports.{deallocate_support}
use progetto_sistemi_operati.Pager.{terminate_sys, waker}
use progetto_sistemi_operati.UserCalls.{
  state_of, reg, on_state, answer, negated, terminal, return_from, read_chars, read_terminal_sys,
  user_stack_top, kuseg,
}
use progetto_sistemi_operati.UserCalls.Terminal.{Seen, prepends}

abbrev pub char_of : ℕ → ℕ
char_of status = status / 2 ^ 8 % 2 ^ 8

-- What the receiver answers, one status after the other: characters of a line, up to the end of
-- the line, to a status that is an error, or to the end of the user's space.
pub data Input : Type 0 where
  full : Input
  broken : (bad : ℕ) → (bit_and bad 0xFF == 5) ≡ false → Input
  newline : (status : ℕ) → (bit_and status 0xFF == 5) ≡ true → (char_of status == 10) ≡ true → Input
  typed :
      (status : ℕ)
      → (bit_and status 0xFF == 5) ≡ true
      → (char_of status == 10) ≡ false
      → Input
      → Input

abbrev pub received : Input → List ℕ
received full = []
received (broken bad e) = bad ∷ []
received (newline status e n) = status ∷ []
received (typed status e n i) = status ∷ received i

-- The characters that were received, the end of the line included.
abbrev pub text : Input → List ℕ
text full = []
text (broken bad e) = []
text (newline status e n) = char_of status ∷ []
text (typed status e n i) = char_of status ∷ text i

-- The line ends, or an error comes, before the user's space ends; or it ends first.
abbrev pub Fits : ℕ → Input → Type 0
Fits addr full = addr ≡ user_stack_top
Fits addr (broken bad e) = addr < user_stack_top
Fits addr (newline status e n) = addr < user_stack_top
Fits addr (typed status e n i) = (addr < user_stack_top) × Fits (addr + 1) i

abbrev pub put_byte : ℕ → ℕ → World → World
put_byte addr c w = record w { byte = λ a. if addr == a then c else w.byte a }

-- The memory with characters in a row from an address on.
abbrev pub put_text : ℕ → List ℕ → World → World
put_text addr [] w = w
put_text addr (c ∷ cs) w = put_text (addr + 1) cs (put_byte addr c w)

pub put_text-outside :
    (addr : ℕ) (cs : List ℕ) (w : World) (a : ℕ)
    → (a < addr) ⊎ (addr + length cs ≤ a)
    → (put_text addr cs w).byte a ≡ w.byte a
put_text-outside addr [] w a out = refl
put_text-outside addr (c ∷ cs) w a out =
    put_text-outside (addr + 1) cs (put_byte addr c w) a (ground (arith, out)) ∙ ground (arith, out)

pub put_text-inside :
    (addr : ℕ) (front : List ℕ) (c : ℕ) (back : List ℕ) (w : World)
    → (put_text addr (front ++ c ∷ back) w).byte (addr + length front) ≡ c
put_text-inside addr [] c back w =
    put_text-outside (addr + 1) back (put_byte addr c w) (addr + 0) (inl (omega arith))
    ∙ ground arith
put_text-inside addr (b ∷ front) c back w =
    let e : addr + suc (length front) ≡ addr + 1 + length front = omega arith in
    rw e (put_text-inside (addr + 1) front c back (put_byte addr b w))

pub put_text-store : (addr : ℕ) (cs : List ℕ) (w : World) → (put_text addr cs w).store ≡ w.store
put_text-store addr [] w = refl
put_text-store addr (c ∷ cs) w = put_text-store (addr + 1) cs (put_byte addr c w)

-- The operations of a run, and how it leaves: the device answers with the statuses, the nucleus gives
-- the process the address `sup` of its structure, the memory changes by the process alone, and
-- TERMPROCESS does not return.
unfoldable pub watch : {A : Type 0} → ℕ → Tree Op World A → List ℕ → Seen
watch sup (ret a w) sts = ([], none)
watch sup (leave e w) sts = ([], some (e, w))
watch sup fault sts = ([], none)
watch sup out_of_fuel sts = ([], none)
watch sup (perform (do_io a c) w next) [] = (do_io a c ∷ [], none)
watch sup (perform (do_io a c) w next) (st ∷ sts) =
    prepends (do_io a c ∷ []) (watch sup (next st w) sts)
watch sup (perform get_support_ptr w next) sts =
    prepends (get_support_ptr ∷ []) (watch sup (next sup w) sts)
watch sup (perform term_process w next) sts = (term_process ∷ [], none)
watch sup (perform o w next) sts = prepends (o ∷ []) (watch sup (next 0 w) sts)

-- The operations of the end of a process: it asks for its structure, frees its frames under their
-- semaphore, wakes the one who waits for it, and ends.
abbrev pub farewell : ℕ → List Op
farewell asid =
    get_support_ptr
    ∷ passeren swap_pool
    ∷ verhogen swap_pool
    ∷ verhogen (waker asid)
    ∷ term_process
    ∷ []

terminate_sys-farewell :
    (y : Layout) (sup asid : ℕ) (w : World)
    → (sup == 0) ≡ false
    → watch sup (terminate_sys y asid w) [] ≡ (farewell asid, none)
unfolding terminate_sys deallocate_support watch
terminate_sys-farewell y sup asid w nonzero = rw nonzero refl

-- One command to the receiver for each status.
abbrev pub requests : Layout → List ℕ → List Op
requests y [] = []
requests y (status ∷ sts) = do_io (terminal y + 4) 2 ∷ requests y sts

module _ (y : Layout) (sup asid : ℕ) (nonzero : (sup == 0) ≡ false) where
  -- The end of the call with an answer in a0.
  abbrev pub returned : ℕ → World → World
  returned a w = on_state sup advance (answer y sup a w)

  abbrev pub returns : ℕ → World → Seen
  returns a w =
      (verhogen terminal_read ∷ [], some (ldst (state_of sup (returned a w)), returned a w))

  -- What follows the last status: the end of the process where the user's space ends, and otherwise
  -- the answer, the negated status of an error or the number of characters.
  abbrev pub outcome : Input → ℕ → World → Seen
  outcome full len w = (verhogen terminal_read ∷ farewell asid, none)
  outcome (broken bad e) len w = returns (negated bad) w
  outcome (newline status e n) len w = returns (len + 1) w
  outcome (typed status e n i) len w = outcome i (len + 1) w

  read_chars_lem :
      (i : Input) (fuel addr len : ℕ) (w : World)
      → Fits addr i
      → user_stack_top < addr + fuel
      → watch sup (read_chars y sup asid fuel addr len w) (received i)
        ≡ prepends (requests y (received i)) (outcome i len (put_text addr (text i) w))
  unfolding read_chars watch return_from
  read_chars_lem full zero addr len w fits enough = absurd (omega arith)
  read_chars_lem full (suc fuel) addr len w fits enough =
      let test : leb user_stack_top addr ≡ true = ground (arith, fits) in
      rw (test, watch, terminate_sys-farewell y sup asid w nonzero) refl
  read_chars_lem (broken bad e) zero addr len w fits enough = absurd (omega arith)
  read_chars_lem (broken bad e) (suc fuel) addr len w fits enough =
      let test : leb user_stack_top addr ≡ false = ground (arith, fits) in
      rw (test, watch, e, watch) refl
  read_chars_lem (newline status e n) zero addr len w fits enough = absurd (omega arith)
  read_chars_lem (newline status e n) (suc fuel) addr len w fits enough =
      let test : leb user_stack_top addr ≡ false = ground (arith, fits) in
      rw (test, watch, e, n, watch) refl
  read_chars_lem (typed status e n i) zero addr len w fits enough = absurd (omega arith)
  read_chars_lem (typed status e n i) (suc fuel) addr len w fits enough =
      let test : leb user_stack_top addr ≡ false = ground (arith, fits.0) in
      rw (test, watch, e, n)
        (ap (prepends (do_io (terminal y + 4) 2 ∷ [])) (
          read_chars_lem i fuel (addr + 1) (len + 1) (put_byte addr (char_of status) w) fits.1
            (omega arith)))

  -- Where the course ends with an answer, that is the number of characters received, the end of
  -- the line included, or the negated status of the error.
  abbrev pub reply : Input → ℕ → Option ℕ
  reply full len = none
  reply (broken bad e) len = some (negated bad)
  reply (newline status e n) len = some (len + 1)
  reply (typed status e n i) len = reply i (len + 1)

  outcome-reply :
      (i : Input) (len : ℕ) (w : World) (a : ℕ)
      → reply i len ≡ some a
      → outcome i len w ≡ returns a w
  outcome-reply full len w a e = absurd (cc)
  outcome-reply (broken bad b) len w a e = ap (λ x. returns x w) (cc)
  outcome-reply (newline status b n) len w a e = ap (λ x. returns x w) (cc)
  outcome-reply (typed status b n i) len w a e = outcome-reply i (len + 1) w a e

  outcome-full :
      (i : Input) (len : ℕ) (w : World)
      → reply i len ≡ none
      → outcome i len w ≡ (verhogen terminal_read ∷ farewell asid, none)
  outcome-full full len w e = refl
  outcome-full (broken bad b) len w e = absurd (cc)
  outcome-full (newline status b n) len w e = absurd (cc)
  outcome-full (typed status b n i) len w e = outcome-full i (len + 1) w e

  -- For a buffer that starts in the user's space, if no other process changes the memory,
  -- `READTERMINAL` ends whatever the receiver answers: it takes the semaphore of the receiver, asks
  -- for one character after the other, stores them in their order from the buffer's address on, and
  -- gives the semaphore back. At the end of the line it returns behind the call with the number of
  -- characters in a0, at an error with the negated status, and where the characters reach the end of
  -- the user's space the process ends, by the operations of `farewell`. No byte outside of these characters changes.
  pub read_terminal_sys_lem :
      (w : World) (i : Input)
      → kuseg ≤ reg sup y.reg_a1 w
      → reg sup y.reg_a1 w < user_stack_top
      → Fits (reg sup y.reg_a1 w) i
      → let addr = reg sup y.reg_a1 w in
        let v = put_text addr (text i) w in
        ((a : ℕ)
          → reply i 0 ≡ some a
          → (watch sup (read_terminal_sys y sup asid w) (received i) ≡ (
            passeren terminal_read ∷ (requests y (received i) ++ verhogen terminal_read ∷ []),
            some (ldst (state_of sup (returned a v)), returned a v),
          ))
            × (reg sup y.reg_a0 (returned a v) ≡ a)
            × ((state_of sup (returned a v)).pc_epc ≡ ((state_of sup w).pc_epc + 4) % 2 ^ 32))
        × (reply i 0 ≡ none
            → watch sup (read_terminal_sys y sup asid w) (received i) ≡ (
              passeren terminal_read
                  ∷ (requests y (received i) ++ verhogen terminal_read ∷ farewell asid),
              none,
            ))
        × ((front : List ℕ) (c : ℕ) (back : List ℕ)
            → text i ≡ front ++ c ∷ back
            → v.byte (addr + length front) ≡ c)
        × ((a : ℕ) → (a < addr) ⊎ (addr + length (text i) ≤ a) → v.byte a ≡ w.byte a)
  unfolding read_terminal_sys watch
  read_terminal_sys_lem w i from to fits =
      let addr = reg sup y.reg_a1 w in
      let v = put_text addr (text i) w in
      let low : ltb addr kuseg ≡ false = ground (arith, from) in
      let high : leb user_stack_top addr ≡ false = ground (arith, to) in
      let course = read_chars_lem i (user_stack_top - addr + 1) addr 0 w fits (omega arith) in
      (
        λ a e. (
          rw (low, high, course, outcome-reply i 0 v a e) refl,
          ground arith,
          ground (arith, put_text-store addr (text i) w),
        ),
        λ e. rw (low, high, course, outcome-full i 0 v e) refl,
        λ front c back e.
            subst (λ cs. (put_text addr cs w).byte (addr + length front) ≡ c) (sym e)
              (put_text-inside addr front c back w),
        λ a out. put_text-outside addr (text i) w a out,
      )

-- ===== src/UserCalls/Terminal.antt =====
-- What `WRITETERMINAL` of phase3/sysSupport.c sends and answers.
use Prim.Native.Nat.{bit_and, bit_or}
use progetto_sistemi_operati.Base.{
  ℕ, zero, suc, ◌+◌, ◌*◌, ◌%◌, ◌^◌, ◌<◌, ◌≡◌, refl, ap, true, false, Option, none, some, inl, inr,
  List, [], ◌∷◌, ◌++◌, arith, ◌==◌, Option-cases,
}
use progetto_sistemi_operati.Store.{Exit, ldst}
use progetto_sistemi_operati.Nucleus.Platform.{advance}
use progetto_sistemi_operati.Process.{Tree, ret, perform, leave, fault, out_of_fuel, and_then}
use progetto_sistemi_operati.World.{World, Layout, Op, passeren, verhogen, do_io, terminal_write}
use progetto_sistemi_operati.UserCalls.{
  state_of, reg, on_state, answer, negated, terminal, return_from, write_chars, write_refused,
  write_terminal_sys,
}

-- The operations of a run and how it leaves, where the devices answer with the given statuses one
-- after the other and no other process changes the memory.
abbrev pub Seen : Type 0
Seen = List Op × Option (Exit × World)

abbrev pub prepends : List Op → Seen → Seen
prepends os x = (os ++ x.0, x.1)

unfoldable pub observe : {A : Type 0} → Tree Op World A → List ℕ → Seen
observe (ret a w) sts = ([], none)
observe (leave e w) sts = ([], some (e, w))
observe fault sts = ([], none)
observe out_of_fuel sts = ([], none)
observe (perform (do_io a c) w next) [] = (do_io a c ∷ [], none)
observe (perform (do_io a c) w next) (st ∷ sts) =
    prepends (do_io a c ∷ []) (observe (next st w) sts)
observe (perform o w next) sts = prepends (o ∷ []) (observe (next 0 w) sts)

-- The commands that send the characters at an address to the transmitter.
abbrev pub commands : Layout → World → ℕ → ℕ → List Op
commands y w addr zero = []
commands y w addr (suc n) =
    do_io (terminal y + 12) (bit_or ((w.byte addr * 2 ^ 8) % 2 ^ 32) 2) ∷ commands y w (addr + 1) n

abbrev pub IsSent : ℕ → Type 0
IsSent status = (bit_and status 0xFF == 5) ≡ true

-- The course of the sending of a number of characters: each is sent, up to the end or to a status that
-- is an error.
pub data Course : ℕ → Type 0 where
  done : Course 0
  failed : {n : ℕ} (bad : ℕ) → (bit_and bad 0xFF == 5) ≡ false → Course (suc n)
  sent : {n : ℕ} (status : ℕ) → (bit_and status 0xFF == 5) ≡ true → Course n → Course (suc n)

abbrev pub statuses : {n : ℕ} → Course n → List ℕ
statuses done = []
statuses (failed bad e) = bad ∷ []
statuses (sent status e c) = status ∷ statuses c

-- The characters given to the device, those that were sent, and the error, if there was one.
abbrev pub tried : {n : ℕ} → Course n → ℕ
tried done = 0
tried (failed bad e) = 1
tried (sent status e c) = suc (tried c)

abbrev pub count : {n : ℕ} → Course n → ℕ
count done = 0
count (failed bad e) = 0
count (sent status e c) = suc (count c)

abbrev pub error : {n : ℕ} → Course n → Option ℕ
error done = none
error (failed bad e) = some bad
error (sent status e c) = error c

module _ (y : Layout) (sup : ℕ) where
  abbrev told : Option ℕ → World → World
  told none w = w
  told (some bad) w = answer y sup (negated bad) w

  write_chars_lem :
      (n : ℕ) (c : Course n) (addr written : ℕ) (w : World)
      (k : ℕ → World → Tree Op World (Unit {0}))
      → observe (and_then (write_chars y sup n addr written w) k) (statuses c)
        ≡ prepends
            (commands y w addr (tried c))
            (observe (k (written + count c) (told (error c) w)) [])
  unfolding write_chars observe
  write_chars_lem zero done addr written w k =
      let none_left : written + 0 ≡ written = omega arith in rw none_left refl
  write_chars_lem (suc n) (failed bad e) addr written w k =
      let none_sent : written + 0 ≡ written = omega arith in rw (none_sent, e) refl
  write_chars_lem (suc n) (sent status e c) addr written w k =
      let more : written + suc (count c) ≡ written + 1 + count c = omega arith in
      rw (more, e)
        (ap (prepends (do_io (terminal y + 12) (bit_or ((w.byte addr * 2 ^ 8) % 2 ^ 32) 2) ∷ []))
          (write_chars_lem n c (addr + 1) (written + 1) w k))

counted : {n : ℕ} (c : Course n) → error c ≡ none → count c ≡ n
counted done e = refl
counted (failed bad b) e = absurd (cc)
counted (sent status b c) e = ap suc (counted c e)

cut_short : {n : ℕ} (c : Course n) (bad : ℕ) → error c ≡ some bad → count c < n
cut_short done bad e = absurd (cc)
cut_short (failed bad' b) bad e = omega arith
cut_short (sent status b c) bad e = omega (arith, cut_short c bad e)

-- What the caller finds in a0: the number of characters, or the negated status of the error.
abbrev pub answered : Option ℕ → ℕ → ℕ
answered none n = n
answered (some bad) n = negated bad

-- For a buffer in the user's space of at most 128 characters, if no other process changes the memory,
-- `WRITETERMINAL` takes the semaphore of the terminal, gives the characters to the transmitter in
-- their order up to the first that fails, gives the semaphore back, and returns behind the call: with
-- the number of characters in a0 if all were sent, and with the negated status of the failure
-- otherwise.
pub write_terminal_sys_lem :
    (y : Layout) (sup asid : ℕ) (w : World)
    → write_refused (reg sup y.reg_a1 w) (reg sup y.reg_a2 w) ≡ false
    → (c : Course (reg sup y.reg_a2 w))
    → (v : World) × (observe (write_terminal_sys y sup asid w) (statuses c) ≡ (
      passeren terminal_write
          ∷ (commands y w (reg sup y.reg_a1 w) (tried c) ++ verhogen terminal_write ∷ []),
      some (ldst (state_of sup v), v),
    ))
      × (reg sup y.reg_a0 v ≡ answered (error c) (count c))
      × ((state_of sup v).pc_epc ≡ ((state_of sup w).pc_epc + 4) % 2 ^ 32)
unfolding write_terminal_sys return_from observe
write_terminal_sys_lem y sup asid w fits c =
    let len = reg sup y.reg_a2 w in
    let sending = write_chars_lem y sup len c (reg sup y.reg_a1 w) 0 w in
    elim (Option-cases (error c)) [
      | inl e ↦
          let all : (0 + count c == len) ≡ true = ground (arith, counted c e) in
          (
            on_state sup advance (answer y sup (0 + count c) w),
            rw (fits, sending _, e, all) refl,
            rw e (ground arith),
            ground arith,
          )
      | inr (bad, e) ↦
          let some_left : (0 + count c == len) ≡ false = ground (arith, cut_short c bad e) in
          (
            on_state sup advance (answer y sup (negated bad) w),
            rw (fits, sending _, e, some_left) refl,
            rw e (ground arith),
            ground arith,
          )
    ]

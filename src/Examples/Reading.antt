-- ===== src/Examples/Reading.antt =====
-- `READTERMINAL` at a sample state: a line of one character.
use progetto_sistemi_operati.Base.{
  ℕ, ◌+◌, ◌%◌, ◌^◌, ◌<◌, ◌≤◌, ◌≡◌, ◌⊎◌, refl, none, some, List, [], ◌∷◌, ◌++◌, arith, length,
}
use progetto_sistemi_operati.Store.{ldst}
use progetto_sistemi_operati.World.{passeren, verhogen, terminal_read}
use progetto_sistemi_operati.UserCalls.{state_of, reg, read_terminal_sys}
use progetto_sistemi_operati.UserCalls.Reading.{watch, farewell}
use progetto_sistemi_operati.UserCalls.Reading.{
  Input, newline, typed, received, text, put_text, requests, returned, reply, read_terminal_sys_lem,
}
use progetto_sistemi_operati.Examples.Paging.{layout, writing}

abbrev line : Input
line = typed 0x4105 refl refl (newline 0x0A05 refl refl)

read_terminal_sys_lem_example :
    let addr = reg 0x1002 layout.reg_a1 writing in
    let v = put_text addr (text line) writing in
    ((a : ℕ)
      → reply layout 0x1002 2 refl line 0 ≡ some a
      → (watch 0x1002 (read_terminal_sys layout 0x1002 2 writing) (received line) ≡ (
        passeren terminal_read ∷ (requests layout (received line) ++ verhogen terminal_read ∷ []),
        some (
          ldst (state_of 0x1002 (returned layout 0x1002 2 refl a v)),
          returned layout 0x1002 2 refl a v,
        ),
      ))
        × (reg 0x1002 layout.reg_a0 (returned layout 0x1002 2 refl a v) ≡ a)
        × ((state_of 0x1002 (returned layout 0x1002 2 refl a v)).pc_epc
            ≡ ((state_of 0x1002 writing).pc_epc + 4) % 2 ^ 32))
    × (reply layout 0x1002 2 refl line 0 ≡ none
        → watch 0x1002 (read_terminal_sys layout 0x1002 2 writing) (received line) ≡ (
          passeren terminal_read
              ∷ (requests layout (received line) ++ verhogen terminal_read ∷ farewell 2),
          none,
        ))
    × ((front : List ℕ) (c : ℕ) (back : List ℕ)
        → text line ≡ front ++ c ∷ back
        → v.byte (addr + length front) ≡ c)
    × ((a : ℕ) → (a < addr) ⊎ (addr + length (text line) ≤ a) → v.byte a ≡ writing.byte a)
read_terminal_sys_lem_example =
    read_terminal_sys_lem layout 0x1002 2 refl writing line (omega arith) (omega arith)
      (omega arith)

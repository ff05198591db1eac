-- ===== src/Examples/Programs.antt =====
-- The theorems on the user programs at sample lines, and runs of the programs that print.
use progetto_sistemi_operati.Base.{ℕ, ◌+◌, ◌≡◌, refl, List, [], ◌∷◌, ◌++◌, arith}
use progetto_sistemi_operati.Programs.{write, read, terminate, codes, clear, shell, received, play}
use progetto_sistemi_operati.Programs.Lines.{choose, carry, commands, shell_lem}
use progetto_sistemi_operati.Programs.Numbers.{Prints, Shows, expected, calc_lem}
use progetto_sistemi_operati.Programs.Prints.{print, fib, fib_test, fib_eight, before_nul, echo}

shell_lem_example :
    play ((codes "calc" ++ 10 ∷ []) ∷ []) (shell 2 (λ k. 0))
    ≡ write (codes "PandOS> ")
      ∷ read
      ∷ carry
          (choose (codes "calc") commands)
          (play [] (shell 1 (received (codes "calc" ++ 10 ∷ []) (clear (λ k. 0)))))
shell_lem_example =
    shell_lem 1 (codes "calc") [] (λ k. 0) (refl, (refl, (refl, (refl, tt)))) (omega arith)

calc_lem_example :
    (xs : List ℕ) × Prints [] (λ k. 0) ((48 + 3) ∷ 45 ∷ (48 + 8) ∷ 10 ∷ []) xs
    × Shows (expected 45 3 8) xs
calc_lem_example = calc_lem [] (λ k. 0) 3 45 8 (omega arith) (omega arith)

fib_eight_run :
    play [] (fib_eight 0 (λ k. 0))
    ≡ write (codes "Recursive Fibanaci (8) Test starts\n")
      ∷ write (codes "Recursion Concluded\n")
      ∷ write (codes "Recursion Concluded Successfully\n")
      ∷ terminate
      ∷ []
unfolding play print fib fib_test
fib_eight_run = refl

echo_run :
    play (codes "ciao\n" ∷ []) (echo 0 (λ k. 7))
    ≡ write (codes "Enter a string: ")
      ∷ read
      ∷ write (10 ∷ [])
      ∷ write (codes "ciao\n")
      ∷ write (10 ∷ [])
      ∷ terminate
      ∷ []
unfolding play print echo before_nul
echo_run = refl

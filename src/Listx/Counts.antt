-- ===== src/Listx/Counts.antt =====
-- How often a number is in a sequence.
use progetto_sistemi_operati.Base.{
  ℕ, ◌+◌, ◌≤◌, ◌<◌, ◌≡◌, refl, sym, inl, inr, false, List, [], ◌∷◌, ◌++◌, arith, NotIn, Distinct,
  In, ◌==◌, if◌then◌else◌, Bool-cases, eq_of_==,
}

unfoldable pub count : ℕ → List ℕ → ℕ
count z [] = 0
count z (x ∷ xs) = (if x == z then 1 else 0) + count z xs

pub count-append : (z : ℕ) (xs ys : List ℕ) → count z (xs ++ ys) ≡ count z xs + count z ys
unfolding count
count-append z [] ys = omega arith
count-append z (x ∷ xs) ys = omega (arith, count-append z xs ys)

pub count-pos : (z : ℕ) (xs : List ℕ) → In z xs → 0 < count z xs
unfolding count
count-pos z [] i = absurd i
count-pos z (x ∷ xs) (inl e) = ground (arith, e)
count-pos z (x ∷ xs) (inr i) = omega (arith, count-pos z xs i)

pub In-of_count : (z : ℕ) (xs : List ℕ) → 0 < count z xs → In z xs
unfolding count
In-of_count z [] lt = absurd (omega arith)
In-of_count z (x ∷ xs) lt = elim (Bool-cases (x == z)) [
  | inl same ↦ inl (sym (eq_of_== x z same))
  | inr differ ↦ inr (In-of_count z xs (ground (arith, differ, lt)))
]

pub NotIn-of_count : (z : ℕ) (xs : List ℕ) → count z xs ≡ 0 → NotIn z xs
unfolding count
NotIn-of_count z [] e = tt
NotIn-of_count z (x ∷ xs) e =
    ((λ same. absurd (ground (arith, same, e))), NotIn-of_count z xs (omega arith))

pub Distinct-of_count : (xs : List ℕ) → ((z : ℕ) → count z xs ≤ 1) → Distinct xs
unfolding count
Distinct-of_count [] once = tt
Distinct-of_count (x ∷ xs) once = (
  NotIn-of_count x xs (ground (arith, once x)),
  Distinct-of_count xs (λ z. omega (arith, once z)),
)

pub count_self : (p : ℕ) → count p (p ∷ []) ≡ 1
unfolding count
count_self p = ground arith

pub count-other : (q c : ℕ) → (c == q) ≡ false → count q (c ∷ []) ≡ 0
unfolding count
count-other q c differ = ground (arith, differ)

pub count-nil : (z : ℕ) → count z [] ≡ 0
unfolding count
count-nil z = refl

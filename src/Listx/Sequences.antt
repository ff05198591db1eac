-- ===== src/Listx/Sequences.antt =====
-- Facts about sequences that gain or lose an item in the middle.
use progetto_sistemi_operati.Base.{
  ◌≢◌, refl, sym, inl, inr, List, [], ◌∷◌, ◌++◌, NotIn, Distinct, All, In,
}

-- Sequences that take in or lose an item in the middle.
module _ {A : Type 0} where
  pub Distinct-insert :
      (xs : List A) (i : A) (ys : List A)
      → Distinct (xs ++ ys)
      → NotIn i (xs ++ ys)
      → Distinct (xs ++ i ∷ ys)
  Distinct-insert [] i ys d n = (n, d)
  Distinct-insert (x ∷ xs) i ys d n =
      (NotIn-insert xs d.0 (λ e. n.0 (sym e)), Distinct-insert xs i ys d.1 n.1)
    where
      NotIn-insert : (zs : List A) → NotIn x (zs ++ ys) → x ≢ i → NotIn x (zs ++ i ∷ ys)
      NotIn-insert [] o ne = (ne, o)
      NotIn-insert (z ∷ zs) o ne = (o.0, NotIn-insert zs o.1 ne)

  pub Distinct-remove :
      (xs : List A) (i : A) (ys : List A)
      → Distinct (xs ++ i ∷ ys)
      → Distinct (xs ++ ys) × NotIn i (xs ++ ys)
  Distinct-remove [] i ys d = (d.1, d.0)
  Distinct-remove (x ∷ xs) i ys d =
      let rest = Distinct-remove xs i ys d.1 in
      let out = NotIn-remove xs d.0 in ((out.1, rest.0), (λ e. out.0 (sym e), rest.1))
    where
      NotIn-remove : (zs : List A) → NotIn x (zs ++ i ∷ ys) → (x ≢ i) × NotIn x (zs ++ ys)
      NotIn-remove [] o = o
      NotIn-remove (z ∷ zs) o = let rest = NotIn-remove zs o.1 in (rest.0, (o.0, rest.1))

  pub In-insert : (xs : List A) (i : A) (ys : List A) → In i (xs ++ i ∷ ys)
  In-insert [] i ys = inl refl
  In-insert (x ∷ xs) i ys = inr (In-insert xs i ys)

  pub In-insert_of_In :
      (j : A) (xs : List A) (i : A) (ys : List A) → In j (xs ++ ys) → In j (xs ++ i ∷ ys)
  In-insert_of_In j [] i ys a = inr a
  In-insert_of_In j (x ∷ xs) i ys (inl e) = inl e
  In-insert_of_In j (x ∷ xs) i ys (inr a) = inr (In-insert_of_In j xs i ys a)

  pub In-remove_of_In :
      (j : A) (xs : List A) (i : A) (ys : List A) → j ≢ i → In j (xs ++ i ∷ ys) → In j (xs ++ ys)
  In-remove_of_In j [] i ys ne (inl e) = absurd (ne e)
  In-remove_of_In j [] i ys ne (inr a) = a
  In-remove_of_In j (x ∷ xs) i ys ne (inl e) = inl e
  In-remove_of_In j (x ∷ xs) i ys ne (inr a) = inr (In-remove_of_In j xs i ys ne a)

pub All-insert {κ} :
    {A : Type 0} (P : A → Type κ) (xs : List A) (i : A) (ys : List A)
    → All P (xs ++ ys)
    → P i
    → All P (xs ++ i ∷ ys)
All-insert P [] i ys a p = (p, a)
All-insert P (x ∷ xs) i ys a p = (a.0, All-insert P xs i ys a.1 p)

pub All-remove {κ} :
    {A : Type 0} (P : A → Type κ) (xs : List A) (i : A) (ys : List A)
    → All P (xs ++ i ∷ ys)
    → All P (xs ++ ys) × P i
All-remove P [] i ys a = (a.1, a.0)
All-remove P (x ∷ xs) i ys a = let rest = All-remove P xs i ys a.1 in ((a.0, rest.0), rest.1)

module _ {ℓ κ} {A : Type ℓ} (P : A → Type κ) where
  pub All-append_left : (xs ys : List A) → All P (xs ++ ys) → All P xs
  All-append_left [] ys a = tt
  All-append_left (x ∷ xs) ys a = (a.0, All-append_left xs ys a.1)

  pub All-append_right : (xs ys : List A) → All P (xs ++ ys) → All P ys
  All-append_right [] ys a = a
  All-append_right (x ∷ xs) ys a = All-append_right xs ys a.1

  pub All-append : (xs ys : List A) → All P xs → All P ys → All P (xs ++ ys)
  All-append [] ys a b = b
  All-append (x ∷ xs) ys a b = (a.0, All-append xs ys a.1 b)

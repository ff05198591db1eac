-- ===== src/Listx/Removal.antt =====
-- Taking numbers out of sequences, and what is done for each number of a sequence in turn.
use progetto_sistemi_operati.Base.{
  ℕ, zero, suc, ◌≤◌, ◌<◌, ◌≡◌, refl, sym, ap, ◌∙◌, subst, ◌≢◌, ◌⊎◌, inl, inr, List, [], ◌∷◌, ◌++◌,
  arith, length, NotIn, Distinct, All, In, ◌==◌, if◌then◌else◌, Bool-cases, eq_of_==,
}
use progetto_sistemi_operati.Listx.Sequences.{Distinct-remove, All-remove, In-insert}

-- The first occurrence of a number is taken out, if there is one.
unfoldable pub erase : ℕ → List ℕ → List ℕ
erase p [] = []
erase p (q ∷ qs) = if q == p then qs else q ∷ erase p qs

-- `f` for each number, the first one first.
unfoldable pub each {ℓ} : {A : Type ℓ} → (ℕ → A → A) → List ℕ → A → A
each f [] a = a
each f (m ∷ ms) a = each f ms (f m a)

pub each-append {ℓ} :
    {A : Type ℓ} (f : ℕ → A → A) (ms ns : List ℕ) (a : A)
    → each f (ms ++ ns) a ≡ each f ns (each f ms a)
unfolding each
each-append f [] ns a = refl
each-append f (m ∷ ms) ns a = each-append f ms ns (f m a)

pub each-same {ℓ} :
    {A : Type ℓ} (f g : ℕ → A → A) (ms : List ℕ) (a : A)
    → All (λ m. (b : A) → f m b ≡ g m b) ms
    → each f ms a ≡ each g ms a
unfolding each
each-same f g [] a same = refl
each-same f g (m ∷ ms) a same = each-same f g ms (f m a) same.1 ∙ ap (each g ms) (same.0 a)

pub erase-mid :
    (p : ℕ) (front back : List ℕ) → NotIn p front → erase p (front ++ p ∷ back) ≡ front ++ back
unfolding erase
erase-mid p [] back n = ground arith
erase-mid p (q ∷ front) back n = ground (arith, n.0, erase-mid p front back n.1)

pub erase-missing : (p : ℕ) (qs : List ℕ) → NotIn p qs → erase p qs ≡ qs
unfolding erase
erase-missing p [] n = refl
erase-missing p (q ∷ qs) n = ground (arith, n.0, erase-missing p qs n.1)

pub length-erase : (p : ℕ) (qs : List ℕ) → length (erase p qs) ≤ length qs
unfolding erase
length-erase p [] = omega arith
length-erase p (q ∷ qs) = ground (arith, length-erase p qs)

pub In-erase : (z p : ℕ) (qs : List ℕ) → z ≢ p → In z qs → In z (erase p qs)
unfolding erase
In-erase z p [] ne a = a
In-erase z p (q ∷ qs) ne a = elim (Bool-cases (q == p)) [
  | inl same ↦ rw same (elim a [ inl e ↦ absurd (ne (e ∙ eq_of_== q p same)) | inr i ↦ i ])
  | inr differ ↦ rw differ (elim a [ inl e ↦ inl e | inr i ↦ inr (In-erase z p qs ne i) ])
]

pub In-each-erase : (z : ℕ) (ms qs : List ℕ) → NotIn z ms → In z qs → In z (each erase ms qs)
unfolding each
In-each-erase z [] qs n a = a
In-each-erase z (m ∷ ms) qs n a = In-each-erase z ms (erase m qs) n.1 (In-erase z m qs n.0 a)

-- The place of a number in a sequence.
pub record Spot (p : ℕ) (qs : List ℕ) : Type 0 where
  pub front : List ℕ
  pub back : List ℕ
  pub split : qs ≡ front ++ p ∷ back
  pub first : NotIn p front

pub spot : (p : ℕ) (qs : List ℕ) → Spot p qs ⊎ NotIn p qs
spot p [] = inr tt
spot p (q ∷ qs) = elim (Bool-cases (q == p)) [
  | inl same ↦
      inl
        (record { front = []; back = qs; split = ap (λ z. z ∷ qs) (eq_of_== q p same); first = tt })
  | inr differ ↦ elim (spot p qs) [
    | inl at ↦ inl (record {
      front = q ∷ at.front;
      back = at.back;
      split = ap (◌∷◌ q) at.split;
      first = (ground arith, at.first);
    })
    | inr out ↦ inr (ground arith, out)
  ]
]

module _ {A : Type 0} where
  pub In-NotIn : (a : A) (xs : List A) → In a xs → NotIn a xs → ⊥
  In-NotIn a [] i n = i
  In-NotIn a (x ∷ xs) (inl e) n = n.0 e
  In-NotIn a (x ∷ xs) (inr i) n = In-NotIn a xs i n.1

  pub NotIn-append_left : (a : A) (xs ys : List A) → NotIn a (xs ++ ys) → NotIn a xs
  NotIn-append_left a [] ys n = tt
  NotIn-append_left a (x ∷ xs) ys n = (n.0, NotIn-append_left a xs ys n.1)

  pub NotIn-append_right : (a : A) (xs ys : List A) → NotIn a (xs ++ ys) → NotIn a ys
  NotIn-append_right a [] ys n = n
  NotIn-append_right a (x ∷ xs) ys n = NotIn-append_right a xs ys n.1

  pub In-append_cases : (a : A) (xs ys : List A) → In a (xs ++ ys) → In a xs ⊎ In a ys
  In-append_cases a [] ys i = inr i
  In-append_cases a (x ∷ xs) ys (inl e) = inl (inl e)
  In-append_cases a (x ∷ xs) ys (inr i) = elim (In-append_cases a xs ys i) [
    | inl l ↦ inl (inr l)
    | inr r ↦ inr r
  ]

  pub Distinct-append_left : (xs ys : List A) → Distinct (xs ++ ys) → Distinct xs
  Distinct-append_left [] ys d = tt
  Distinct-append_left (x ∷ xs) ys d =
      (NotIn-append_left x xs ys d.0, Distinct-append_left xs ys d.1)

  pub Distinct-append_right : (xs ys : List A) → Distinct (xs ++ ys) → Distinct ys
  Distinct-append_right [] ys d = d
  Distinct-append_right (x ∷ xs) ys d = Distinct-append_right xs ys d.1

  -- In distinct parts no item of the one is in the other.
  pub All-apart : (xs ys : List A) → Distinct (xs ++ ys) → All (λ x. NotIn x ys) xs
  All-apart [] ys d = tt
  All-apart (x ∷ xs) ys d = (NotIn-append_right x xs ys d.0, All-apart xs ys d.1)

  -- The other way round.
  pub All-apart_left : (xs ys : List A) → Distinct (xs ++ ys) → All (λ y. NotIn y xs) ys
  All-apart_left xs [] d = tt
  All-apart_left xs (y ∷ ys) d =
      let out = Distinct-remove xs y ys d in
      (NotIn-append_left y xs ys out.1, All-apart_left xs ys out.0)

pub Distinct-snoc :
    {A : Type 0} (xs : List A) (a : A) → Distinct xs → NotIn a xs → Distinct (xs ++ a ∷ [])
Distinct-snoc {A} [] a d n = (tt, tt)
Distinct-snoc {A} (x ∷ xs) a d n =
    (NotIn-snoc xs d.0 (λ e. n.0 (sym e)), Distinct-snoc xs a d.1 n.1)
  where
    NotIn-snoc : (zs : List A) → NotIn x zs → x ≢ a → NotIn x (zs ++ a ∷ [])
    NotIn-snoc [] o ne = (ne, tt)
    NotIn-snoc (z ∷ zs) o ne = (o.0, NotIn-snoc zs o.1 ne)

pub All-map {κ} :
    {A : Type 0} (P Q : A → Type κ) → ((x : A) → P x → Q x) → (xs : List A) → All P xs → All Q xs
All-map P Q f [] a = tt
All-map P Q f (x ∷ xs) a = (f x a.0, All-map P Q f xs a.1)

pub All-at {κ} : {A : Type 0} (P : A → Type κ) (a : A) (xs : List A) → All P xs → In a xs → P a
All-at P a [] h i = absurd i
All-at P a (x ∷ xs) h (inl e) = subst P (sym e) h.0
All-at P a (x ∷ xs) h (inr i) = All-at P a xs h.1 i

below_of : (n : ℕ) (xs : List ℕ) → NotIn n xs → All (λ x. x < suc n) xs → All (λ x. x < n) xs
below_of n [] out a = tt
below_of n (x ∷ xs) out a = (ground (arith, out.0, a.0), below_of n xs out.1 a.1)

length-mid :
    (front : List ℕ) (x : ℕ) (back : List ℕ)
    → length (front ++ x ∷ back) ≡ suc (length (front ++ back))
length-mid [] x back = refl
length-mid (y ∷ front) x back = ap suc (length-mid front x back)

-- Distinct numbers below a bound are at most as many.
pub length-le_bound : (n : ℕ) (xs : List ℕ) → Distinct xs → All (λ x. x < n) xs → length xs ≤ n
length-le_bound zero [] d a = omega arith
length-le_bound zero (x ∷ xs) d a = absurd (omega (arith, a.0))
length-le_bound (suc n) xs d a = elim (spot n xs) [
  | inl at ↦
      let here : Distinct (at.front ++ n ∷ at.back) = subst Distinct at.split d in
      let rest = Distinct-remove at.front n at.back here in
      let all =
        All-remove (λ x. x < suc n) at.front n at.back (subst (All (λ x. x < suc n)) at.split a) in
      let fewer =
        length-le_bound n (at.front ++ at.back) rest.0
          (below_of n (at.front ++ at.back) rest.1 all.0) in
      let e : length xs ≡ suc (length (at.front ++ at.back)) =
        ap length at.split ∙ length-mid at.front n at.back in
      omega (arith, fewer)
  | inr out ↦ let fewer = length-le_bound n xs d (below_of n xs out a) in omega (arith, fewer)
]

-- A number is in a sequence or it is not.
pub In-cases : (p : ℕ) (qs : List ℕ) → In p qs ⊎ NotIn p qs
In-cases p qs = elim (spot p qs) [
  | inl at ↦ inl (subst (In p) (sym at.split) (In-insert at.front p at.back))
  | inr out ↦ inr out
]

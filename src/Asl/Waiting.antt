-- ===== src/Asl/Waiting.antt =====
-- The queues of the active semaphore list by key, and what becomes of them when one of them changes.
use progetto_sistemi_operati.Base.{
  ℕ, ◌≤◌, ◌≡◌, ◌≢◌, refl, ap, Option, none, some, ◌⊎◌, inl, inr, List, [], ◌∷◌, ◌++◌, arith, NotIn,
  length, if◌then◌else◌, ◌==◌, Bool-cases, eq_of_==,
}
use progetto_sistemi_operati.Asl.View.{Sem, keys}

-- The PCBs blocked on a key, oldest first.
unfoldable pub waiting : ℕ → List Sem → List ℕ
waiting k [] = []
waiting k (x ∷ xs) = if x.key == k then x.queue else waiting k xs

abbrev pub oldest : List ℕ → Option ℕ
oldest [] = none
oldest (p ∷ ps) = some p

abbrev pub others : List ℕ → List ℕ
others [] = []
others (p ∷ ps) = ps

-- The place of a key among the active semaphores.
pub record Place (k : ℕ) (sems : List Sem) : Type 0 where
  pub before : List Sem
  pub sem : Sem
  pub after : List Sem
  pub split : sems ≡ before ++ sem ∷ after
  pub hit : sem.key ≡ k
  pub first : NotIn k (keys before)

pub locate : (k : ℕ) (sems : List Sem) → Place k sems ⊎ NotIn k (keys sems)
locate k [] = inr tt
locate k (x ∷ xs) = elim (Bool-cases (x.key == k)) [
  | inl same ↦ inl (record {
    before = [];
    sem = x;
    after = xs;
    split = refl;
    hit = eq_of_== x.key k same;
    first = tt;
  })
  | inr differ ↦ elim (locate k xs) [
    | inl at ↦ inl (record {
      before = x ∷ at.before;
      sem = at.sem;
      after = at.after;
      split = ap (◌∷◌ x) at.split;
      hit = at.hit;
      first = (ground arith, at.first);
    })
    | inr out ↦ inr (ground arith, out)
  ]
]

pub waiting-missing : (k : ℕ) (sems : List Sem) → NotIn k (keys sems) → waiting k sems ≡ []
unfolding waiting
waiting-missing k [] n = refl
waiting-missing k (x ∷ xs) n = ground (arith, n.0, waiting-missing k xs n.1)

pub waiting-mid :
    (before : List Sem) (x : Sem) (after : List Sem)
    → NotIn x.key (keys before)
    → waiting x.key (before ++ x ∷ after) ≡ x.queue
unfolding waiting
waiting-mid [] x after n = ground arith
waiting-mid (y ∷ before) x after n = ground (arith, n.0, waiting-mid before x after n.1)

pub waiting-other :
    (j : ℕ) (before : List Sem) (x y : Sem) (after : List Sem)
    → j ≢ x.key
    → y.key ≡ x.key
    → waiting j (before ++ y ∷ after) ≡ waiting j (before ++ x ∷ after)
unfolding waiting
waiting-other j [] x y after ne e = ground arith
waiting-other j (z ∷ before) x y after ne e = ground (arith, waiting-other j before x y after ne e)

pub waiting-drop :
    (j : ℕ) (before : List Sem) (x : Sem) (after : List Sem)
    → j ≢ x.key
    → waiting j (before ++ after) ≡ waiting j (before ++ x ∷ after)
unfolding waiting
waiting-drop j [] x after ne = ground arith
waiting-drop j (z ∷ before) x after ne = ground (arith, waiting-drop j before x after ne)

pub waiting-dropped :
    (before : List Sem) (x : Sem) (after : List Sem)
    → NotIn x.key (keys before)
    → NotIn x.key (keys after)
    → waiting x.key (before ++ after) ≡ []
unfolding waiting
waiting-dropped [] x after n m = waiting-missing x.key after m
waiting-dropped (z ∷ before) x after n m = ground (arith, n.0, waiting-dropped before x after n.1 m)

pub length-before :
    {A : Type 0} (before : List A) (x : A) (after : List A)
    → length before ≤ length (before ++ x ∷ after)
length-before [] x after = omega arith
length-before (y ∷ before) x after = omega (arith, length-before before x after)

pub length-dropped :
    {A : Type 0} (before : List A) (x : A) (after : List A)
    → length (before ++ after) ≤ length (before ++ x ∷ after)
length-dropped [] x after = omega arith
length-dropped (y ∷ before) x after = omega (arith, length-dropped before x after)

pub length-replaced :
    (before : List Sem) (y x : Sem) (after : List Sem)
    → length (before ++ y ∷ after) ≤ length (before ++ x ∷ after)
length-replaced [] y x after = omega arith
length-replaced (z ∷ before) y x after = omega (arith, length-replaced before y x after)

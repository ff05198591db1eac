-- ===== src/Asl/View.antt =====
-- The abstract view of the active semaphore list.
use progetto_sistemi_operati.Base.{ℕ, ◌≡◌, ◌≢◌, some, List, [], ◌∷◌, ◌++◌, refl, Distinct, All}
use progetto_sistemi_operati.Memory.{Item, s_link, s_procq, semd_active, semd_free}
use progetto_sistemi_operati.Listx.View.{View, Rings}
use progetto_sistemi_operati.Store.{Store}
use progetto_sistemi_operati.Pcb.Queue.{lists}

-- An active semaphore: its descriptor, its key, and the PCBs blocked on it, oldest first.
pub record Sem : Type 0 where
  pub desc : ℕ
  pub key : ℕ
  pub queue : List ℕ

-- The links of descriptors.
abbrev pub semds : List ℕ → List Item
semds [] = []
semds (d ∷ ds) = s_link d ∷ semds ds

abbrev pub descs : List Sem → List Item
descs [] = []
descs (x ∷ xs) = s_link x.desc ∷ descs xs

abbrev pub keys : List Sem → List ℕ
keys [] = []
keys (x ∷ xs) = x.key ∷ keys xs

-- What the store holds for one active semaphore.
pub record HoldsSem (s : Store) (v : View) (x : Sem) : Type 0 where
  pub queued : v.items (s_procq x.desc) ≡ some (lists x.queue)
  pub keyed : s.s_key x.desc ≡ x.key
  pub waiting : All (λ p. (s.pcb p).sem_add ≡ x.key) x.queue
  pub nonempty : x.queue ≢ []

-- The store holds the active semaphores `sems`, and the descriptors `spare` are free.
pub record Asl (s : Store) (v : View) (sems : List Sem) (spare : List ℕ) : Type 0 where
  pub rings : Rings s.links v
  pub active : v.items semd_active ≡ some (descs sems)
  pub free : v.items semd_free ≡ some (semds spare)
  pub holds : All (HoldsSem s v) sems
  pub unique : Distinct (keys sems)
  pub idle : All (λ d. v.items (s_procq d) ≡ some []) spare

pub descs-append : (xs ys : List Sem) → descs (xs ++ ys) ≡ descs xs ++ descs ys
descs-append [] ys = refl
descs-append (x ∷ xs) ys = rw (descs-append xs ys)

pub keys-append : (xs ys : List Sem) → keys (xs ++ ys) ≡ keys xs ++ keys ys
keys-append [] ys = refl
keys-append (x ∷ xs) ys = rw (keys-append xs ys)

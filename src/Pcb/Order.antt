-- ===== src/Pcb/Order.antt =====
-- The order of a queue into which `insertProcQ` puts a PCB.
use progetto_sistemi_operati.Base.{
  ℕ, ◌≤◌, ◌≡◌, true, false, none, some, List, [], ◌∷◌, arith, length, Bool-cases, inl, inr,
}
use mathlib.Core.List.{Perm}
use mathlib.Core.List.Perm
use progetto_sistemi_operati.Memory.{Head, p_list, Links}
use progetto_sistemi_operati.Listx.View.{View, Rings}
use progetto_sistemi_operati.Store.{Store, ok, signed_lt}
use progetto_sistemi_operati.Pcb.{max_proc, insert_proc_q}
use progetto_sistemi_operati.Pcb.Queue.{lists, insert_prio, prio_in, insert_proc_q-insert_prio}

-- No PCB stands in front of one of higher priority.
abbrev pub IsSorted : (ℕ → ℕ) → List ℕ → Type 0
IsSorted prio [] = Unit
IsSorted prio (p ∷ []) = Unit
IsSorted prio (p ∷ q ∷ ps) = (signed_lt (prio p) (prio q) ≡ false) × IsSorted prio (q ∷ ps)

signed_lt-asymm : (a b : ℕ) → signed_lt a b ≡ true → signed_lt b a ≡ false
signed_lt-asymm a b h = ground arith

insert_prio-IsSorted :
    (prio : ℕ → ℕ) (p : ℕ) (ps : List ℕ) → IsSorted prio ps → IsSorted prio (insert_prio prio p ps)
unfolding insert_prio
insert_prio-IsSorted prio p [] h = tt
insert_prio-IsSorted prio p (q ∷ []) h = ground (arith, signed_lt-asymm (prio q) (prio p))
insert_prio-IsSorted prio p (q ∷ r ∷ ps) h =
    ground (arith, signed_lt-asymm (prio q) (prio p), insert_prio-IsSorted prio p (r ∷ ps) h.1)

insert_prio-perm : (prio : ℕ → ℕ) (p : ℕ) (ps : List ℕ) → Perm (insert_prio prio p ps) (p ∷ ps)
unfolding insert_prio
insert_prio-perm prio p [] = Perm.refl (p ∷ [])
insert_prio-perm prio p (q ∷ qs) = elim (Bool-cases (signed_lt (prio q) (prio p))) [
  | inl lower ↦ rw lower (Perm.refl (p ∷ q ∷ qs))
  | inr higher ↦
      rw higher (Perm.trans (Perm.cons q (insert_prio-perm prio p qs)) (Perm.swap p q qs))
]

-- A queue of at most `max_proc` PCBs in order of falling priority stays so when `insertProcQ` adds
-- a PCB that is in no list; it then holds that PCB and those that it held.
pub insert_proc_q-IsSorted :
    (s : Store) (v : View) (h : Head) (p : ℕ) (ps : List ℕ)
    → Rings s.links v
    → v.owner (p_list p) ≡ none
    → v.items h ≡ some (lists ps)
    → length ps ≤ max_proc
    → IsSorted (prio_in s) ps
    → (m : Links) × (w : View) × (qs : List ℕ) × (insert_proc_q h p s
        ≡ ok tt (record s { links = m }))
      × Rings m w
      × (w.items h ≡ some (lists qs))
      × Perm qs (p ∷ ps)
      × IsSorted (prio_in s) qs
insert_proc_q-IsSorted s v h p ps r free e short sorted =
    let (m, run, rings) = insert_proc_q-insert_prio s v h p r free ps e short in
    (
      m,
      _,
      insert_prio (prio_in s) p ps,
      run,
      rings,
      ground arith,
      insert_prio-perm (prio_in s) p ps,
      insert_prio-IsSorted (prio_in s) p ps sorted,
    )

-- ===== src/Asl/Find.antt =====
-- The search for the descriptor of a key in the active semaphore list.
use progetto_sistemi_operati.Base.{
  ℕ, zero, suc, ◌+◌, ◌<◌, ◌≤◌, ◌≡◌, ◌≢◌, refl, sym, none, some, List, [], ◌∷◌, ◌++◌, arith, length,
  first_of, All, NotIn, Distinct,
}
use progetto_sistemi_operati.Memory.{Item, of_head, s_link, semd_active}
use progetto_sistemi_operati.Listx.View.{View, Rings, addrs}
use progetto_sistemi_operati.Listx.Delete.{next_at}
use progetto_sistemi_operati.Listx.Queue.{next_head}
use progetto_sistemi_operati.Listx.Sequences.{All-append_left, All-append_right}
use progetto_sistemi_operati.Store.{Store, ok, semd_of_link}
use progetto_sistemi_operati.Pcb.{max_proc}
use progetto_sistemi_operati.Asl.{find_semd, active_semd}
use progetto_sistemi_operati.Asl.View.{Sem, Asl, HoldsSem, descs, keys}

descs-snoc :
    (xs : List Sem) (x : Sem) (zs : List Item)
    → descs (xs ++ x ∷ []) ++ zs ≡ descs xs ++ s_link x.desc ∷ zs
descs-snoc [] x zs = refl
descs-snoc (y ∷ xs) x zs = rw (descs-snoc xs x zs)

module _ (s : Store) (v : View) (k : ℕ) (r : Rings s.links v) where
  find_semd-hit :
      (fuel : ℕ) (seen before : List Sem) (x : Sem) (after : List Sem)
      → v.items semd_active ≡ some (descs seen ++ descs (before ++ x ∷ after))
      → All (HoldsSem s v) before
      → s.s_key x.desc ≡ k
      → NotIn k (keys before)
      → length before < fuel
      → find_semd fuel (first_of (addrs (descs (before ++ x ∷ after))) (of_head semd_active)) k s
        ≡ ok (some x.desc) s
  unfolding find_semd semd_of_link
  find_semd-hit zero seen before x after e h hit n fuel = absurd (omega arith)
  find_semd-hit (suc f) seen [] x after e h hit n fuel = ground arith
  find_semd-hit (suc f) seen (y ∷ before) x after e h hit n fuel = ground (
    arith,
    h.0.keyed,
    n.0,
    next_at s.links v semd_active (s_link y.desc) (descs seen) (descs (before ++ x ∷ after)) r e,
    find_semd-hit f (seen ++ y ∷ []) before x after
        (rw (descs-snoc seen y (descs (before ++ x ∷ after))) e) h.1 hit n.1 (omega arith),
  )

  find_semd-miss :
      (fuel : ℕ) (seen xs : List Sem)
      → v.items semd_active ≡ some (descs seen ++ descs xs)
      → All (HoldsSem s v) xs
      → NotIn k (keys xs)
      → length xs < fuel
      → find_semd fuel (first_of (addrs (descs xs)) (of_head semd_active)) k s ≡ ok none s
  unfolding find_semd semd_of_link
  find_semd-miss zero seen xs e h n fuel = absurd (omega arith)
  find_semd-miss (suc f) seen [] e h n fuel = ground arith
  find_semd-miss (suc f) seen (y ∷ xs) e h n fuel = ground (
    arith,
    h.0.keyed,
    n.0,
    next_at s.links v semd_active (s_link y.desc) (descs seen) (descs xs) r e,
    find_semd-miss f (seen ++ y ∷ []) xs (rw (descs-snoc seen y (descs xs)) e) h.1 n.1
        (omega arith),
  )

-- The walk from the first active semaphore finds the first one with the key.
pub active_semd-hit :
    (s : Store) (v : View) (before : List Sem) (x : Sem) (after : List Sem) (spare : List ℕ)
    → Asl s v (before ++ x ∷ after) spare
    → NotIn x.key (keys before)
    → length before ≤ max_proc
    → active_semd x.key s ≡ ok (some x.desc) s
active_semd-hit s v before x after spare a n short =
    let h = All-append_right (HoldsSem s v) before (x ∷ after) a.holds in
    rw (next_head s.links v semd_active (descs (before ++ x ∷ after)) a.rings a.active) (
      find_semd-hit s v x.key a.rings (max_proc + 1) [] before x after a.active
        (All-append_left (HoldsSem s v) before (x ∷ after) a.holds) h.0.keyed n (omega arith))

-- It finds none where no active semaphore has the key.
pub active_semd-miss :
    (s : Store) (v : View) (k : ℕ) (sems : List Sem) (spare : List ℕ)
    → Asl s v sems spare
    → NotIn k (keys sems)
    → length sems ≤ max_proc
    → active_semd k s ≡ ok none s
active_semd-miss s v k sems spare a n short =
    rw (next_head s.links v semd_active (descs sems) a.rings a.active)
      (find_semd-miss s v k a.rings (max_proc + 1) [] sems a.active a.holds n (omega arith))

-- The semaphores in front of one have other keys.
pub keys-before :
    (before : List Sem) (x : Sem) (after : List Sem)
    → Distinct (keys (before ++ x ∷ after))
    → NotIn x.key (keys before) × NotIn x.key (keys after)
keys-before [] x after d = (tt, d.0)
keys-before (y ∷ before) x after d =
    let rest = keys-before before x after d.1 in (((λ e. apart (sym e)), rest.0), rest.1)
  where
    NotIn-mid : (zs : List Sem) → NotIn y.key (keys (zs ++ x ∷ after)) → y.key ≢ x.key
    NotIn-mid [] n = n.0
    NotIn-mid (z ∷ zs) n = NotIn-mid zs n.1

    apart : y.key ≢ x.key
    apart = NotIn-mid before d.0

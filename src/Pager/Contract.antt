-- ===== src/Pager/Contract.antt =====
-- What the support level relies on, and the semaphore of the swap pool as a lock on it.
use progetto_sistemi_operati.Base.{
  ◌==◌, ℕ, ◌+◌, ◌^◌, ◌<◌, ◌≡◌, ◌≢◌, sym, subst, Bool, true, false, none, some, List, [], ◌∷◌,
  if◌then◌else◌,
}
use progetto_sistemi_operati.Memory.{Item, s_list, support_free}
use progetto_sistemi_operati.Listx.View.{View, Rings}
use progetto_sistemi_operati.Store.{Exit}
use progetto_sistemi_operati.Swap.{Pool, pool_size, minus_one}
use progetto_sistemi_operati.Process.{Tree, and_then}
use progetto_sistemi_operati.Process.Protocol.{
  Effect, takes, gives, ends, alone, other, Follows, Still, Follows-and_then, Follows-held,
}
use progetto_sistemi_operati.World.{
  World, Layout, Sem, swap_pool, master, shell, terminal_write, terminal_read, Op, passeren, do_io,
  verhogen, get_support_ptr, term_process, except_state,
}
use progetto_sistemi_operati.Pager.{hi_of, lo_of}

abbrev pub same_sem : Sem → Sem → Bool
same_sem swap_pool swap_pool = true
same_sem master master = true
same_sem shell shell = true
same_sem terminal_write terminal_write = true
same_sem terminal_read terminal_read = true
same_sem _ _ = false

-- What an operation does to a semaphore while the process serves an exception of the kind `k`.
-- `TERMPROCESS` does not return. At a system call (`k` is 1) the process must not hold the semaphore
-- where it waits for a device or for another semaphore; the pager (`k` is 0) holds it at its transfers.
abbrev pub effect_on : ℕ → Sem → Op → Effect
effect_on k sem (passeren a) = if same_sem sem a then takes else if k == 0 then other else alone
effect_on k sem (verhogen a) = if same_sem sem a then gives else other
effect_on k sem (do_io a c) = if k == 0 then other else alone
effect_on k sem term_process = ends
effect_on k sem _ = other

abbrev pub structures : List ℕ → List Item
structures [] = []
structures (u ∷ us) = s_list u ∷ structures us

-- The structure `i` is in use: the lists are well formed, and it is not among the free structures.
pub record Own (i : ℕ) (w : World) : Type 0 where
  pub view : View
  pub rings : Rings w.store.links view
  pub spare : List ℕ
  pub listed : view.items support_free ≡ some (structures spare)
  pub mine : view.owner (s_list i) ≡ none

-- What the nucleus and the other processes do at an operation of the process with the structure `i`,
-- at the address `sup`, while it serves an exception of the kind `k`: the nucleus tells it its own
-- structure, and the others keep away from what is its own. Fewer than 2 ^ 31 - 1 frames have been
-- taken by turns.
pub record Answers (y : Layout) (i sup k : ℕ) (o : Op) (w : World) (r : ℕ) (v : World)
    : Type 0 where
  pub own : Own i w → Own i v
  pub asid : (v.user i).asid ≡ (w.user i).asid
  pub hi : (p : ℕ) → hi_of i p v ≡ hi_of i p w
  pub state : except_state sup k v ≡ except_state sup k w
  pub pointer : o ≡ get_support_ptr → r ≡ sup
  pub counter : o ≡ passeren swap_pool → v.pool.frame_index + 1 < 2 ^ 31

-- What the semaphore of the swap pool guards for the process: the pool, and which of its pages are
-- valid.
abbrev pub swap_part : ℕ → World → Pool × (ℕ → ℕ)
swap_part i w = (w.pool, λ p. lo_of i p w)

-- A frame in use names an entry of a page table, and that of the page that it records.
abbrev pub IsTraced : Pool → Type 0
IsTraced s =
    (c : ℕ)
    → c < pool_size
    → (s.frame c).sw_asid ≢ minus_one
    → (j : ℕ) × ((s.frame c).sw_pte ≡ some (j, (s.frame c).sw_page_no))

-- The process keeps to the semaphore of the swap pool.
abbrev pub KeepsPool :
    {A : Type 0} (y : Layout) (i sup k : ℕ)
    → (Exit → World → Type 0)
    → (Bool → A → World → Type 0)
    → Bool
    → World
    → Tree Op World A
    → Type 0
KeepsPool y i sup k Leaves Q h w t =
    Follows (effect_on k swap_pool) (swap_part i) (λ g. IsTraced g.0) (Answers y i sup k) Leaves Q h
      (swap_part i w) t

module _ (y : Layout) (i sup k : ℕ) (Leaves : Exit → World → Type 0) where
  -- One program after another, where the first returns with the semaphore held.
  pub KeepsPool-held :
      {A B : Type 0} (Q : A → World → Type 0) (R : Bool → B → World → Type 0) (t : Tree Op World A)
      (g : A → World → Tree Op World B) (w : World)
      → KeepsPool y i sup k Leaves (λ h a u. (h ≡ true) × Q a u) true w t
      → ((a : A) (u : World) → Q a u → KeepsPool y i sup k Leaves R true u (g a u))
      → KeepsPool y i sup k Leaves R true w (and_then t g)
  KeepsPool-held Q R t g w first rest =
      Follows-and_then (effect_on k swap_pool) (swap_part i) (λ g. IsTraced g.0) (Answers y i sup k)
        Leaves (λ h a u. (h ≡ true) × Q a u) R t g true (swap_part i w) first
        (λ h l a u still q.
          subst
            (λ b.
              Follows (effect_on k swap_pool) (swap_part i) (λ g. IsTraced g.0) (Answers y i sup k)
                Leaves R b l (g a u))
            (sym q.0)
            (Follows-held (effect_on k swap_pool) (swap_part i) (λ g. IsTraced g.0)
              (Answers y i sup k) Leaves R (g a u) (swap_part i u) l (rest a u q.1)))

  -- The same, where it returns without the semaphore.
  pub KeepsPool-free :
      {A B : Type 0} (Q : A → World → Type 0) (R : Bool → B → World → Type 0) (t : Tree Op World A)
      (g : A → World → Tree Op World B) (w : World)
      → KeepsPool y i sup k Leaves (λ h a u. (h ≡ false) × Q a u) false w t
      → ((a : A) (u : World) → Q a u → KeepsPool y i sup k Leaves R false u (g a u))
      → KeepsPool y i sup k Leaves R false w (and_then t g)
  KeepsPool-free {A = A} Q R t g w first rest =
      Follows-and_then (effect_on k swap_pool) (swap_part i) (λ g. IsTraced g.0) (Answers y i sup k)
        Leaves (λ h a u. (h ≡ false) × Q a u) R t g false (swap_part i w) first
        (λ h l a u still q. free h l a u q.0 still (rest a u q.1))
    where
      free :
          (h : Bool) (l : Pool × (ℕ → ℕ)) (a : A) (u : World)
          → h ≡ false
          → Still
              (effect_on k swap_pool)
              (swap_part i)
              (λ g. IsTraced g.0)
              (Answers y i sup k)
              Leaves
              h
              l
              u
          → KeepsPool y i sup k Leaves R false u (g a u)
          → Follows
              (effect_on k swap_pool)
              (swap_part i)
              (λ g. IsTraced g.0)
              (Answers y i sup k)
              Leaves
              R
              h
              l
              (g a u)
      free true l a u e still f = absurd (cc)
      free false l a u e still f =
          subst
            (λ m.
              Follows (effect_on k swap_pool) (swap_part i) (λ g. IsTraced g.0) (Answers y i sup k)
                Leaves R false m (g a u))
            still f

-- ===== src/Asl/Init.antt =====
-- `initASL` of phase1/asl.c: no active semaphore, and every descriptor free with an empty queue.
use native.Mathlib.Numerals.{add-one}
use progetto_sistemi_operati.Base.{
  ℕ, zero, suc, ◌+◌, ◌≤◌, ◌≡◌, ◌≢◌, refl, ◌∙◌, none, some, [], arith, All, for_range_inv,
}
use progetto_sistemi_operati.Memory.{Head, Item, s_link, s_procq, semd_active, semd_free}
use progetto_sistemi_operati.Listx.View.{View, Rings, enter}
use progetto_sistemi_operati.Listx.Init.{create, init_head-Rings}
use progetto_sistemi_operati.Listx.Queue.{list_add-Rings}
use progetto_sistemi_operati.Store.{Store}
use progetto_sistemi_operati.Pcb.{max_proc}
use progetto_sistemi_operati.Pcb.Free.{down}
use progetto_sistemi_operati.Asl.{init_semd, init_asl}
use progetto_sistemi_operati.Asl.View.{Asl, semds}

-- The view while the first `i` descriptors have been prepared.
pub record Prepared (v : View) (i : ℕ) (s : Store) : Type 0 where
  pub view : View
  pub asl : Asl s view [] (down i)
  pub unlisted : (c : ℕ) → i ≤ c → view.owner (s_link c) ≡ none
  pub vacant : (c : ℕ) → i ≤ c → (j : Item) → view.owner j ≢ some (s_procq c)
  pub alike :
      (h : Head)
      → h ≢ semd_free
      → h ≢ semd_active
      → ((c : ℕ) → h ≢ s_procq c)
      → view.items h ≡ v.items h
  pub members : (c : ℕ) (h : Head) → view.owner (s_link c) ≡ some h → h ≡ semd_free
  pub owners : (j : Item) → ((c : ℕ) → j ≢ s_link c) → view.owner j ≡ v.owner j

idle-down :
    (v w : View) (i n : ℕ)
    → n ≤ i
    → ((c : ℕ) → c ≢ i → w.items (s_procq c) ≡ v.items (s_procq c))
    → All (λ z. v.items (s_procq z) ≡ some []) (down n)
    → All (λ z. w.items (s_procq z) ≡ some []) (down n)
idle-down v w i zero le same a = tt
idle-down v w i (suc n) le same a =
    (same n (omega arith) ∙ a.0, idle-down v w i n (omega arith) same a.1)

Prepared-step : (v : View) (i : ℕ) (s : Store) → Prepared v i s → Prepared v (i + 1) (init_semd i s)
unfolding init_semd
Prepared-step v i s f =
    let grown = enter semd_free (s_link i) (semds (down (suc i))) f.view in
    record {
      view = create (s_procq i) grown;
      asl = rw (add-one i) (record {
        rings =
            init_head-Rings _ grown (s_procq i)
              (list_add-Rings s.links f.view semd_free (s_link i) (semds (down i)) f.asl.rings
                f.asl.free (f.unlisted i (omega arith)))
              (λ j o. f.vacant i (omega arith) j (ground arith));
        active = ground (arith, f.asl.active);
        free = ground arith;
        holds = tt;
        unique = tt;
        idle = (
          ground arith,
          idle-down f.view (create (s_procq i) grown) i i (omega arith) (λ c ne. ground arith)
              f.asl.idle,
        );
      });
      unlisted = λ c le. ground (arith, f.unlisted c (omega arith));
      vacant = λ c le j o. f.vacant c (omega arith) j (ground arith);
      alike = λ h n1 n2 n3. ground (arith, f.alike h n1 n2 n3, n3 i);
      members = λ c h o. ground (arith, f.members c h);
      owners = λ j ne. ground (arith, f.owners j ne, ne i);
    }

-- Over well-formed lists in which nothing is in a list of semaphores or blocked on one, and no
-- descriptor is in a list, `initASL` leaves no semaphore active and the descriptors 19 to 0 free with
-- empty queues; the lists other than the semaphores' and the owners of all items but descriptors stay.
pub init_asl-Prepared :
    (s : Store) (v : View)
    → Rings s.links v
    → ((j : Item) → v.owner j ≢ some semd_free)
    → ((j : Item) → v.owner j ≢ some semd_active)
    → ((c : ℕ) (j : Item) → v.owner j ≢ some (s_procq c))
    → ((c : ℕ) → v.owner (s_link c) ≡ none)
    → Prepared v max_proc (init_asl s)
unfolding init_asl
init_asl-Prepared s v r no_free no_active no_queue unlisted =
    for_range_inv (Prepared v) init_semd (Prepared-step v) max_proc 0 max_proc _ (omega arith)
      (record {
        view = create semd_active (create semd_free v);
        asl = record {
          rings =
              init_head-Rings _ _ semd_active (init_head-Rings s.links v semd_free r no_free)
                no_active;
          active = ground arith;
          free = ground arith;
          holds = tt;
          unique = tt;
          idle = tt;
        };
        unlisted = λ c le. unlisted c;
        vacant = λ c le j. no_queue c j;
        alike = λ h n1 n2 n3. ground arith;
        members = λ c h o. absurd (ground (arith, unlisted c));
        owners = λ j ne. refl;
      })

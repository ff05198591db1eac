-- ===== src/Start/Shell.antt =====
-- What `test` of phase3/initProc.c prepares, and how it starts the shell.
use native.Mathlib.Numerals.{add-one}
use progetto_sistemi_operati.Base.{
  ℕ, suc, ◌+◌, ◌*◌, ◌%◌, ◌^◌, ◌<◌, ◌≤◌, ◌≡◌, ◌≢◌, refl, ◌∙◌, ap, none, some, inl, inr, arith, ◌==◌,
  if◌then◌else◌, for_range, for_range_inv, Bool-cases, fun_ext,
}
use progetto_sistemi_operati.Memory.{Item, s_list, support_free}
use progetto_sistemi_operati.Listx.{list_del}
use progetto_sistemi_operati.Listx.View.{View, Rings, enter, leave}
use progetto_sistemi_operati.Listx.Init.{create, init_head-Rings}
use progetto_sistemi_operati.Listx.Queue.{list_add-Rings}
use progetto_sistemi_operati.Store.{panic, on_links}
use progetto_sistemi_operati.Pcb.Free.{down}
use progetto_sistemi_operati.Supports.{list_of_support, allocate_support_lem}
use progetto_sistemi_operati.Swap.{
  Pool, Handlers, UserSupport, pool_size, minus_one, no_page, init_swap_structs,
  init_support_structure, init_u_proc_state,
}
use progetto_sistemi_operati.Swap.Frames.{init_swap_structs-frame}
use progetto_sistemi_operati.Process.{Tree, ret, perform, leave as depart, exit, call, ◌>>◌}
use progetto_sistemi_operati.World.{
  World, Layout, Op, passeren, master, create_process, term_process, on_user,
}
use progetto_sistemi_operati.Pager.{shell_asid}
use progetto_sistemi_operati.Pager.Contract.{structures, Own, IsTraced}
use progetto_sistemi_operati.Start.{uproc_max, free_support, init_tables, start_shell, test}

-- The memory while the first `i` structures are free.
pub record Stocked (y : Layout) (p : Pool) (i : ℕ) (w : World) : Type 0 where
  pub view : View
  pub rings : Rings w.store.links view
  pub free : view.items support_free ≡ some (structures (down i))
  pub rest : (c : ℕ) → i ≤ c → view.owner (s_list c) ≡ none
  pub flash : (k : ℕ) → k < i → w.store.machine.word ((y.flash_semaphore + 4 * k) % 2 ^ 32) ≡ 1
  pub pool : w.pool ≡ p

Stocked-step :
    (y : Layout) (p : Pool) (i : ℕ) (w : World)
    → Stocked y p i w
    → Stocked y p (i + 1) (free_support y i w)
unfolding free_support
Stocked-step y p i w f = record {
  view = enter support_free (s_list i) (structures (down (suc i))) f.view;
  rings =
      list_add-Rings w.store.links f.view support_free (s_list i) (structures (down i)) f.rings
        f.free (f.rest i (omega arith));
  free = rw (add-one i) (ground arith);
  rest = λ c le. ground (arith, f.rest c (omega arith));
  flash = λ k lt.
      let a = (y.flash_semaphore + 4 * i) % 2 ^ 32 in
      elim (Bool-cases (i == k)) [
        | inl e ↦ ground (arith, e)
        | inr e ↦ ground (arith, f.flash k (ground arith))
      ];
  pool = f.pool;
}

init_tables-Stocked :
    (y : Layout) (w : World) (v : View)
    → Rings w.store.links v
    → ((j : Item) → v.owner j ≢ some support_free)
    → ((c : ℕ) → v.owner (s_list c) ≡ none)
    → Stocked y (init_swap_structs w.pool) uproc_max (init_tables y w)
unfolding init_tables
init_tables-Stocked y w v r vacant unlisted =
    for_range_inv (Stocked y (init_swap_structs w.pool)) (free_support y)
      (Stocked-step y (init_swap_structs w.pool)) uproc_max 0 uproc_max _ (omega arith)
      (record {
        view = create support_free v;
        rings = init_head-Rings w.store.links v support_free r vacant;
        free = ground arith;
        rest = λ c le. unlisted c;
        flash = λ k lt. absurd (omega arith);
        pool = refl;
      })

-- The memory in which the shell is created: the structure 7 is the shell's own and bears its asid,
-- the structures 6 to 0 are free, and so is every frame.
pub record Provided (y : Layout) (m : World) : Type 0 where
  pub own : Own 7 m
  pub spare : own.spare ≡ down 7
  pub traced : IsTraced m.pool
  pub empty : (c : ℕ) → c < pool_size → m.pool.frame c ≡ no_page
  pub flash : (k : ℕ) → k < 8 → m.store.machine.word ((y.flash_semaphore + 4 * k) % 2 ^ 32) ≡ 1
  pub asid : (m.user 7).asid ≡ shell_asid

-- What follows the creation of the shell: if it failed the machine panics; otherwise the first
-- process waits on the master semaphore, and then ends.
abbrev pub awaits : ℕ → World → Tree Op World (Unit {0})
awaits r w =
    if r == minus_one
    then depart panic w
    else perform (passeren master) w (λ _ w'. perform term_process w' (λ _ w''. ret tt w''))

init_support_structure-asid :
    (h : Handlers) (asid : ℕ) (x : UserSupport) → (init_support_structure h asid x).asid ≡ asid
unfolding init_support_structure for_range
init_support_structure-asid h asid x = refl

launched :
    (r : ℕ) (w : World)
    → ((λ w. if r == minus_one then exit panic w else ret tt w)
          >> (call (passeren master) >> call term_process))
        w
      ≡ awaits r w
launched r w = elim (Bool-cases (r == minus_one)) [ inl e ↦ rw e refl | inr e ↦ rw e refl ]

-- Over well-formed lists in which no structure is in a list and nothing is in the list of free ones,
-- the first process makes every frame and every structure free, sets the semaphores of the flash
-- devices to 1, and creates the shell on the structure 7, with the asid 1, the state of a user
-- process and the priority 0. If that fails the machine panics; otherwise the process waits on the
-- master semaphore, and ends when it has been signalled.
pub test_lem :
    (y : Layout) (w : World) (v : View)
    → Rings w.store.links v
    → ((j : Item) → v.owner j ≢ some support_free)
    → ((c : ℕ) → v.owner (s_list c) ≡ none)
    → (m : World) × (test y w
        ≡ perform
            (create_process
              (init_u_proc_state y.gpr_len y.reg_sp shell_asid y.on_stack)
              0
              (y.support_addr 7))
            m
            awaits)
      × Provided y m
unfolding test start_shell
test_lem y w v r vacant unlisted =
    let f = init_tables-Stocked y w v r vacant unlisted in
    let t = init_tables y w in
    let taken =
      (allocate_support_lem t.store f.view (structures (down 8)) f.rings f.free).1 7
        (structures (down 7)) refl in
    let s1 = on_links (list_del (list_of_support 7)) t.store in
    let m = on_user 7 (init_support_structure y.handlers shell_asid) (record t { store = s1 }) in
    let created : Op =
      create_process (init_u_proc_state y.gpr_len y.reg_sp shell_asid y.on_stack) 0
        (y.support_addr 7) in
    let frames : (c : ℕ) → c < pool_size → m.pool.frame c ≡ no_page =
      λ c lt. ap (λ p. p.frame c) f.pool ∙ init_swap_structs-frame w.pool c lt in
    (
      m,
      rw taken.0 (ap (perform created m) (fun_ext (λ a. fun_ext (λ u. launched a u)))),
      record {
        own = record {
          view = leave support_free (s_list 7) (structures (down 7)) f.view;
          rings = taken.1;
          spare = down 7;
          listed = ground arith;
          mine = ground arith;
        };
        spare = refl;
        traced = λ c lt used. absurd (used (ap (λ x. x.sw_asid) (frames c lt)));
        empty = frames;
        flash = f.flash;
        asid = ground (arith, init_support_structure-asid y.handlers shell_asid (t.user 7));
      },
    )

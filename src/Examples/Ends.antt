-- ===== src/Examples/Ends.antt =====
-- The end of a process with descendants at a sample state.
use progetto_sistemi_operati.Base.{◌≡◌, refl, none, some, inl, inr, [], ◌∷◌, arith}
use progetto_sistemi_operati.Memory.{of_head, of_item, ready_queue, p_list, p_sib, p_child}
use progetto_sistemi_operati.Listx.{list_add_tail}
use progetto_sistemi_operati.Listx.View.{View, Rings, enter}
use progetto_sistemi_operati.Listx.Queue.{list_add_tail-Rings}
use progetto_sistemi_operati.Store.{Store, on_links}
use progetto_sistemi_operati.Pcb.Tree.{Tree, adopted, insert_child-Tree}
use progetto_sistemi_operati.Asl.Waiting.{waiting}
use progetto_sistemi_operati.Nucleus.Platform.{on_machine, put_current}
use progetto_sistemi_operati.Nucleus.Scheduler.{scheduler}
use progetto_sistemi_operati.Nucleus.Syscalls.{terminate_process}
use progetto_sistemi_operati.Nucleus.Exceptions.{pass_up_or_die}
use progetto_sistemi_operati.Nucleus.Wakes.{Asl-same}
use progetto_sistemi_operati.Nucleus.Kernel.{Lists, Kernel}
use progetto_sistemi_operati.Nucleus.Killed.{Killed}
use progetto_sistemi_operati.Nucleus.Forest.{Forest, end, tree, Rooted}
use progetto_sistemi_operati.Nucleus.Terminate.{terminate_process-Killed}
use progetto_sistemi_operati.Examples.{sample_state, semd_links, semd_view, semd-Asl, store_with}
use progetto_sistemi_operati.Examples.Calls.{platform}

-- PCB 1 is a child of PCB 0 and has the children 3 and 2; PCB 3 is ready, PCB 1 runs, and its a1
-- holds 0.
abbrev first : Store
first = adopted 0 1 (store_with semd_links)

abbrev first_view : View
first_view = enter (p_child 0) (p_sib 1) (p_sib 1 ∷ []) semd_view

abbrev second : Store
second = adopted 1 2 first

abbrev second_view : View
second_view = enter (p_child 1) (p_sib 2) (p_sib 2 ∷ []) first_view

abbrev third_view : View
third_view = enter (p_child 1) (p_sib 3) (p_sib 3 ∷ p_sib 2 ∷ []) second_view

abbrev grown : Store
grown =
    on_machine (λ m. record m { state_at = λ a. record sample_state { gpr = λ k. 0 } })
      (record (on_links (list_add_tail (of_item (p_list 3)) (of_head ready_queue))
        (adopted 1 3 second)) { current_process = some 1 })

abbrev grown_lists : Lists
grown_lists = record {
  view = enter ready_queue (p_list 3) (p_list 3 ∷ []) third_view;
  sems = [];
  spare = 0 ∷ 1 ∷ [];
  ready = 3 ∷ [];
  free = [];
}

first-Tree : Tree first first_view
first-Tree =
    (insert_child-Tree (store_with semd_links) semd_view
      (record { rings = semd-Asl.rings; parent = λ c. ground arith }) 0 1 [] (ground arith) refl).1

second-Tree : Tree second second_view
second-Tree = (insert_child-Tree first first_view first-Tree 1 2 [] (ground arith) (ground arith)).1

third-Tree : Tree (adopted 1 3 second) third_view
third-Tree =
    (insert_child-Tree second second_view second-Tree 1 3 (2 ∷ []) (ground arith) (ground arith)).1

grown-Rings : Rings grown.links grown_lists.view
grown-Rings =
    list_add_tail-Rings (adopted 1 3 second).links third_view ready_queue (p_list 3) []
      third-Tree.rings (ground arith) (ground arith)

grown-Kernel : Kernel grown grown_lists
unfolding waiting
grown-Kernel = record {
  asl =
      Asl-same (store_with semd_links) semd_view grown grown_lists.view refl (λ z. ground arith)
        (λ z. ground arith) [] (0 ∷ 1 ∷ []) (ground arith) (ground arith) grown-Rings semd-Asl;
  parent = λ c. ground (arith, third-Tree.parent c);
  queued = ground arith;
  free = ground arith;
  few = omega arith;
  room = omega arith;
  short = λ j. omega arith;
}

abbrev kids : Forest
kids = tree 3 end (tree 2 end end)

kids-Rooted : Rooted kids 1 grown grown_lists
kids-Rooted = record {
  kernel = grown-Kernel;
  children = ground arith;
  grows = (ground arith, tt, (ground arith, tt, tt));
  placed = (inl (ground arith, inr (ground arith)), (inl (ground arith, inl (ground arith)), tt));
  distinct = omega arith;
}

terminate_process-Killed_example :
    (t : Store) × (l : Lists) × (terminate_process platform 0 grown
      ≡ scheduler (put_current none t))
    × (pass_up_or_die platform 1 0 grown ≡ scheduler (put_current none t))
    × Killed platform 0 (3 ∷ 2 ∷ 1 ∷ []) grown grown_lists t l
    × (l.view.items (p_child 0) ≡ some [])
terminate_process-Killed_example =
    terminate_process-Killed platform kids 1 grown grown_lists kids-Rooted
      (inl (ground arith, inl (ground arith))) (omega arith) 0 [] [] (ground arith) (ground arith)
      (omega arith) (omega arith) refl 0 1 refl (ground arith)

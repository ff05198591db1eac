-- ===== src/Examples/Lists.antt =====
-- The theorems on lists, queues and the process tree at the sample states.
use mathlib.Core.List.{Perm}
use progetto_sistemi_operati.Base.{ℕ, ◌≡◌, refl, some, List, [], ◌∷◌, arith}
use progetto_sistemi_operati.Memory.{
  of_head, of_item, ready_queue, pcb_free, p_child, p_list, p_sib, Links,
}
use progetto_sistemi_operati.Listx.{list_add_between, list_add, list_del}
use progetto_sistemi_operati.Listx.View.{View, Rings, enter, leave}
use progetto_sistemi_operati.Listx.Insert.{list_add_between-Rings}
use progetto_sistemi_operati.Listx.Delete.{list_del-Rings}
use progetto_sistemi_operati.Listx.Queue.{list_add-Rings}
use progetto_sistemi_operati.Store.{Store, ok, on_links}
use progetto_sistemi_operati.Pcb.{list_of_pcb, insert_proc_q, remove_proc_q}
use progetto_sistemi_operati.Pcb.Queue.{
  lists, insert_prio, prio_in, insert_proc_q-insert_prio, remove_proc_q-cons,
}
use progetto_sistemi_operati.Pcb.Order.{IsSorted, insert_proc_q-IsSorted}
use progetto_sistemi_operati.Pcb.Tree.{Tree, adopted, insert_child-Tree}
use progetto_sistemi_operati.Examples.{
  start, start_view, start-Rings, start-Tree, ready_links, ready_view, ready-Rings, store_with,
}

list_add_between-Rings_example :
    Rings
      (list_add_between (of_item (p_list 7)) (of_item (p_list 3)) (of_item (p_list 2)) ready_links)
      (enter ready_queue (p_list 7) (p_list 3 ∷ p_list 7 ∷ p_list 2 ∷ p_list 1 ∷ []) ready_view)
list_add_between-Rings_example =
    list_add_between-Rings ready_links ready_view ready_queue (p_list 7) (p_list 3 ∷ [])
      (p_list 2 ∷ p_list 1 ∷ []) ready-Rings (ground arith) (ground arith)

list_del-Rings_example :
    Rings
      (list_del (of_item (p_list 2)) ready_links)
      (leave ready_queue (p_list 2) (p_list 3 ∷ p_list 1 ∷ []) ready_view)
list_del-Rings_example =
    list_del-Rings ready_links ready_view ready_queue (p_list 2) (p_list 3 ∷ []) (p_list 1 ∷ [])
      ready-Rings (ground arith)

abbrev ready : Store
ready = store_with ready_links

insert_proc_q-insert_prio_example :
    (m : Links) × (insert_proc_q ready_queue 2 (store_with start)
      ≡ ok tt (record (store_with start) { links = m }))
    × Rings m (
        enter ready_queue
          (p_list 2)
          (lists (insert_prio (prio_in (store_with start)) 2 []))
          start_view)
insert_proc_q-insert_prio_example =
    insert_proc_q-insert_prio (store_with start) start_view ready_queue 2 start-Rings (ground arith)
      [] (ground arith) (omega arith)

insert_proc_q-IsSorted_example :
    (m : Links) × (w : View) × (qs : List ℕ) × (insert_proc_q ready_queue 5 ready
      ≡ ok tt (record ready { links = m }))
    × Rings m w
    × (w.items ready_queue ≡ some (lists qs))
    × Perm qs (5 ∷ 3 ∷ 2 ∷ 1 ∷ [])
    × IsSorted (prio_in ready) qs
insert_proc_q-IsSorted_example =
    insert_proc_q-IsSorted ready ready_view ready_queue 5 (3 ∷ 2 ∷ 1 ∷ []) ready-Rings
      (ground arith) (ground arith) (omega arith) (ground arith)

remove_proc_q-cons_example :
    (remove_proc_q ready_queue ready ≡ ok (some 3) (on_links (list_del (list_of_pcb 3)) ready))
    × Rings
        (list_del (list_of_pcb 3) ready_links)
        (leave ready_queue (p_list 3) (lists (2 ∷ 1 ∷ [])) ready_view)
remove_proc_q-cons_example =
    remove_proc_q-cons ready ready_view ready_queue ready-Rings 3 (2 ∷ 1 ∷ []) (ground arith)

-- PCB 4 is the only free one.
abbrev pub freed : Store
freed = store_with (list_add (list_of_pcb 4) (of_head pcb_free) start)

pub freed-Rings : Rings freed.links (enter pcb_free (p_list 4) (p_list 4 ∷ []) start_view)
freed-Rings =
    list_add-Rings start start_view pcb_free (p_list 4) [] start-Rings (ground arith) (ground arith)

abbrev family : Store
family = adopted 0 2 (adopted 0 1 (store_with start))

abbrev family_view : View
family_view =
    enter (p_child 0) (p_sib 2) (p_sib 2 ∷ p_sib 1 ∷ [])
      (enter (p_child 0) (p_sib 1) (p_sib 1 ∷ []) start_view)

first_child :
    Tree (adopted 0 1 (store_with start)) (enter (p_child 0) (p_sib 1) (p_sib 1 ∷ []) start_view)
first_child =
    (insert_child-Tree (store_with start) start_view start-Tree 0 1 [] (ground arith) refl).1

family-Tree : Tree family family_view
family-Tree =
    (insert_child-Tree (adopted 0 1 (store_with start)) _ first_child 0 2 (1 ∷ []) (ground arith)
      refl).1

-- ===== src/Listx.antt =====
-- headers/listx.h: the circular doubly linked lists of the kernel. A function that writes returns
-- the new links.
pub mod Seg
pub mod View
pub mod Sequences
pub mod Removal
pub mod Counts
pub mod Rings
pub mod Insert
pub mod Delete
pub mod Init
pub mod Queue
use progetto_sistemi_operati.Base.{Bool, true, false, ite, Option, none, some}
use progetto_sistemi_operati.Memory.{Addr, Addr-discrete, Links, set_next, set_prev}

abbrev pub addr_eq : Addr → Addr → Bool
addr_eq a b = ite (Addr-discrete a b) true false

unfoldable pub init_list_head : Addr → Links → Links
init_list_head list m = set_prev list list (set_next list list m)

unfoldable pub list_add_between : Addr → Addr → Addr → Links → Links
list_add_between new prev next m =
    set_next prev new (set_prev new prev (set_next new next (set_prev next new m)))

unfoldable pub list_add : Addr → Addr → Links → Links
list_add new head m = list_add_between new head (m.next head) m

unfoldable pub list_add_tail : Addr → Addr → Links → Links
list_add_tail new head m = list_add_between new (m.prev head) head m

unfoldable pub list_del_between : Addr → Addr → Links → Links
list_del_between prev next m = set_next prev next (set_prev next prev m)

unfoldable pub list_del : Addr → Links → Links
list_del entry m =
    let m1 = list_del_between (m.prev entry) (m.next entry) m in
    set_prev entry entry (set_next entry entry m1)

unfoldable pub list_is_last : Addr → Addr → Links → Bool
list_is_last list head m = addr_eq (m.next list) head

unfoldable pub list_empty : Addr → Links → Bool
list_empty head m = addr_eq (m.next head) head

unfoldable pub list_next : Addr → Links → Option Addr
list_next current m = ite (Addr-discrete (m.next current) current) none (some (m.next current))

unfoldable pub list_prev : Addr → Links → Option Addr
list_prev current m = ite (Addr-discrete (m.next current) current) none (some (m.prev current))

-- ===== src/Pcb.antt =====
-- phase1/pcb.c: the table of PCBs, the process queues and the process tree. A PCB is its index in
-- `pcbFree_table`; a pointer that may be null is an `Option`.
pub mod Queue
pub mod Free
pub mod Tree
pub mod Order
use progetto_sistemi_operati.Base.{
  ℕ, zero, suc, ◌+◌, ◌%◌, ◌^◌, ◌≡◌, Bool, true, false, Option, none, some, ◌==◌, if◌then◌else◌, ltb,
  for_range,
}
use progetto_sistemi_operati.Memory.{
  Addr, Head, of_head, of_item, pcb_free, p_child, p_list, p_sib, Links,
}
use progetto_sistemi_operati.Listx.{
  addr_eq, init_list_head, list_add, list_add_tail, list_del, list_empty,
}
use progetto_sistemi_operati.Store.{
  Store, CpuState, Pcb, Run, Cmd, ok, stop, fault, out_of_fuel, pure, gets, modify, and_then, ◌>>=◌,
  ◌>>◌, on_links, on_pcb, put_pcb, pcb_of_list, pcb_of_sib, signed_lt,
}

abbrev pub max_proc : ℕ
max_proc = 20

abbrev pub list_of_pcb : ℕ → Addr
list_of_pcb p = of_item (p_list p)

abbrev pub sib_of_pcb : ℕ → Addr
sib_of_pcb p = of_item (p_sib p)

unfoldable pub init_pcbs : Store → Store
init_pcbs s =
    for_range max_proc 0 (λ c. on_links (list_add (list_of_pcb c) (of_head pcb_free)))
      (on_links (init_list_head (of_head pcb_free)) s)

unfoldable pub free_pcb : ℕ → Cmd (Unit {0})
free_pcb p = modify (on_links (list_add (list_of_pcb p) (of_head pcb_free)))

-- The loop over the registers: `STATE_GPR_LEN` of them are set to 0.
unfoldable pub clear_gpr : ℕ → (ℕ → ℕ) → ℕ → ℕ
clear_gpr gpr_len gpr = for_range gpr_len 0 (λ c g k. if c == k then 0 else g k) gpr

abbrev pub clear_state : ℕ → CpuState → CpuState
clear_state gpr_len x = record {
  entry_hi = 0;
  cause = 0;
  status = 0;
  pc_epc = 0;
  mie = 0;
  gpr = clear_gpr gpr_len x.gpr;
}

abbrev pub clear_pcb : ℕ → ℕ → Pcb → Pcb
clear_pcb gpr_len pid x = record {
  parent = none;
  state = clear_state gpr_len x.state;
  time = 0;
  sem_add = 0;
  support_struct = 0;
  prio = 0;
  pid = pid;
}

-- The fields of a PCB that `allocPcb` hands out, its pid taken from `next_pid`.
unfoldable pub reset_pcb : ℕ → ℕ → Store → Store
reset_pcb gpr_len p s =
    let s1 = record s { next_pid = (s.next_pid + 1) % 2 ^ 32 } in
    let s2 =
      on_links (λ m. init_list_head (sib_of_pcb p) (init_list_head (of_head (p_child p)) m)) s1 in
    on_pcb p (clear_pcb gpr_len s.next_pid) s2

unfoldable pub alloc_pcb : ℕ → Cmd (Option ℕ)
alloc_pcb gpr_len s =
    if list_empty (of_head pcb_free) s.links
    then ok none s
    else (do
      entry ← gets (λ s. s.links.next (of_head pcb_free))
      modify (on_links (list_del entry))
      p ← pcb_of_list entry
      modify (reset_pcb gpr_len p)
      pure (some p))
        s

unfoldable pub mk_empty_proc_q : Head → Cmd (Unit {0})
mk_empty_proc_q h = modify (on_links (init_list_head (of_head h)))

unfoldable pub empty_proc_q : Head → Store → Bool
empty_proc_q h s = list_empty (of_head h) s.links

-- The walk of `insertProcQ` from `iter`: in front of the first PCB of lower priority, or at the end.
unfoldable pub insert_loop : ℕ → Head → ℕ → Addr → Cmd (Unit {0})
insert_loop zero h p iter s = out_of_fuel
insert_loop (suc fuel) h p iter s =
    if addr_eq iter (of_head h)
    then ok tt (on_links (list_add_tail (list_of_pcb p) (of_head h)) s)
    else (pcb_of_list iter >>= λ i s.
          let rest = insert_loop fuel h p (s.links.next iter) s in
          if signed_lt (s.pcb i).prio (s.pcb p).prio
          then ok tt (on_links (λ m. list_add (list_of_pcb p) (m.prev iter) m) s)
          else rest)
        s

-- A queue holds at most `max_proc` PCBs, so that the walk takes at most one round more.
unfoldable pub insert_proc_q : Head → ℕ → Cmd (Unit {0})
insert_proc_q h p s = insert_loop (max_proc + 1) h p (s.links.next (of_head h)) s

unfoldable pub head_proc_q : Head → Cmd (Option ℕ)
head_proc_q h s =
    if list_empty (of_head h) s.links
    then ok none s
    else (do p ← pcb_of_list (s.links.next (of_head h)); pure (some p)) s

unfoldable pub remove_proc_q : Head → Cmd (Option ℕ)
remove_proc_q h s =
    if list_empty (of_head h) s.links
    then ok none s
    else (do
      entry ← gets (λ s. s.links.next (of_head h))
      modify (on_links (list_del entry))
      p ← pcb_of_list entry
      pure (some p))
        s

unfoldable pub out_loop : ℕ → Head → ℕ → Addr → Cmd (Option ℕ)
out_loop zero h p iter s = out_of_fuel
out_loop (suc fuel) h p iter s =
    if addr_eq iter (of_head h)
    then ok none s
    else (pcb_of_list iter >>= λ i s.
          let rest = out_loop fuel h p (s.links.next iter) s in
          if i == p then ok (some p) (on_links (list_del iter) s) else rest)
        s

unfoldable pub out_proc_q : Head → ℕ → Cmd (Option ℕ)
out_proc_q h p s = out_loop (max_proc + 1) h p (s.links.next (of_head h)) s

unfoldable pub empty_child : Option ℕ → Store → Bool
empty_child none s = true
empty_child (some p) s = addr_eq (s.links.next (of_head (p_child p))) (of_head (p_child p))

unfoldable pub insert_child : Option ℕ → Option ℕ → Cmd (Unit {0})
insert_child none p = pure tt
insert_child (some prnt) none = pure tt
insert_child (some prnt) (some p) = do
  modify (on_pcb p (λ x. record x { parent = some prnt }))
  modify (on_links (list_add (sib_of_pcb p) (of_head (p_child prnt))))

-- Takes a child out of its parent's list.
unfoldable pub detach : ℕ → Cmd (Option ℕ)
detach c = do
  modify (on_links (list_del (sib_of_pcb c)))
  modify (on_pcb c (λ x. record x { parent = none }))
  modify (on_links (init_list_head (sib_of_pcb c)))
  pure (some c)

unfoldable pub remove_child : Option ℕ → Cmd (Option ℕ)
remove_child none s = ok none s
remove_child (some p) s =
    if empty_child (some p) s
    then ok none s
    else (do c ← pcb_of_sib (s.links.next (of_head (p_child p))); detach c) s

unfoldable pub out_child : Option ℕ → Cmd (Option ℕ)
out_child none s = ok none s
out_child (some p) s = elim (s.pcb p).parent [ none ↦ ok none s | some q ↦ detach p s ]

-- ===== src/Examples/Steps.antt =====
-- Steps of the kernel from the prepared tables.
use progetto_sistemi_operati.Base.{for_range, ℕ_discrete, ◌≡◌, refl, none, some}
use progetto_sistemi_operati.Memory.{ready_queue, Addr-discrete, Item-discrete, Head-discrete}
use progetto_sistemi_operati.Listx.{
  list_add_tail, list_del, list_empty, list_add, list_add_between, list_del_between, init_list_head,
}
use progetto_sistemi_operati.Store.{Store, Run, ok, stop, fault, out_of_fuel, pcb_of_list}
use progetto_sistemi_operati.Pcb.{
  alloc_pcb, insert_proc_q, remove_proc_q, init_pcbs, insert_loop, reset_pcb, clear_gpr,
}
use progetto_sistemi_operati.Asl.{init_asl, init_semd}
use progetto_sistemi_operati.Nucleus.Platform.{put_current}
use progetto_sistemi_operati.Nucleus.Tables.{tables}
use progetto_sistemi_operati.Nucleus.Sound.{Sound}
use progetto_sistemi_operati.Nucleus.Steps.{Reach, here, then, founds, dispatches, ends}
use progetto_sistemi_operati.Nucleus.Safety.{Blank, Safe, Reach-Sound, Reach-Safe}
use progetto_sistemi_operati.Examples.{store_with, semd_links}
use progetto_sistemi_operati.Examples.Calls.{platform}

abbrev new : Store
new = store_with semd_links

new-Blank : Blank new
new-Blank = record { parents = λ p. refl; awake = λ p. refl; idle = refl }

-- The state in which a run ends.
abbrev state_of : {A : Type 0} → Run A → Store
state_of (ok a s) = s
state_of (stop e s) = s
state_of fault = new
state_of out_of_fuel = new

-- PCB 19 is the first process, joins the ready queue and runs.
abbrev made : Store
made = state_of (alloc_pcb platform.gpr_len (tables new))

abbrev ready : Store
ready = state_of (insert_proc_q ready_queue 19 made)

abbrev taken : Store
taken = state_of (remove_proc_q ready_queue ready)

made_run : alloc_pcb platform.gpr_len (tables new) ≡ ok (some 19) made
unfolding pcb_of_list list_empty list_add list_add_between list_add_tail list_del list_del_between
    init_list_head init_asl init_semd init_pcbs for_range insert_loop insert_proc_q remove_proc_q
    alloc_pcb reset_pcb clear_gpr Addr-discrete Item-discrete Head-discrete ℕ_discrete
made_run = refl

ready_run : insert_proc_q ready_queue 19 made ≡ ok tt ready
unfolding pcb_of_list list_empty list_add list_add_between list_add_tail list_del list_del_between
    init_list_head init_asl init_semd init_pcbs for_range insert_loop insert_proc_q remove_proc_q
    alloc_pcb reset_pcb clear_gpr Addr-discrete Item-discrete Head-discrete ℕ_discrete
ready_run = refl

taken_run : remove_proc_q ready_queue ready ≡ ok (some 19) taken
unfolding pcb_of_list list_empty list_add list_add_between list_add_tail list_del list_del_between
    init_list_head init_asl init_semd init_pcbs for_range insert_loop insert_proc_q remove_proc_q
    alloc_pcb reset_pcb clear_gpr Addr-discrete Item-discrete Head-discrete ℕ_discrete
taken_run = refl

runs : Reach platform (tables new) (put_current (some 19) taken)
runs =
    then
      (then here (
        founds made_run
          (record { links = refl; keys = refl; sem_add = λ p. refl; parent = λ p. refl }) refl
          ready_run))
      (dispatches taken_run)

Reach-Safe_example : Safe platform (put_current (some 19) taken)
Reach-Safe_example = Reach-Safe platform new (put_current (some 19) taken) new-Blank runs

first-Safe : Safe platform (put_current (some 19) taken)
first-Safe = Reach-Safe platform new (put_current (some 19) taken) new-Blank runs

-- The state in which PCB 19 has ended.
abbrev ended : Store
ended = (first-Safe.ends 19 refl).0

runs_out : Reach platform (tables new) (put_current none ended)
runs_out = then runs (ends {p = 19} refl (first-Safe.ends 19 refl).1)

Reach-Sound_example : Sound (put_current none ended)
Reach-Sound_example = Reach-Sound platform new (put_current none ended) new-Blank runs_out

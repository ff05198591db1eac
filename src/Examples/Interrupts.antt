-- ===== src/Examples/Interrupts.antt =====
-- The theorems on the interrupts at sample states in which PCB 0 waits on the key 100.
use progetto_sistemi_operati.Base.{◌-◌, ◌^◌, ◌≡◌, ℕ, refl, some, List, [], ◌∷◌, arith}
use progetto_sistemi_operati.Store.{Store}
use progetto_sistemi_operati.Asl.View.{Asl}
use progetto_sistemi_operati.Asl.Waiting.{waiting}
use progetto_sistemi_operati.Asl.Spec.{Became}
use progetto_sistemi_operati.Nucleus.Platform.{
  Platform, device_sem, pseudo_index, psecond, put_word, incr, on_machine,
}
use progetto_sistemi_operati.Nucleus.Interrupts.{
  first_on, bitmap, handle_interval_clock, handle_device,
}
use progetto_sistemi_operati.Nucleus.Wakes.{goes_on, Asl-same}
use progetto_sistemi_operati.Nucleus.Clock.{AllWoken, handle_interval_clock_lem}
use progetto_sistemi_operati.Nucleus.Served.{
  sem_addr, device_status, acked, Served, handle_device_lem,
}
use progetto_sistemi_operati.Examples.Semaphores.{one, one_view, one_sem, one-Asl}
use progetto_sistemi_operati.Examples.Calls.{platform}

-- The address 100 is that of the pseudo-clock's semaphore.
abbrev clocked : Platform
clocked = record platform { device_semaphore = 2 ^ 32 - 92 }

clock_queue : waiting (device_sem clocked pseudo_index) (one_sem ∷ []) ≡ 0 ∷ []
unfolding waiting
clock_queue = refl

handle_interval_clock_lem_example :
    (t : Store) × (handle_interval_clock clocked 0 one ≡ goes_on 0 t)
    × (t.machine ≡ record one.machine { interval = psecond })
    × AllWoken
        (on_machine (λ m. record m { interval = psecond }) one)
        (device_sem clocked pseudo_index)
        (0 ∷ [])
        []
        (one_sem ∷ [])
        t
handle_interval_clock_lem_example =
    handle_interval_clock_lem clocked 0 one one_view (1 ∷ []) (one_sem ∷ []) (0 ∷ []) [] one-Asl
      (omega arith) (ground arith) (omega arith) clock_queue

-- The address 100 is that of the first disk's semaphore, and the disk interrupts.
abbrev disks : Platform
disks = record platform { device_semaphore = 100 }

abbrev ringing : Store
ringing = on_machine (λ m. record m { word = λ a. 1 }) one

ringing-Asl : Asl ringing one_view (one_sem ∷ []) (1 ∷ [])
ringing-Asl =
    Asl-same one one_view ringing one_view refl (λ z. refl) (λ z. refl) (one_sem ∷ []) (1 ∷ []) refl
      refl one-Asl.rings one-Asl

disk_0 : first_on (bitmap 3 ringing) ≡ some 0
unfolding first_on
disk_0 = refl

handle_device_lem_example :
    (waiting (sem_addr disks 3 0) (one_sem ∷ []) ≡ []
      → (t : Store) × (handle_device disks 3 0 ringing
          ≡ goes_on 0 (
              put_word
                (sem_addr disks 3 0)
                (incr ((acked disks 3 0 ringing).machine.word (sem_addr disks 3 0)))
                t))
        × Became (acked disks 3 0 ringing) one_view (sem_addr disks 3 0) [] (one_sem ∷ []) t)
    × ((p : ℕ) (ps : List ℕ)
        → waiting (sem_addr disks 3 0) (one_sem ∷ []) ≡ p ∷ ps
        → (t : Store) × (handle_device disks 3 0 ringing ≡ goes_on 0 t)
          × Served disks
              (acked disks 3 0 ringing)
              (sem_addr disks 3 0)
              (device_status 3 0 ringing)
              p
              ps
              []
              (one_sem ∷ [])
              t)
handle_device_lem_example =
    handle_device_lem disks 3 0 ringing one_view (1 ∷ []) (one_sem ∷ []) [] 0 ringing-Asl
      (omega arith) (ground arith) (omega arith) (omega arith) (omega arith) disk_0

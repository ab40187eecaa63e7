-- ===== src/Kernel/Queue/Tests.antt =====
-- Two processes on queue 4 of kernel/process_queue.c.
use ox.Base.{◌==◌, if◌then◌else◌, ◌≡◌, refl, ◌∷◌, [], some, arith}
use ox.Kernel.Process.{mem, distinct}
use ox.Kernel.Queue.{Store, queue_insert_p}
use ox.Kernel.Queue.Ring.{Linked, Holds}
use ox.Kernel.Queue.Tail.{queue_insert_p-Holds}
use ox.Kernel.Queue.Remove.{Removed, queue_remove-Holds}
use ox.Kernel.Queue.Links.{without}

abbrev pair : Store
pair = record {
  next = λ a. if a == 7 then 9 else 7;
  prev = λ a. if a == 7 then 9 else 7;
  priority = λ a. 4;
  tab = λ p. 7;
  size = λ p. 2;
}

pair-Holds : Holds pair 4 (7 ∷ 9 ∷ [])
unfolding Holds Linked mem distinct
pair-Holds = (9, (refl, refl, refl), refl, refl, refl, refl, refl, refl)

queue_insert_p-Holds_example :
    (t : Store) × (queue_insert_p 5 4 pair ≡ some t) × Holds t 4 (7 ∷ 9 ∷ 5 ∷ [])
unfolding mem
queue_insert_p-Holds_example =
    queue_insert_p-Holds pair 5 4 (7 ∷ 9 ∷ []) pair-Holds (omega arith) refl (omega arith)

queue_remove-Holds_example : Removed pair 4 9 (without 9 (7 ∷ 9 ∷ []))
unfolding mem
queue_remove-Holds_example =
    queue_remove-Holds pair 4 9 (7 ∷ 9 ∷ []) pair-Holds refl refl (omega arith)

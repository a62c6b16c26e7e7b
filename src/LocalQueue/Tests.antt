-- ===== src/LocalQueue/Tests.antt =====
-- Three tasks, two at once.
use maintain_pro_backend.Shared.{◌≡◌, refl, true, some, [], ◌∷◌}
use maintain_pro_backend.LocalQueue.Queue.{
  TaskQueue, new_queue, enqueue, is_idle, IsReachable, start, enqueued, drain, drain_from, drain,
  drain_from,
}
use maintain_pro_backend.LocalQueue.Order.{
  IsFair, IsReachable-IsFair, load, finish_times, finish_times-is_idle,
}

abbrev three : TaskQueue
three = enqueue 3 (enqueue 2 (enqueue 1 (new_queue (some 2))))

three-IsReachable : IsReachable (some 2) three
three-IsReachable =
    enqueued 3 (enqueue 2 (enqueue 1 (new_queue (some 2))))
      (enqueued 2 (enqueue 1 (new_queue (some 2))) (enqueued 1 (new_queue (some 2)) start))

one_waits : three.pending ≡ 3 ∷ []
unfolding enqueue drain drain_from
one_waits = refl

IsReachable-IsFair_example : IsFair three
IsReachable-IsFair_example = IsReachable-IsFair (some 2) three three-IsReachable

three-load : load three ≡ 3
unfolding enqueue drain drain_from
three-load = refl

finish_times-is_idle_example :
    IsReachable (some 2) (finish_times 3 three) × (is_idle (finish_times 3 three) ≡ true)
finish_times-is_idle_example = finish_times-is_idle (some 2) 3 three three-IsReachable three-load

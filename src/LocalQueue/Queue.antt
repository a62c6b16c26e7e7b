-- ===== src/LocalQueue/Queue.antt =====
-- local-task-queue.ts: the buffer and the tasks that run, which are numbered. `starts` and `offered`
-- tell in which order tasks have started and were enqueued.
use maintain_pro_backend.Shared.{
  ltb, ◌==◌, if◌then◌else◌, length, ℕ, ◌+◌, ◌-◌, ◌<◌, max, Bool, ◌&&◌, Option, none, some, List, [],
  ◌∷◌, ◌++◌,
}

pub record TaskQueue : Type 0 where
  pub concurrency : ℕ
  pub pending : List ℕ
  pub active : ℕ
  pub starts : List ℕ
  pub offered : List ℕ

-- `Math.max(1, options.concurrency ?? 1)`.
abbrev pub concurrency_of : Option ℕ → ℕ
concurrency_of none = 1
concurrency_of (some n) = max 1 n

abbrev pub new_queue : Option ℕ → TaskQueue
new_queue c = record {
  concurrency = concurrency_of c;
  pending = [];
  active = 0;
  starts = [];
  offered = [];
}

-- The loop of `drain`: what is left, how many run, and what has started.
unfoldable pub drain_from : ℕ → List ℕ → ℕ → List ℕ → List ℕ × (ℕ × List ℕ)
drain_from c [] active starts = ([], (active, starts))
drain_from c (t ∷ ts) active starts =
    let rest = drain_from c ts (active + 1) (starts ++ t ∷ []) in
    if ltb active c then rest else (t ∷ ts, (active, starts))

unfoldable pub drain : TaskQueue → TaskQueue
drain q =
    let r = drain_from q.concurrency q.pending q.active q.starts in
    record q { pending = r.0; active = r.1.0; starts = r.1.1 }

unfoldable pub enqueue : ℕ → TaskQueue → TaskQueue
enqueue t q = drain (record q { pending = q.pending ++ t ∷ []; offered = q.offered ++ t ∷ [] })

-- A task that runs comes to its end, whether it failed or not.
unfoldable pub finish : TaskQueue → TaskQueue
finish q = drain (record q { active = q.active - 1 })

-- `onIdle` resolves.
abbrev pub is_idle : TaskQueue → Bool
is_idle q = q.active == 0 && length q.pending == 0

-- The queues that tasks which are enqueued and finish lead to.
pub data IsReachable (c : Option ℕ) : TaskQueue → Type 0 where
  start : IsReachable c (new_queue c)
  enqueued : (t : ℕ) (q : TaskQueue) → IsReachable c q → IsReachable c (enqueue t q)
  finished : (q : TaskQueue) → IsReachable c q → 0 < q.active → IsReachable c (finish q)

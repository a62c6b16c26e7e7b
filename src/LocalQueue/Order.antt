-- ===== src/LocalQueue/Order.antt =====
-- local-task-queue.ts: how many tasks run at once, and in which order they start.
use maintain_pro_backend.Shared.{
  ltb, Bool-cases, length, ℕ, zero, suc, ◌+◌, ◌-◌, ◌≤◌, ◌<◌, ◌≡◌, refl, sym, ap, ◌∙◌, inl, inr,
  true, Option, none, some, List, [], ◌∷◌, ◌++◌, arith,
}
use maintain_pro_backend.LocalQueue.Queue.{
  TaskQueue, drain_from, drain, enqueue, finish, IsReachable, start, enqueued, finished,
  concurrency_of, is_idle,
}

append_assoc : (a b c : List ℕ) → (a ++ b) ++ c ≡ a ++ (b ++ c)
append_assoc [] b c = refl
append_assoc (x ∷ a) b c = ap (λ r. x ∷ r) (append_assoc a b c)

append_nil : (a : List ℕ) → a ++ [] ≡ a
append_nil [] = refl
append_nil (x ∷ a) = ap (λ r. x ∷ r) (append_nil a)

-- At most as many tasks run as may, as many as may if any waits, and tasks start in the order in
-- which they came.
pub record IsFair (q : TaskQueue) : Type 0 where
  pub room : 0 < q.concurrency
  pub limit : q.active ≤ q.concurrency
  pub busy : 0 < length q.pending → q.active ≡ q.concurrency
  pub order : q.starts ++ q.pending ≡ q.offered

drain_from_lem :
    (c : ℕ) (ts : List ℕ) (active : ℕ) (starts : List ℕ)
    → active ≤ c
    → ((drain_from c ts active starts).1.0 ≤ c)
      × (0 < length (drain_from c ts active starts).0 → (drain_from c ts active starts).1.0 ≡ c)
      × ((drain_from c ts active starts).1.1 ++ (drain_from c ts active starts).0 ≡ starts ++ ts)
unfolding drain_from
drain_from_lem c [] active starts h = (h, (λ k. absurd (omega arith)), refl)
drain_from_lem c (t ∷ ts) active starts h = elim (Bool-cases (ltb active c)) [
  | inl e ↦
      let rest = drain_from_lem c ts (active + 1) (starts ++ t ∷ []) (ground arith) in
      rw e (rest.0, rest.1, rest.2 ∙ append_assoc starts (t ∷ []) ts)
  | inr e ↦ rw e (h, (λ k. ground arith), refl)
]

drain-IsFair :
    (q : TaskQueue)
    → 0 < q.concurrency
    → q.active ≤ q.concurrency
    → q.starts ++ q.pending ≡ q.offered
    → IsFair (drain q)
unfolding drain
drain-IsFair q room h k =
    let r = drain_from_lem q.concurrency q.pending q.active q.starts h in
    record { room = room; limit = r.0; busy = r.1; order = r.2 ∙ k }

some_room : (c : Option ℕ) → 0 < concurrency_of c
some_room none = omega arith
some_room (some n) = omega arith

-- In every queue that enqueued and finished tasks lead to, at most as many tasks run as may, as
-- many as may if any waits, and tasks start in the order they came in.
pub IsReachable-IsFair : (c : Option ℕ) (q : TaskQueue) → IsReachable c q → IsFair q
unfolding enqueue finish
IsReachable-IsFair c _ start = record {
  room = some_room c;
  limit = omega arith;
  busy = λ h. absurd (omega arith);
  order = refl;
}
IsReachable-IsFair c _ (enqueued t q r) =
    let f = IsReachable-IsFair c q r in
    drain-IsFair (record q { pending = q.pending ++ t ∷ []; offered = q.offered ++ t ∷ [] }) f.room
      f.limit (sym (append_assoc q.starts q.pending (t ∷ [])) ∙ ap (λ s. s ++ t ∷ []) f.order)
IsReachable-IsFair c _ (finished q r h) =
    let f = IsReachable-IsFair c q r in
    let less = f.limit in
    drain-IsFair (record q { active = q.active - 1 }) f.room (omega (arith, less)) f.order

-- The tasks that have not come to their end.
abbrev pub load : TaskQueue → ℕ
load q = q.active + length q.pending

unfoldable pub finish_times : ℕ → TaskQueue → TaskQueue
finish_times zero q = q
finish_times (suc n) q = finish_times n (finish q)

drain_from_load :
    (c : ℕ) (ts : List ℕ) (active : ℕ) (starts : List ℕ)
    → (drain_from c ts active starts).1.0 + length (drain_from c ts active starts).0
      ≡ active + length ts
unfolding drain_from
drain_from_load c [] active starts = refl
drain_from_load c (t ∷ ts) active starts = elim (Bool-cases (ltb active c)) [
  | inl e ↦ rw e (omega (arith, drain_from_load c ts (active + 1) (starts ++ t ∷ [])))
  | inr e ↦ rw e refl
]

load-finish : (q : TaskQueue) → 0 < q.active → load (finish q) + 1 ≡ load q
unfolding finish drain
load-finish q h = omega (arith, drain_from_load q.concurrency q.pending (q.active - 1) q.starts)

is_active : (q : TaskQueue) → IsFair q → 0 < load q → 0 < q.active
is_active q f h =
    let full = f.busy in
    let room = f.room in
    elim (Bool-cases (ltb 0 (length q.pending))) [
      | inl e ↦ let k : q.active ≡ q.concurrency = full (ground arith) in omega (arith, k, room)
      | inr e ↦ ground arith
    ]

-- From a queue that enqueued and finished tasks lead to, as many tasks can come to their end as
-- run or wait, and then the queue is idle.
pub finish_times-is_idle :
    (c : Option ℕ) (n : ℕ) (q : TaskQueue)
    → IsReachable c q
    → load q ≡ n
    → IsReachable c (finish_times n q) × (is_idle (finish_times n q) ≡ true)
unfolding finish_times
finish_times-is_idle c zero q r h = (r, ground (arith, h))
finish_times-is_idle c (suc n) q r h =
    let active = is_active q (IsReachable-IsFair c q r) (omega (arith, h)) in
    finish_times-is_idle c n (finish q) (finished q r active)
      (omega (arith, h, load-finish q active))

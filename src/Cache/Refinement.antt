-- ===== src/Cache/Refinement.antt =====
-- RedisService: the local store implements the map with expiry.
use maintain_pro_backend.Shared.{
  if◌then◌else◌, Bool-cases, is_some, ℕ, ◌+◌, ◌*◌, ◌≤◌, ◌≡◌, refl, sym, ap, ◌∙◌, inl, inr, Option,
  none, some, List, [], ◌∷◌, arith,
}
use maintain_pro_backend.Shared.Texts.{Text, same, starts_with}
use maintain_pro_backend.Cache.Model.{
  Ascends, lookup, Entry, LocalStore, alive, value_of, expiry, expires_of,
}
use maintain_pro_backend.Cache.Views.{
  view, alive_later, local_entry_found, view-local_entry, view-remove, get_value, get_view,
  set_view, delete_view, increment_value, counted, increment_view, ttl_value, ttl_view, expiring,
  expire_view, expire_value, exists_value, exists_view, view-delete_by_pattern,
}
use maintain_pro_backend.Cache.Commands.{
  Command, Reply, value_reply, count_reply, seconds_reply, execute, execute_all, Expiring, write,
  count_of_some, specify, specify_all,
}
use maintain_pro_backend.Cache.Local
use maintain_pro_backend.Cache.Local.{remaining, next_count, without_star}

-- From a time on, the store and the map show the same.
abbrev Simulates : ℕ → LocalStore → Expiring → Type 0
Simulates now s f = (t : ℕ) (k : Text) → now ≤ t → view s t k ≡ alive t (f k)

abbrev Answers : ℕ → Reply × LocalStore → Reply × Expiring → Type 0
Answers now a b = (a.0 ≡ b.0) × Simulates now a.1 b.1

written :
    (t : ℕ) (k j : Text) (o : Option Entry) (s : LocalStore) (f : Expiring)
    → view s t j ≡ alive t (f j)
    → (if same k j then alive t o else view s t j) ≡ alive t (write k o f j)
written t k j o s f h = elim (Bool-cases (same k j)) [ inl e ↦ rw e refl | inr e ↦ rw e h ]

module _ (now : ℕ) (s : LocalStore) (f : Expiring) (sim : Simulates now s f)
    (known : (k : Text) → view s now k ≡ f k) where
  abbrev Answered : Command → Type 0
  Answered c = Answers now (execute now c s) (specify now c f)

  get_answers : (k : Text) → Answered (Command.get_command k)
  unfolding execute specify
  get_answers k = (
    ap value_reply (get_value now k s ∙ ap value_of (known k)),
    λ t j h. get_view now t k j s h ∙ sim t j h,
  )

  exists_answers : (k : Text) → Answered (Command.exists_command k)
  unfolding execute specify
  exists_answers k = (
    ap (λ n. count_reply (some n)) (exists_value now k s) ∙ ap count_of_some (known k),
    λ t j h. exists_view now t k j s h ∙ sim t j h,
  )

  ttl_answers : (k : Text) → Answered (Command.ttl_command k)
  unfolding execute specify
  ttl_answers k = (
    ap seconds_reply (ttl_value now k s ∙ ap (λ o. remaining now (expires_of o)) (known k)),
    λ t j h. ttl_view now t k j s h ∙ sim t j h,
  )

  delete_answers : (k : Text) → Answered (Command.delete_command k)
  unfolding execute specify
  delete_answers k = (refl, λ t j h. delete_view t k j s ∙ written t k j none s f (sim t j h))

  set_answers : (k v : Text) (ttl : ℕ) → Answered (Command.set_command k v ttl)
  unfolding execute specify
  set_answers k v ttl = (
    refl,
    λ t j h.
        set_view now t ttl k j v s
        ∙ written t k j (some (record { value = v; expires_at = expiry now ttl })) s f (sim t j h),
  )

  increment_answers : (k : Text) → Answered (Command.increment_command k)
  unfolding execute specify
  increment_answers k = (
    ap count_reply (increment_value now k s ∙ ap next_count (known k)),
    λ t j h.
        increment_view now t k j s h
        ∙ rw (known k) (written t k j (some (counted (f k))) s f (sim t j h)),
  )

  expire_answers : (k : Text) (ttl : ℕ) → Answered (Command.expire_command k ttl)
  unfolding execute specify
  expire_answers k ttl = (
    ap (λ n. count_reply (some n)) (expire_value now ttl k s) ∙ ap count_of_some (known k),
    λ t j h.
        expire_view now t ttl k j s h
        ∙ rw (known k) (written t k j (expiring (now + ttl * 1000) (f k)) s f (sim t j h)),
  )

  pattern_answers : (p : Text) → Answered (Command.delete_by_pattern_command p)
  unfolding execute specify
  pattern_answers p = (
    refl,
    λ t j h. view-delete_by_pattern t p j s ∙ elim (Bool-cases (starts_with j (without_star p))) [
      | inl e ↦ rw e refl
      | inr e ↦ rw e (sim t j h)
    ],
  )

  set_if_absent_answers : (k v : Text) (ttl : ℕ) → Answered (Command.set_if_absent_command k v ttl)
  unfolding execute specify Local.set_if_absent
  set_if_absent_answers k v ttl =
      let found : (Local.local_entry now k s).0 ≡ f k = local_entry_found now k s ∙ known k in
      elim (Bool-cases (is_some (f k))) [
        | inl e ↦ rw (found, e) (refl, λ t j h. view-local_entry now t k j s h ∙ sim t j h)
        | inr e ↦
            rw (found, e)
              (
                refl,
                λ t j h.
                    set_view now t ttl k j v (Local.local_entry now k s).1
                    ∙ written t k j (some (record { value = v; expires_at = expiry now ttl }))
                        (Local.local_entry now k s).1 f
                        (view-local_entry now t k j s h ∙ sim t j h),
              )
      ]

  delete_if_value_answers : (k v : Text) → Answered (Command.delete_if_value_command k v)
  unfolding execute specify Local.delete_if_value
  delete_if_value_answers k v =
      let found : (Local.local_entry now k s).0 ≡ f k = local_entry_found now k s ∙ known k in
      elim (Bool-cases (Local.has_value (f k) v)) [
        | inl e ↦
            rw (found, e)
              (
                refl,
                λ t j h.
                    view-remove k j (Local.local_entry now k s).1 t
                    ∙ written t k j none (Local.local_entry now k s).1 f
                        (view-local_entry now t k j s h ∙ sim t j h),
              )
        | inr e ↦ rw (found, e) (refl, λ t j h. view-local_entry now t k j s h ∙ sim t j h)
      ]

  answers : (c : Command) → Answered c
  answers (Command.get_command k) = get_answers k
  answers (Command.delete_command k) = delete_answers k
  answers (Command.exists_command k) = exists_answers k
  answers (Command.increment_command k) = increment_answers k
  answers (Command.ttl_command k) = ttl_answers k
  answers (Command.set_command k v n) = set_answers k v n
  answers (Command.set_if_absent_command k v n) = set_if_absent_answers k v n
  answers (Command.delete_if_value_command k v) = delete_if_value_answers k v
  answers (Command.delete_by_pattern_command p) = pattern_answers p
  answers (Command.expire_command k n) = expire_answers k n

same_replies :
    (now : ℕ) (cs : List (ℕ × Command)) (s : LocalStore) (f : Expiring)
    → Ascends now cs
    → Simulates now s f
    → execute_all cs s ≡ specify_all cs f
unfolding execute_all specify_all
same_replies now [] s f a sim = refl
same_replies now ((t, c) ∷ cs) s f a sim =
    let live : Expiring = λ k. alive t (f k) in
    let later : Simulates t s live =
      λ u k h. sim u k (omega arith) ∙ sym (alive_later t u (f k) h) in
    let step = answers t s live later (λ k. sim t k a.0) c in
    let rest = same_replies t cs (execute t c s).1 (specify t c live).1 a.1 step.1 in cc

-- The commands of the local store, at times that do not go back, are answered from the empty store
-- as by a map of keys to entries in which nothing that has expired is seen. (The counts that
-- `delete` and `deleteByPattern` return are left out.)
pub execute_all-refines :
    (cs : List (ℕ × Command)) → Ascends 0 cs → execute_all cs [] ≡ specify_all cs (λ _. none)
unfolding view lookup
execute_all-refines cs a = same_replies 0 cs [] (λ _. none) a (λ t k h. refl)

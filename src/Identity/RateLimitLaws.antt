-- ===== src/Identity/RateLimitLaws.antt =====
-- rate-limit.service.ts: both ways to count answer alike.
use maintain_pro_backend.Shared.{
  leb, if◌then◌else◌, Bool-cases, ℕ, ◌≤◌, ◌<◌, ◌≡◌, refl, ap, ◌∙◌, inl, inr, Bool, Option, none,
  some, List, [], ◌∷◌, arith,
}
use maintain_pro_backend.Shared.Texts.{Text, same, same_refl}
use maintain_pro_backend.Cache.Model.{alive, Ascends}
use maintain_pro_backend.Cache.Interface.{Cache}
use maintain_pro_backend.Identity.Otp.{count_in_window}
use maintain_pro_backend.Identity.Counters.{
  counter, seen_alive, count_in_window-first, count_in_window-next,
}
use maintain_pro_backend.Identity.RateLimit.{
  HitCounter, LocalCounters, hit_counter, hit_local, hit_store,
}

module _ (cache : Cache) (key : Text) (max_hits window : ℕ) where
  -- The answers to hits of the key at their times.
  unfoldable pub local_answers : List (ℕ × Unit {0}) → LocalCounters → List Bool
  local_answers [] counters = []
  local_answers ((now, x) ∷ hits) counters =
      let (r, counters') = hit_local now key max_hits window counters in
      r.allowed ∷ local_answers hits counters'

  unfoldable pub store_answers : List (ℕ × Unit {0}) → cache.State → List Bool
  store_answers [] s = []
  store_answers ((now, x) ∷ hits) s =
      let (r, s') = hit_store cache now key max_hits window s in r.allowed ∷ store_answers hits s'

  -- The counter in the process and the one in the store.
  abbrev Agrees : ℕ → Option HitCounter → cache.State → Type 0
  Agrees t none s = cache.seen s t key ≡ none
  Agrees t (some c) s =
      (0 < c.count) × (cache.seen s t key ≡ alive t (some (counter c.count c.expires_at)))

  Agrees-later :
      (now t : ℕ) (o : Option HitCounter) (s : cache.State)
      → now ≤ t
      → Agrees now o s
      → Agrees t o s
  Agrees-later now t none s h a = seen_alive cache s now t key none h a
  Agrees-later now t (some c) s h a =
      (a.0, seen_alive cache s now t key (some (counter c.count c.expires_at)) h a.1)

  -- A hit counts alike, and the counters agree after it.
  counted_alike :
      (now : ℕ) (o : Option HitCounter) (s : cache.State)
      → Agrees now o s
      → ((count_in_window cache now key window s).0 ≡ some (hit_counter now window o).count)
        × Agrees now (some (hit_counter now window o)) (count_in_window cache now key window s).1
  counted_alike now none s a =
      let first = count_in_window-first cache now key window s a in
      (first.0, (omega arith, first.1 now (omega arith)))
  counted_alike now (some c) s a = elim (Bool-cases (leb c.expires_at now)) [
    | inl e ↦
        let first = count_in_window-first cache now key window s (a.1 ∙ rw e refl) in
        rw e (first.0, (omega arith, first.1 now (omega arith)))
    | inr e ↦
        let next =
          count_in_window-next cache now key window s c.count c.expires_at a.0 (ground arith) a.1 in
        rw e (next.0, (omega arith, next.1 now (omega arith)))
  ]

  ttl_apart :
      (now : ℕ) (o : Option HitCounter) (s : cache.State)
      → Agrees now o s
      → Agrees now o (cache.ttl now key s).1
  ttl_apart now none s a = cache.ttl_lem now now key key s (omega arith) ∙ a
  ttl_apart now (some c) s a = (a.0, cache.ttl_lem now now key key s (omega arith) ∙ a.1)

  answers_alike :
      (t : ℕ) (hits : List (ℕ × Unit {0})) (counters : LocalCounters) (s : cache.State)
      → Ascends t hits
      → Agrees t (counters key) s
      → local_answers hits counters ≡ store_answers hits s
  unfolding local_answers store_answers hit_local hit_store
  answers_alike t [] counters s a g = refl
  answers_alike t ((now, x) ∷ hits) counters s a g =
      let entry = hit_counter now window (counters key) in
      let counted =
        counted_alike now (counters key) s (Agrees-later t now (counters key) s a.0 g) in
      let s' = (count_in_window cache now key window s).1 in
      let left = ttl_apart now (some entry) s' counted.1 in
      let own : (if same key key then some entry else counters key) ≡ some entry =
        rw (same_refl key) refl in
      let rest =
        answers_alike now hits (λ k. if same key k then some entry else counters k)
          (cache.ttl now key s').1 a.1 (rw own left) in
      rw counted.0 (ap (λ r. leb entry.count max_hits ∷ r) rest)

  -- Hits of a key at times that do not go back, over any windows, are allowed alike by the
  -- counters of the process and by those of the store, where none was counted before.
  pub local_answers_lem :
      (t : ℕ) (hits : List (ℕ × Unit {0})) (s : cache.State)
      → cache.seen s t key ≡ none
      → Ascends t hits
      → local_answers hits (λ k. none) ≡ store_answers hits s
  local_answers_lem t hits s e a = answers_alike t hits (λ k. none) s a e

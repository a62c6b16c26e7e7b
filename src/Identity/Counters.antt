-- ===== src/Identity/Counters.antt =====
-- otp.service.ts and verification-link.service.ts: a counter that expires a window after its first
-- increment.
use maintain_pro_backend.Shared.{
  leb, ◌==◌, Bool-cases, ℕ, ◌+◌, ◌*◌, ◌≤◌, ◌<◌, ◌≡◌, refl, ap, ◌∙◌, inl, inr, false, Option, none,
  some, arith,
}
use maintain_pro_backend.Shared.Texts.{Text, same, same_refl}
use maintain_pro_backend.Shared.Decimal.{decimal, number_of-decimal}
use maintain_pro_backend.Cache.Model.{Entry, alive}
use maintain_pro_backend.Cache.Interface.{Cache}
use maintain_pro_backend.Identity.Otp.{is_count, count_in_window}
use maintain_pro_backend.Cache.Local.{next_count}
use maintain_pro_backend.Cache.Views.{alive_later}

abbrev pub counter : ℕ → ℕ → Entry
counter n end = record { value = decimal n; expires_at = some end }

-- What expires later is seen until it does.
pub seen_alive :
    (cache : Cache) (s : cache.State) (now t : ℕ) (k : Text) (o : Option Entry)
    → now ≤ t
    → cache.seen s now k ≡ alive now o
    → cache.seen s t k ≡ alive t o
seen_alive cache s now t k o h e =
    cache.seen_later s now t k h ∙ ap (alive t) e ∙ alive_later now t o h

module _ (cache : Cache) (now : ℕ) (k : Text) (window : ℕ) (s : cache.State) where
  -- Other keys are not touched.
  pub count_in_window-elsewhere :
      (t : ℕ) (j : Text)
      → now ≤ t
      → same k j ≡ false
      → cache.seen (count_in_window cache now k window s).1 t j ≡ cache.seen s t j
  unfolding count_in_window
  count_in_window-elsewhere t j h e = elim (Bool-cases (is_count (cache.increment now k s).0 1)) [
    | inl g ↦
        rw
          (
            g,
            cache.expire_lem now t window k j (cache.increment now k s).1 h,
            e,
            cache.increment_lem now t k j s h,
            e,
          )
          refl
    | inr g ↦ rw (g, cache.increment_lem now t k j s h, e) refl
  ]

  -- The first increment.
  pub count_in_window-first :
      cache.seen s now k ≡ none
      → ((count_in_window cache now k window s).0 ≡ some 1)
        × ((t : ℕ)
            → now ≤ t
            → cache.seen (count_in_window cache now k window s).1 t k
              ≡ alive t (some (counter 1 (now + window * 1000))))
  unfolding count_in_window
  count_in_window-first e =
      let value : (cache.increment now k s).0 ≡ some 1 =
        cache.increment_value now k s ∙ ap next_count e in
      let kept : cache.seen (cache.increment now k s).1 now k
          ≡ some (record { value = decimal 1; expires_at = none }) =
        cache.increment_lem now now k k s (omega arith) ∙ rw (same_refl k, e) refl in
      (
        value,
        λ t h. rw value (
            cache.expire_lem now t window k k (cache.increment now k s).1 h
            ∙ rw (same_refl k, kept) refl),
      )

  -- A further one, before the end of the window.
  pub count_in_window-next :
      (n end : ℕ)
      → 0 < n
      → now < end
      → cache.seen s now k ≡ alive now (some (counter n end))
      → ((count_in_window cache now k window s).0 ≡ some (n + 1))
        × ((t : ℕ)
            → now ≤ t
            → cache.seen (count_in_window cache now k window s).1 t k
              ≡ alive t (some (counter (n + 1) end)))
  unfolding count_in_window
  count_in_window-next n end pos_n lt e =
      let early : leb end now ≡ false = ground arith in
      let nonzero : (end == 0) ≡ false = ground arith in
      let found : cache.seen s now k ≡ some (counter n end) = e ∙ rw early refl in
      let value : (cache.increment now k s).0 ≡ some (n + 1) =
        cache.increment_value now k s ∙ rw (found, number_of-decimal n) refl in
      let again : (n + 1 == 1) ≡ false = ground arith in
      (
        value,
        λ t h.
            rw (value, again)
              (cache.increment_lem now t k k s h
                ∙ rw (same_refl k, found, number_of-decimal n, nonzero) refl),
      )

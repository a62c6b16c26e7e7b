-- ===== src/Identity/Resends.antt =====
-- otp.service.ts and verification-link.service.ts: how often a code or a link is sent again.
use maintain_pro_backend.Shared.{
  ltb, leb, ℕ, ◌+◌, ◌-◌, ◌<◌, ◌≡◌, refl, ap, Bool, true, none, some, List, [], ◌∷◌, arith,
}
use maintain_pro_backend.Shared.Texts.{Text}
use maintain_pro_backend.Cache.Model.{alive, Ascends, end_time, end_time_lem}
use maintain_pro_backend.Cache.Interface.{Cache}
use maintain_pro_backend.Identity.Otp.{
  OtpPurpose, resend_window, resend_key, count_in_window, can_resend,
}
use maintain_pro_backend.Identity.Counters.{
  counter, seen_alive, count_in_window-first, count_in_window-next,
}

-- The first events pass, and no later ones.
abbrev pub firsts : {A : Type 0} → ℕ → List A → List Bool
firsts n [] = []
firsts n (x ∷ xs) = ltb 0 n ∷ firsts (n - 1) xs

shift_firsts : {A : Type 0} (n : ℕ) (xs : List A) → firsts (3 - n - 1) xs ≡ firsts (3 - (n + 1)) xs
shift_firsts n xs = let e : 3 - n - 1 ≡ 3 - (n + 1) = omega arith in rw e refl

module _ (cache : Cache) (p : OtpPurpose) (user : Text) where
  -- Requests to send again, at their times.
  unfoldable pub resend_all : List (ℕ × Unit {0}) → cache.State → List Bool
  resend_all [] s = []
  resend_all ((now, x) ∷ ts) s =
      let (allowed, s') = can_resend cache now user p s in allowed ∷ resend_all ts s'

  resend_counted :
      (n end t : ℕ) (ts : List (ℕ × Unit {0})) (s : cache.State)
      → 0 < n
      → Ascends t ts
      → end_time t ts < end
      → cache.seen s t (resend_key p user) ≡ alive t (some (counter n end))
      → resend_all ts s ≡ firsts (3 - n) ts
  unfolding resend_all can_resend
  resend_counted n end t [] s h a lt e = refl
  resend_counted n end t ((now, x) ∷ ts) s h a lt e =
      let before = end_time_lem now ts a.1 in
      let e' = seen_alive cache s t now (resend_key p user) (some (counter n end)) a.0 e in
      let next =
        count_in_window-next cache now (resend_key p user) resend_window s n end h (omega arith)
          e' in
      let rest =
        resend_counted (n + 1) end now ts
          (count_in_window cache now (resend_key p user) resend_window s).1 (omega arith) a.1 lt
          (next.1 now (omega arith)) in
      let bit : leb (n + 1) 3 ≡ ltb 0 (3 - n) = ground arith in
      rw (next.0, bit, shift_firsts n ts) (ap (λ r. ltb 0 (3 - n) ∷ r) rest)

  -- Of the requests in the ten minutes from the first one on, the first three are allowed and no
  -- others, where none was counted before.
  pub resend_all-firsts :
      (t : ℕ) (x : Unit {0}) (ts : List (ℕ × Unit {0})) (s : cache.State)
      → cache.seen s t (resend_key p user) ≡ none
      → Ascends t ts
      → end_time t ts < t + 600000
      → resend_all ((t, x) ∷ ts) s ≡ firsts 3 ((t, x) ∷ ts)
  unfolding resend_all can_resend
  resend_all-firsts t x ts s e a lt =
      let first = count_in_window-first cache t (resend_key p user) resend_window s e in
      let rest =
        resend_counted 1 (t + 600000) t ts
          (count_in_window cache t (resend_key p user) resend_window s).1 (omega arith) a lt
          (first.1 t (omega arith)) in
      rw first.0 (ap (λ r. true ∷ r) rest)

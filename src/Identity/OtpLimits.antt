-- ===== src/Identity/OtpLimits.antt =====
-- otp.service.ts: how often a code can be used and guessed.
use maintain_pro_backend.Shared.{
  leb, Bool-cases, length, All, ℕ, zero, suc, ◌+◌, ◌≤◌, ◌<◌, ◌≡◌, refl, ap, ◌∙◌, ◌⊎◌, inl, inr,
  true, false, Option, none, some, List, [], ◌∷◌, arith,
}
use maintain_pro_backend.Shared.Texts.{Text, same, same_refl}
use maintain_pro_backend.Cache.Model.{Entry, value_of, alive, Ascends, end_time}
use maintain_pro_backend.Cache.Interface.{Cache}
use maintain_pro_backend.Identity.Otp.{
  OtpPurpose, otp_key, attempt_key, reset_attempts, invalidate, check, verify, attempt_apart,
  increment_attempts, refuse, attempt_window, create, otp_ttl, code_apart,
}
use maintain_pro_backend.Identity.Counters.{
  counter, seen_alive, count_in_window-first, count_in_window-next, count_in_window-elsewhere,
}

module _ (cache : Cache) (hash : Text → Text) (p : OtpPurpose) (user : Text) where
  -- Codes tried at their times.
  unfoldable pub try_all : List (ℕ × Text) → cache.State → cache.State
  try_all [] s = s
  try_all ((now, code) ∷ gs) s = try_all gs (verify cache hash now user p code s).1

  abbrev seen_code : cache.State → ℕ → Option Entry
  seen_code s t = cache.seen s t (otp_key p user)

  cleared :
      (s : cache.State) (t : ℕ)
      → seen_code (reset_attempts cache p user (invalidate cache p user s)) t ≡ none
  unfolding reset_attempts invalidate
  cleared s t =
      rw
        (
          cache.delete_lem t (attempt_key p user) (otp_key p user)
              (cache.delete (otp_key p user) s).1,
          attempt_apart p user,
          cache.delete_lem t (otp_key p user) (otp_key p user) s,
          same_refl (otp_key p user),
        )
        refl

  gone : (s : cache.State) (now t : ℕ) → now ≤ t → seen_code s now ≡ none → seen_code s t ≡ none
  gone s now t h e = cache.seen_later s now t (otp_key p user) h ∙ rw e refl

  -- Without a code nothing is accepted, and there is still none.
  verify-absent :
      (now t : ℕ) (code : Text) (s : cache.State)
      → now ≤ t
      → seen_code s now ≡ none
      → ((verify cache hash now user p code s).0 ≡ false)
        × (seen_code (verify cache hash now user p code s).1 t ≡ none)
  unfolding verify
  verify-absent now t code s h e =
      let missing : (cache.get now (otp_key p user) s).0 ≡ none =
        cache.get_value now (otp_key p user) s ∙ ap value_of e in
      rw missing
        (refl, cache.get_lem now t (otp_key p user) (otp_key p user) s h ∙ gone s now t h e)

  -- A hash is not empty.
  check-success :
      (now t : ℕ) (code : Text) (stored : Option Text) (s : cache.State)
      → (check cache hash now user p code stored s).0 ≡ true
      → seen_code (check cache hash now user p code stored s).1 t ≡ none
  check-success now t code none s h = absurd cc
  check-success now t code (some []) s h = absurd cc
  check-success now t code (some (c ∷ cs)) s h = elim (Bool-cases (same (c ∷ cs) (hash code))) [
    | inl e ↦ rw e (cleared s t)
    | inr e ↦ let no : false ≡ true = rw e at h in absurd cc
  ]

  -- After a code was accepted, no code is, at any time.
  pub verify-once :
      (now t : ℕ) (code other : Text) (s : cache.State)
      → (verify cache hash now user p code s).0 ≡ true
      → (verify cache hash t user p other (verify cache hash now user p code s).1).0 ≡ false
  unfolding verify
  verify-once now t code other s h =
      let found = cache.get now (otp_key p user) s in
      let after = (verify cache hash now user p code s).1 in
      let none_left : seen_code after t ≡ none = check-success now t code found.0 found.1 h in
      (verify-absent t t other after (omega arith) none_left).0

  module _ (c : ℕ) (cs : Text) (end : ℕ) where
    -- The code is there until its end.
    abbrev Holds : ℕ → cache.State → Type 0
    Holds t s = seen_code s t ≡ alive t (some (record { value = c ∷ cs; expires_at = some end }))

    -- There have been some wrong tries, and the counter lasts as long as the code.
    abbrev Counted : ℕ → ℕ → cache.State → Type 0
    Counted zero t s = cache.seen s t (attempt_key p user) ≡ none
    Counted (suc n) t s =
        (d : ℕ) × (end ≤ d)
        × (cache.seen s t (attempt_key p user) ≡ alive t (some (counter (suc n) d)))

    abbrev Guessed : ℕ → ℕ → cache.State → Type 0
    Guessed n t s = (seen_code s t ≡ none) ⊎ (Holds t s × Counted n t s)

    Counted-later : (n now t : ℕ) (s : cache.State) → now ≤ t → Counted n now s → Counted n t s
    Counted-later zero now t s h g = seen_alive cache s now t (attempt_key p user) none h g
    Counted-later (suc n) now t s h g =
        (g.0, g.1, seen_alive cache s now t (attempt_key p user) (some (counter (suc n) g.0)) h g.2)

    Holds-later : (now t : ℕ) (s : cache.State) → now ≤ t → Holds now s → Holds t s
    Holds-later now t s h g =
        seen_alive cache s now t (otp_key p user)
          (some (record { value = c ∷ cs; expires_at = some end })) h g

    Guessed-later : (n now t : ℕ) (s : cache.State) → now ≤ t → Guessed n now s → Guessed n t s
    Guessed-later n now t s h (inl e) = inl (gone s now t h e)
    Guessed-later n now t s h (inr g) =
        inr (Holds-later now t s h g.0, Counted-later n now t s h g.1)

    Counted-next :
        (n now : ℕ) (s : cache.State)
        → now < end
        → end ≤ now + 600000
        → Counted n now s
        → ((increment_attempts cache now p user s).0 ≡ some (n + 1))
          × Counted (suc n) now (increment_attempts cache now p user s).1
    unfolding increment_attempts
    Counted-next zero now s lt le g =
        let first = count_in_window-first cache now (attempt_key p user) attempt_window s g in
        (first.0, (now + 600000, le, first.1 now (omega arith)))
    Counted-next (suc n) now s lt le g =
        let next =
          count_in_window-next cache now (attempt_key p user) attempt_window s (suc n) g.0
            (omega arith) (omega arith) g.2 in
        let suc_eq : suc n + 1 ≡ suc (suc n) = omega arith in
        (next.0, (g.0, g.1, rw (← suc_eq) (next.1 now (omega arith))))

    code_kept :
        (n now : ℕ) (s : cache.State)
        → Holds now s
        → Holds now (increment_attempts cache now p user s).1
    unfolding increment_attempts
    code_kept n now s holds =
        count_in_window-elsewhere cache now (attempt_key p user) attempt_window s now
          (otp_key p user) (omega arith) (attempt_apart p user)
        ∙ holds

    -- A wrong try leaves no code, or one more of fewer than five tries.
    refused :
        (n now : ℕ) (s : cache.State)
        → now < end
        → end ≤ now + 600000
        → Holds now s
        → Counted n now s
        → (seen_code (refuse cache hash now user p s) now ≡ none)
          ⊎ ((suc n < 5) × Guessed (suc n) now (refuse cache hash now user p s))
    unfolding refuse
    refused n now s lt le holds counted =
        let next = Counted-next n now s lt le counted in
        let after = (increment_attempts cache now p user s).1 in
        elim (Bool-cases (leb 5 (n + 1))) [
          | inl e ↦ rw (next.0, e) (inl (cleared after now))
          | inr e ↦
              let few : suc n < 5 = ground arith in
              rw (next.0, e) (inr (few, inr (code_kept n now s holds, next.1)))
        ]

    check_refused :
        (now : ℕ) (g : Text) (s : cache.State)
        → same (c ∷ cs) (hash g) ≡ false
        → (check cache hash now user p g (some (c ∷ cs)) s).1 ≡ refuse cache hash now user p s
    check_refused now g s e = rw e refl

    Counted-same :
        (n now : ℕ) (s s' : cache.State)
        → cache.seen s' now (attempt_key p user) ≡ cache.seen s now (attempt_key p user)
        → Counted n now s
        → Counted n now s'
    Counted-same zero now s s' e g = e ∙ g
    Counted-same (suc n) now s s' e g = (g.0, g.1, e ∙ g.2)

    wrong_try :
        (n now : ℕ) (g : Text) (s : cache.State)
        → end ≤ now + 600000
        → same (c ∷ cs) (hash g) ≡ false
        → Guessed n now s
        → (seen_code (verify cache hash now user p g s).1 now ≡ none)
          ⊎ ((suc n < 5) × Guessed (suc n) now (verify cache hash now user p g s).1)
    unfolding verify
    wrong_try n now g s le e (inl a) = inl (verify-absent now now g s (omega arith) a).1
    wrong_try n now g s le e (inr (holds, counted)) = elim (Bool-cases (leb end now)) [
      | inl late ↦ inl (verify-absent now now g s (omega arith) (holds ∙ rw late refl)).1
      | inr early ↦
          let s' = (cache.get now (otp_key p user) s).1 in
          let found : (cache.get now (otp_key p user) s).0 ≡ some (c ∷ cs) =
            cache.get_value now (otp_key p user) s ∙ rw (holds, early) refl in
          let unread : (k : Text) → cache.seen s' now k ≡ cache.seen s now k =
            λ k. cache.get_lem now now (otp_key p user) k s (omega arith) in
          rw (found, check_refused now g s' e)
            (refused n now s' (ground arith) le (unread (otp_key p user) ∙ holds)
              (Counted-same n now s s' (unread (attempt_key p user)) counted))
    ]

    tries_gone :
        (t : ℕ) (gs : List (ℕ × Text)) (s : cache.State)
        → Ascends t gs
        → seen_code s t ≡ none
        → seen_code (try_all gs s) (end_time t gs) ≡ none
    unfolding try_all
    tries_gone t [] s a h = h
    tries_gone t ((now, g) ∷ gs) s a h =
        tries_gone now gs (verify cache hash now user p g s).1 a.1
          (verify-absent now now g s (omega arith) (gone s t now a.0 h)).1

    -- After five wrong tries there is no code.
    tries_used :
        (n t : ℕ) (gs : List (ℕ × Text)) (s : cache.State)
        → end ≤ t + 600000
        → n < 5
        → 5 ≤ n + length gs
        → Ascends t gs
        → All (λ g. same (c ∷ cs) (hash g.1) ≡ false) gs
        → Guessed n t s
        → seen_code (try_all gs s) (end_time t gs) ≡ none
    unfolding try_all
    tries_used n t [] s le few many a wrong h = absurd (omega arith)
    tries_used n t ((now, g) ∷ gs) s le few many a wrong h =
        let later = Guessed-later n t now s a.0 h in
        elim (wrong_try n now g s (omega (arith, a.0)) wrong.0 later) [
          | inl e ↦ tries_gone now gs (verify cache hash now user p g s).1 a.1 e
          | inr (few', g') ↦
              tries_used (suc n) now gs (verify cache hash now user p g s).1 (omega (arith, a.0))
                few' (omega arith) a.1 wrong.1 g'
        ]

  -- After a code with a hash that is not empty is created, while no wrong tries are counted, and
  -- then five or more wrong codes are tried at times that do not go back, no code is accepted from
  -- then on.
  pub verify-after_five :
      (t now : ℕ) (code other : Text) (gs : List (ℕ × Text)) (s : cache.State)
      → (c : ℕ) (cs : Text) → hash code ≡ c ∷ cs
      → cache.seen s t (attempt_key p user) ≡ none
      → Ascends t gs
      → All (λ g. same (hash code) (hash g.1) ≡ false) gs
      → 5 ≤ length gs
      → end_time t gs ≤ now
      → (verify cache hash now user p other (try_all gs (create cache hash t user p code s).1)).0
        ≡ false
  unfolding create
  verify-after_five t now code other gs s c cs e fresh a wrong five late =
      let s' = cache.set t (otp_key p user) (c ∷ cs) otp_ttl s in
      let kept : Holds c cs (t + 600000) t s' =
        cache.set_lem t t otp_ttl (otp_key p user) (otp_key p user) (c ∷ cs) s
        ∙ rw (same_refl (otp_key p user)) refl in
      let none_yet : cache.seen s' t (attempt_key p user) ≡ none =
        cache.set_lem t t otp_ttl (otp_key p user) (attempt_key p user) (c ∷ cs) s
        ∙ rw (code_apart p user) fresh in
      let left =
        tries_used c cs (t + 600000) 0 t gs s' (omega arith) (omega arith) (omega (arith, five)) a
          (rw e at wrong) (inr (kept, none_yet)) in
      rw e
        (verify-absent now now other (try_all gs s') (omega arith)
          (gone (try_all gs s') (end_time t gs) now late left)).0

  -- The code that was created, with a hash that is not empty, is accepted in the ten minutes that
  -- follow, if nothing is done in between.
  pub verify-create :
      (t now : ℕ) (code : Text) (s : cache.State)
      → (c : ℕ) (cs : Text) → hash code ≡ c ∷ cs
      → t ≤ now
      → now < t + 600000
      → (verify cache hash now user p code (create cache hash t user p code s).1).0 ≡ true
  unfolding create verify
  verify-create t now code s c cs e le lt =
      let s' = cache.set t (otp_key p user) (c ∷ cs) otp_ttl s in
      let early : leb (t + 600000) now ≡ false = ground arith in
      let found : (cache.get now (otp_key p user) s').0 ≡ some (c ∷ cs) =
        cache.get_value now (otp_key p user) s'
        ∙ ap value_of (cache.set_lem t now otp_ttl (otp_key p user) (otp_key p user) (c ∷ cs) s)
        ∙ rw (same_refl (otp_key p user), early) refl in
      rw (e, found, e, same_refl cs) (ground arith)

-- ===== src/Identity/LinkLimits.antt =====
-- verification-link.service.ts: which links are accepted.
use maintain_pro_backend.Shared.{
  ltb, leb, if◌then◌else◌, Bool-cases, ℕ, ◌+◌, ◌≤◌, ◌≡◌, refl, sym, ap, ◌∙◌, inl, inr, Bool, true,
  false, ◌&&◌, Option, none, some, [], ◌∷◌, arith,
}
use maintain_pro_backend.Shared.Texts.{Text, same, same_refl}
use maintain_pro_backend.Cache.Model.{value_of}
use maintain_pro_backend.Cache.Interface.{Cache}
use maintain_pro_backend.Identity.Links.{
  token_key, check_link, verify_link, regenerate, link_ttl, regen_key, regen_window, is_over,
  max_regens, regen_apart,
}
use maintain_pro_backend.Identity.Otp.{count_in_window}
use maintain_pro_backend.Identity.Counters.{count_in_window-elsewhere}

-- Whether a stored hash is the token's, which an empty one is not.
abbrev pub matches : Text → Option Text → Bool
matches h none = false
matches h (some []) = false
matches h (some (c ∷ cs)) = same (c ∷ cs) h

module _ (cache : Cache) (hash : Text → Text) (p user : Text) where
  abbrev stored_at : cache.State → ℕ → Option Text
  stored_at s t = value_of (cache.seen s t (token_key p user))

  check_link_lem :
      (token : Text) (stored : Option Text) (s : cache.State)
      → (check_link cache hash user p token stored s).0 ≡ matches (hash token) stored
  check_link_lem token none s = refl
  check_link_lem token (some []) s = refl
  check_link_lem token (some (c ∷ cs)) s = ground arith

  verify_link_lem :
      (t : ℕ) (token : Text) (s : cache.State)
      → (verify_link cache hash t user p token s).0 ≡ matches (hash token) (stored_at s t)
  unfolding verify_link
  verify_link_lem t token s =
      check_link_lem token (cache.get t (token_key p user) s).0 (cache.get t (token_key p user) s).1
      ∙ ap (matches (hash token)) (cache.get_value t (token_key p user) s)

  check_link-success :
      (t : ℕ) (token : Text) (stored : Option Text) (s : cache.State)
      → (check_link cache hash user p token stored s).0 ≡ true
      → stored_at (check_link cache hash user p token stored s).1 t ≡ none
  check_link-success t token none s h = absurd cc
  check_link-success t token (some []) s h = absurd cc
  check_link-success t token (some (c ∷ cs)) s h = elim (Bool-cases (same (c ∷ cs) (hash token))) [
    | inl e ↦
        rw
          (
            e,
            cache.delete_lem t (token_key p user) (token_key p user) s,
            same_refl (token_key p user),
          )
          refl
    | inr e ↦ let no : false ≡ true = rw e at h in absurd cc
  ]

  -- After a link was accepted, no link is, at any time.
  pub verify_link-once :
      (now t : ℕ) (token other : Text) (s : cache.State)
      → (verify_link cache hash now user p token s).0 ≡ true
      → (verify_link cache hash t user p other (verify_link cache hash now user p token s).1).0
        ≡ false
  unfolding verify_link
  verify_link-once now t token other s h =
      let found = cache.get now (token_key p user) s in
      let after = (verify_link cache hash now user p token s).1 in
      let none_left : stored_at after t ≡ none = check_link-success t token found.0 found.1 h in
      verify_link_lem t other after ∙ ap (matches (hash other)) none_left

  -- What the links answer after a request for a new one.
  abbrev pub answer_after : ℕ → ℕ → Text → Text → Bool → cache.State → Bool
  answer_after now t drawn token true s = ltb t (now + 300000) && same (hash drawn) (hash token)
  answer_after now t drawn token false s = (verify_link cache hash t user p token s).0

  created :
      (now t : ℕ) (drawn token : Text) (s : cache.State)
      → (c : ℕ) (cs : Text) → hash drawn ≡ c ∷ cs
      → (verify_link cache hash t user p token
          (cache.set now (token_key p user) (hash drawn) link_ttl s)).0
        ≡ (ltb t (now + 300000) && same (hash drawn) (hash token))
  created now t drawn token s c cs e =
      let s' = cache.set now (token_key p user) (c ∷ cs) link_ttl s in
      let found : stored_at s' t ≡ (if leb (now + 300000) t then none else some (c ∷ cs)) =
        ap value_of (cache.set_lem now t link_ttl (token_key p user) (token_key p user) (c ∷ cs) s)
        ∙ rw (same_refl (token_key p user)) (ground arith) in
      rw e (verify_link_lem t token s' ∙ ap (matches (hash token)) found ∙ ground arith)

  -- After a request for a new link that is granted, with a hash that is not empty, exactly the
  -- tokens with its hash are accepted, for five minutes; after one that is refused, the tokens
  -- that were accepted before.
  pub regenerate-replaces :
      (now t : ℕ) (drawn token : Text) (s : cache.State)
      → (c : ℕ) (cs : Text) → hash drawn ≡ c ∷ cs
      → now ≤ t
      → (verify_link cache hash t user p token (regenerate cache hash now user p drawn s).1).0
        ≡ answer_after now t drawn token (regenerate cache hash now user p drawn s).0.1 s
  unfolding regenerate
  regenerate-replaces now t drawn token s c cs e h =
      let counted = count_in_window cache now (regen_key p user) regen_window s in
      elim (Bool-cases (is_over counted.0 max_regens)) [
        | inl over ↦ rw over (
            verify_link_lem t token counted.1
            ∙ ap (λ o. matches (hash token) (value_of o))
                (count_in_window-elsewhere cache now (regen_key p user) regen_window s t
                  (token_key p user) h (regen_apart p user))
            ∙ sym (verify_link_lem t token s))
        | inr allowed ↦
            rw allowed
              (created now t drawn token (cache.delete (token_key p user) counted.1).1 c cs e)
      ]

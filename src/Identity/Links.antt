-- ===== src/Identity/Links.antt =====
-- verification-link.service.ts: links whose token proves that a mail was received. The hash and the
-- token that is drawn are arguments; the steps of one operation read the same time.
use maintain_pro_backend.Shared.{
  ltb, if◌then◌else◌, ℤ, ℕ, ◌≡◌, refl, Bool, true, false, not, Option, none, some, [], ◌++◌,
}
use maintain_pro_backend.Shared.Texts.{Text, codes, same}
use maintain_pro_backend.Cache.Interface.{Cache}
use maintain_pro_backend.Identity.Otp.{count_in_window}

-- A purpose is given by its text.
unfoldable pub token_key : Text → Text → Text
token_key purpose user = codes "vlink:" ++ purpose ++ codes ":" ++ user

unfoldable pub regen_key : Text → Text → Text
regen_key purpose user = codes "vlink-regen:" ++ purpose ++ codes ":" ++ user

abbrev pub link_ttl : ℕ
link_ttl = 300

abbrev pub regen_window : ℕ
regen_window = 300

abbrev pub max_regens : ℕ
max_regens = 3

pub regen_apart : (p u : Text) → same (regen_key p u) (token_key p u) ≡ false
unfolding token_key regen_key
regen_apart p u = refl

pub token_apart : (p u : Text) → same (token_key p u) (regen_key p u) ≡ false
unfolding token_key regen_key
token_apart p u = refl

-- `count > n`, false of NaN.
abbrev pub is_over : Option ℕ → ℕ → Bool
is_over none n = false
is_over (some c) n = ltb n c

module _ (cache : Cache) where
  unfoldable pub invalidate_link : Text → Text → cache.State → cache.State
  invalidate_link user p s = (cache.delete (token_key p user) s).1

  unfoldable pub link_time : ℕ → Text → Text → cache.State → ℤ × cache.State
  link_time now user p s = cache.ttl now (token_key p user) s

  module _ (hash : Text → Text) where
    unfoldable pub create_link : ℕ → Text → Text → Text → cache.State → Text × cache.State
    create_link now user p token s =
        (token, cache.set now (token_key p user) (hash token) link_ttl s)

    abbrev pub check_link : Text → Text → Text → Option Text → cache.State → Bool × cache.State
    check_link user p token none s = (false, s)
    check_link user p token (some []) s = (false, s)
    check_link user p token (some stored) s =
        if not (same stored (hash token))
        then (false, s)
        else (true, (cache.delete (token_key p user) s).1)

    unfoldable pub verify_link : ℕ → Text → Text → Text → cache.State → Bool × cache.State
    verify_link now user p token s =
        let (stored, s') = cache.get now (token_key p user) s in check_link user p token stored s'

    -- The token and whether it may be sent.
    unfoldable pub regenerate : ℕ → Text → Text → Text → cache.State → (Text × Bool) × cache.State
    unfolding create_link
    regenerate now user p drawn s =
        let (count, s') = count_in_window cache now (regen_key p user) regen_window s in
        if is_over count max_regens
        then (([], false), s')
        else let (token, s'') =
            create_link now user p drawn (cache.delete (token_key p user) s').1 in
          ((token, true), s'')

-- ===== src/Identity/Otp.antt =====
-- otp.service.ts: one-time codes under a user and a purpose. The hash and the code that is drawn are
-- arguments; the steps of one operation read the same time.
use maintain_pro_backend.Shared.{
  leb, ◌==◌, if◌then◌else◌, ℤ, ℕ, ◌≡◌, refl, Bool, true, false, not, Option, none, some, [], ◌++◌,
}
use maintain_pro_backend.Shared.Texts.{Text, codes, same}
use maintain_pro_backend.Cache.Interface.{Cache}

pub data OtpPurpose : Type 0 where
  email_verification password_reset phone_verification email_change phone_change : OtpPurpose

abbrev pub purpose_text : OtpPurpose → Text
purpose_text OtpPurpose.email_verification = codes "email_verification"
purpose_text OtpPurpose.password_reset = codes "password_reset"
purpose_text OtpPurpose.phone_verification = codes "phone_verification"
purpose_text OtpPurpose.email_change = codes "email_change"
purpose_text OtpPurpose.phone_change = codes "phone_change"

abbrev pub otp_ttl : ℕ
otp_ttl = 600

abbrev pub max_attempts : ℕ
max_attempts = 5

abbrev pub attempt_window : ℕ
attempt_window = 600

abbrev pub max_resends : ℕ
max_resends = 3

abbrev pub resend_window : ℕ
resend_window = 600

unfoldable pub otp_key : OtpPurpose → Text → Text
otp_key p user = codes "otp:" ++ purpose_text p ++ codes ":" ++ user

unfoldable pub attempt_key : OtpPurpose → Text → Text
attempt_key p user = codes "otp-attempts:" ++ purpose_text p ++ codes ":" ++ user

unfoldable pub resend_key : OtpPurpose → Text → Text
resend_key p user = codes "otp-resend:" ++ purpose_text p ++ codes ":" ++ user

pub attempt_apart : (p : OtpPurpose) (u : Text) → same (attempt_key p u) (otp_key p u) ≡ false
unfolding attempt_key otp_key
attempt_apart p u = refl

pub code_apart : (p : OtpPurpose) (u : Text) → same (otp_key p u) (attempt_key p u) ≡ false
unfolding attempt_key otp_key
code_apart p u = refl

-- `count === n` and `count <= n`, false of NaN.
abbrev pub is_count : Option ℕ → ℕ → Bool
is_count none n = false
is_count (some c) n = c == n

abbrev pub is_at_least : Option ℕ → ℕ → Bool
is_at_least none n = false
is_at_least (some c) n = leb n c

abbrev pub is_at_most : Option ℕ → ℕ → Bool
is_at_most none n = false
is_at_most (some c) n = leb c n

module _ (cache : Cache) where
  -- A counter that starts to expire when it is first incremented.
  unfoldable pub count_in_window : ℕ → Text → ℕ → cache.State → Option ℕ × cache.State
  count_in_window now k window s =
      let (count, s') = cache.increment now k s in
      (count, if is_count count 1 then (cache.expire now k window s').1 else s')

  unfoldable pub increment_attempts : ℕ → OtpPurpose → Text → cache.State → Option ℕ × cache.State
  increment_attempts now p user s = count_in_window now (attempt_key p user) attempt_window s

  unfoldable pub reset_attempts : OtpPurpose → Text → cache.State → cache.State
  reset_attempts p user s = (cache.delete (attempt_key p user) s).1

  unfoldable pub invalidate : OtpPurpose → Text → cache.State → cache.State
  invalidate p user s = (cache.delete (otp_key p user) s).1

  unfoldable pub can_resend : ℕ → Text → OtpPurpose → cache.State → Bool × cache.State
  can_resend now user p s =
      let (count, s') = count_in_window now (resend_key p user) resend_window s in
      (is_at_most count max_resends, s')

  unfoldable pub remaining_time : ℕ → Text → OtpPurpose → cache.State → ℤ × cache.State
  remaining_time now user p s = cache.ttl now (otp_key p user) s

  module _ (hash : Text → Text) where
    unfoldable pub create : ℕ → Text → OtpPurpose → Text → cache.State → Text × cache.State
    create now user p code s = (code, cache.set now (otp_key p user) (hash code) otp_ttl s)

    -- After a wrong code.
    unfoldable pub refuse : ℕ → Text → OtpPurpose → cache.State → cache.State
    unfolding increment_attempts reset_attempts invalidate
    refuse now user p s =
        let (attempts, s') = increment_attempts now p user s in
        if is_at_least attempts max_attempts
        then reset_attempts p user (invalidate p user s')
        else s'

    -- What is stored decides; an absent or empty hash is no code.
    abbrev pub check : ℕ → Text → OtpPurpose → Text → Option Text → cache.State → Bool × cache.State
    check now user p code none s = (false, s)
    check now user p code (some []) s = (false, s)
    check now user p code (some stored) s =
        if not (same stored (hash code))
        then (false, refuse now user p s)
        else (true, reset_attempts p user (invalidate p user s))

    unfoldable pub verify : ℕ → Text → OtpPurpose → Text → cache.State → Bool × cache.State
    verify now user p code s =
        let (stored, s') = cache.get now (otp_key p user) s in check now user p code stored s'

-- ===== src/Identity/Tests.antt =====
-- Codes and links over the local store.
use maintain_pro_backend.Shared.Decimal.{number_of, scan, decimal, digits}
use maintain_pro_backend.Identity.RateLimit.{hit_store}
use maintain_pro_backend.Cache.Views.{view, view}
use maintain_pro_backend.Cache.Model.{lookup, insert, lookup, lookup, lookup, insert}
use maintain_pro_backend.Cache.Local
use maintain_pro_backend.Shared.{ℕ, ◌≡◌, refl, true, false, none, List, [], ◌∷◌, arith}
use maintain_pro_backend.Shared.Texts.{Text, codes}
use maintain_pro_backend.Cache.Interface.{local_cache}
use maintain_pro_backend.Identity.Otp.{OtpPurpose, otp_key, create, verify, count_in_window}
use maintain_pro_backend.Identity.OtpLimits.{try_all, verify-once, verify-after_five, verify-create}
use maintain_pro_backend.Identity.Links.{token_key, create_link, verify_link, regenerate}
use maintain_pro_backend.Identity.LinkLimits.{verify_link-once, answer_after, regenerate-replaces}
use maintain_pro_backend.Identity.RateLimitLaws.{local_answers, store_answers, local_answers_lem}
use maintain_pro_backend.Identity.Resends.{firsts, resend_all, resend_all-firsts}

abbrev tag : Text → Text
tag x = b'h' ∷ x

abbrev user : Text
user = codes "17"

abbrev sent : local_cache.State
sent = (create local_cache tag 1000 user OtpPurpose.password_reset (codes "123456") []).1

abbrev guesses : List (ℕ × Text)
guesses =
    (2000, codes "0")
    ∷ (3000, codes "1")
    ∷ (4000, codes "2")
    ∷ (5000, codes "3")
    ∷ (6000, codes "4")
    ∷ []

right_code :
    (verify local_cache tag 2000 user OtpPurpose.password_reset (codes "123456") sent).0 ≡ true
unfolding verify create otp_key Local.get Local.local_entry lookup Local.set insert
right_code = refl

verify-once_example :
    (verify local_cache tag 2500 user OtpPurpose.password_reset
      (codes "123456")
      (verify local_cache tag 2000 user OtpPurpose.password_reset (codes "123456") sent).1).0
    ≡ false
verify-once_example =
    verify-once local_cache tag OtpPurpose.password_reset user 2000 2500 (codes "123456")
      (codes "123456") sent right_code

verify-after_five_example :
    (verify local_cache tag 7000 user OtpPurpose.password_reset
      (codes "123456")
      (try_all local_cache tag OtpPurpose.password_reset user guesses sent)).0
    ≡ false
unfolding view lookup
verify-after_five_example =
    verify-after_five local_cache tag OtpPurpose.password_reset user 1000 7000 (codes "123456")
      (codes "123456") guesses [] b'h' (codes "123456") refl refl (ground arith)
      (refl, (refl, (refl, (refl, (refl, tt))))) (omega arith) (omega arith)

verify-create_example :
    (verify local_cache tag 600999 user OtpPurpose.password_reset (codes "123456") sent).0 ≡ true
verify-create_example =
    verify-create local_cache tag OtpPurpose.password_reset user 1000 600999 (codes "123456") []
      b'h' (codes "123456") refl (omega arith) (omega arith)

abbrev requests : List (ℕ × Unit {0})
requests = (20, tt) ∷ (30, tt) ∷ (40, tt) ∷ (50, tt) ∷ []

resend_all-firsts_example :
    resend_all local_cache OtpPurpose.phone_change user ((10, tt) ∷ requests) []
    ≡ firsts 3 ((10, tt) ∷ requests)
unfolding view lookup
resend_all-firsts_example =
    resend_all-firsts local_cache OtpPurpose.phone_change user 10 tt requests [] refl (ground arith)
      (omega arith)

abbrev mailed : local_cache.State
mailed = (create_link local_cache tag 1000 user (codes "email") (codes "f00d") []).1

right_link : (verify_link local_cache tag 2000 user (codes "email") (codes "f00d") mailed).0 ≡ true
unfolding verify_link create_link token_key Local.get Local.local_entry lookup Local.set insert
right_link = refl

verify_link-once_example :
    (verify_link local_cache tag 2500 user
      (codes "email")
      (codes "f00d")
      (verify_link local_cache tag 2000 user (codes "email") (codes "f00d") mailed).1).0
    ≡ false
verify_link-once_example =
    verify_link-once local_cache tag (codes "email") user 2000 2500 (codes "f00d") (codes "f00d")
      mailed right_link

regenerate-replaces_example :
    (verify_link local_cache tag 3000 user
      (codes "email")
      (codes "f00d")
      (regenerate local_cache tag 2000 user (codes "email") (codes "beef") mailed).1).0
    ≡ answer_after local_cache tag
        (codes "email")
        user
        2000
        3000
        (codes "beef")
        (codes "f00d")
        (regenerate local_cache tag 2000 user (codes "email") (codes "beef") mailed).0.1
        mailed
regenerate-replaces_example =
    regenerate-replaces local_cache tag (codes "email") user 2000 3000 (codes "beef") (codes "f00d")
      mailed b'h' (codes "beef") refl (omega arith)

local_answers_lem_example :
    local_answers local_cache (codes "login:17") 2 60 ((10, tt) ∷ requests) (λ k. none)
    ≡ store_answers local_cache (codes "login:17") 2 60 ((10, tt) ∷ requests) []
unfolding view lookup
local_answers_lem_example =
    local_answers_lem local_cache (codes "login:17") 2 60 10 ((10, tt) ∷ requests) [] refl
      (ground arith)

third_hit_refused :
    store_answers local_cache (codes "login:17") 2 60 ((10, tt) ∷ requests) []
    ≡ true ∷ true ∷ false ∷ false ∷ false ∷ []
unfolding store_answers hit_store count_in_window Local.increment Local.local_entry lookup Local.ttl
    Local.expire insert number_of scan decimal digits
third_hit_refused = refl

-- ===== src/Identity/RateLimit.antt =====
-- shared/services/rate-limit.service.ts: hits of a key in a window, counted in the process where the
-- connection to Redis is disabled and in the store otherwise.
use maintain_pro_backend.Shared.{
  leb, if◌then◌else◌, ℤ, pos, ℕ, ◌+◌, ◌-◌, ◌*◌, ◌/◌, Bool, Option, none, some,
}
use maintain_pro_backend.Shared.Texts.{Text, same}
use maintain_pro_backend.Cache.Interface.{Cache}
use maintain_pro_backend.Identity.Otp.{count_in_window, is_at_most}

pub record HitCounter : Type 0 where
  pub count : ℕ
  pub expires_at : ℕ

abbrev pub LocalCounters : Type 0
LocalCounters = Text → Option HitCounter

pub record HitResult : Type 0 where
  pub count : Option ℕ
  pub allowed : Bool
  pub remaining : ℕ
  pub ttl : ℤ

-- The counter after a hit.
abbrev pub hit_counter : ℕ → ℕ → Option HitCounter → HitCounter
hit_counter now window none = record { count = 1; expires_at = now + window * 1000 }
hit_counter now window (some c) =
    if leb c.expires_at now
    then record { count = 1; expires_at = now + window * 1000 }
    else record { count = c.count + 1; expires_at = c.expires_at }

unfoldable pub hit_local : ℕ → Text → ℕ → ℕ → LocalCounters → HitResult × LocalCounters
hit_local now key max_hits window counters =
    let entry = hit_counter now window (counters key) in
    (
      record {
        count = some entry.count;
        allowed = leb entry.count max_hits;
        remaining = max_hits - entry.count;
        ttl = pos ((entry.expires_at - now + 999) / 1000);
      },
      λ k. if same key k then some entry else counters k,
    )

-- `Math.max(0, maxAttempts - count)`. The NaN of a value that is no number is left out.
abbrev pub hits_left : ℕ → Option ℕ → ℕ
hits_left max_hits none = 0
hits_left max_hits (some n) = max_hits - n

unfoldable pub hit_store :
    (cache : Cache) → ℕ → Text → ℕ → ℕ → cache.State → HitResult × cache.State
hit_store cache now key max_hits window s =
    let (count, s') = count_in_window cache now key window s in
    let (left, s'') = cache.ttl now key s' in
    (
      record {
        count = count;
        allowed = is_at_most count max_hits;
        remaining = hits_left max_hits count;
        ttl = left;
      },
      s'',
    )

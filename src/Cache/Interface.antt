-- ===== src/Cache/Interface.antt =====
-- RedisService as its clients use it: the operations, and what they promise of later reads. The
-- local store keeps the promise.
use maintain_pro_backend.Shared.{if◌then◌else◌, ℤ, ℕ, ◌+◌, ◌*◌, ◌≤◌, ◌≡◌, Option, none, some}
use maintain_pro_backend.Shared.Texts.{Text, same}
use maintain_pro_backend.Cache.Model.{Entry, LocalStore, alive, value_of, expiry, expires_of}
use maintain_pro_backend.Cache.Views.{
  view, view_later, get_value, get_view, set_view, delete_view, increment_value, counted,
  increment_view, ttl_value, ttl_view, expiring, expire_view,
}
use maintain_pro_backend.Cache.Local
use maintain_pro_backend.Cache.Local.{next_count, remaining}

-- The state is threaded through; each operation is given the time.
pub record Cache : Type 1 where
  pub State : Type 0
  pub get : ℕ → Text → State → Option Text × State
  pub set : ℕ → Text → Text → ℕ → State → State
  pub delete : Text → State → ℕ × State
  pub increment : ℕ → Text → State → Option ℕ × State
  pub expire : ℕ → Text → ℕ → State → ℕ × State
  pub ttl : ℕ → Text → State → ℤ × State
  pub seen : State → ℕ → Text → Option Entry
  pub seen_later :
      (s : State) (now t : ℕ) (k : Text) → now ≤ t → seen s t k ≡ alive t (seen s now k)
  pub get_value : (now : ℕ) (k : Text) (s : State) → (get now k s).0 ≡ value_of (seen s now k)
  pub get_lem :
      (now t : ℕ) (k j : Text) (s : State) → now ≤ t → seen (get now k s).1 t j ≡ seen s t j
  pub set_lem :
      (now t ttl : ℕ) (k j v : Text) (s : State)
      → seen (set now k v ttl s) t j ≡ (
          if same k j
          then alive t (some (record { value = v; expires_at = expiry now ttl }))
          else seen s t j)
  pub delete_lem :
      (t : ℕ) (k j : Text) (s : State)
      → seen (delete k s).1 t j ≡ (if same k j then none else seen s t j)
  pub increment_value :
      (now : ℕ) (k : Text) (s : State) → (increment now k s).0 ≡ next_count (seen s now k)
  pub increment_lem :
      (now t : ℕ) (k j : Text) (s : State)
      → now ≤ t
      → seen (increment now k s).1 t j
        ≡ (if same k j then alive t (some (counted (seen s now k))) else seen s t j)
  pub expire_lem :
      (now t ttl : ℕ) (k j : Text) (s : State)
      → now ≤ t
      → seen (expire now k ttl s).1 t j
        ≡ (if same k j then alive t (expiring (now + ttl * 1000) (seen s now k)) else seen s t j)
  pub ttl_value :
      (now : ℕ) (k : Text) (s : State) → (ttl now k s).0 ≡ remaining now (expires_of (seen s now k))
  pub ttl_lem :
      (now t : ℕ) (k j : Text) (s : State) → now ≤ t → seen (ttl now k s).1 t j ≡ seen s t j

abbrev pub local_cache : Cache
local_cache = record {
  State = LocalStore;
  get = Local.get;
  set = Local.set;
  delete = Local.delete;
  increment = Local.increment;
  expire = Local.expire;
  ttl = Local.ttl;
  seen = view;
  seen_later = view_later;
  get_value = get_value;
  get_lem = get_view;
  set_lem = set_view;
  delete_lem = delete_view;
  increment_value = increment_value;
  increment_lem = increment_view;
  expire_lem = expire_view;
  ttl_value = ttl_value;
  ttl_lem = ttl_view;
}

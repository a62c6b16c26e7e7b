-- ===== src/Cache/Commands.antt =====
-- RedisService: commands on the local store at given times, and the map with expiry that they are
-- meant to implement.
use maintain_pro_backend.Shared.{
  if◌then◌else◌, is_some, ℤ, ℕ, ◌+◌, ◌*◌, Bool, true, false, Option, none, some, List, [], ◌∷◌,
}
use maintain_pro_backend.Shared.Texts.{Text, same, starts_with}
use maintain_pro_backend.Cache.Model.{Entry, LocalStore, alive, value_of, expiry, expires_of}
use maintain_pro_backend.Cache.Views.{counted, expiring}
use maintain_pro_backend.Cache.Local
use maintain_pro_backend.Cache.Local.{next_count, remaining, has_value, without_star}

pub data Command : Type 0 where
  get_command delete_command exists_command increment_command ttl_command : Text → Command
  set_command set_if_absent_command : Text → Text → ℕ → Command
  delete_if_value_command : Text → Text → Command
  delete_by_pattern_command : Text → Command
  expire_command : Text → ℕ → Command

-- The counts that `delete` and `deleteByPattern` return are left out, as they include entries that
-- have expired and were not read since.
pub data Reply : Type 0 where
  done : Reply
  value_reply : Option Text → Reply
  flag_reply : Bool → Reply
  count_reply : Option ℕ → Reply
  seconds_reply : ℤ → Reply

unfoldable pub execute : ℕ → Command → LocalStore → Reply × LocalStore
execute now (Command.get_command k) s = let (r, s') = Local.get now k s in (value_reply r, s')
execute now (Command.delete_command k) s = (done, (Local.delete k s).1)
execute now (Command.exists_command k) s =
    let (r, s') = Local.exists now k s in (count_reply (some r), s')
execute now (Command.increment_command k) s =
    let (r, s') = Local.increment now k s in (count_reply r, s')
execute now (Command.ttl_command k) s = let (r, s') = Local.ttl now k s in (seconds_reply r, s')
execute now (Command.set_command k v ttl) s = (done, Local.set now k v ttl s)
execute now (Command.set_if_absent_command k v ttl) s =
    let (r, s') = Local.set_if_absent now k v ttl s in (flag_reply r, s')
execute now (Command.delete_if_value_command k v) s =
    let (r, s') = Local.delete_if_value now k v s in (flag_reply r, s')
execute now (Command.delete_by_pattern_command p) s = (done, (Local.delete_by_pattern p s).1)
execute now (Command.expire_command k ttl) s =
    let (r, s') = Local.expire now k ttl s in (count_reply (some r), s')

-- The replies to commands at their times.
unfoldable pub execute_all : List (ℕ × Command) → LocalStore → List Reply
execute_all [] s = []
execute_all ((now, c) ∷ cs) s = let (r, s') = execute now c s in r ∷ execute_all cs s'

-- A map with expiry: what each key holds.
abbrev pub Expiring : Type 0
Expiring = Text → Option Entry

abbrev pub write : Text → Option Entry → Expiring → Expiring
write k o f = λ j. if same k j then o else f j

abbrev pub count_of_some : Option Entry → Reply
count_of_some o = count_reply (some (if is_some o then 1 else 0))

-- What a command means for the map of the entries that have not expired.
unfoldable pub specify : ℕ → Command → Expiring → Reply × Expiring
specify now (Command.get_command k) f = (value_reply (value_of (f k)), f)
specify now (Command.delete_command k) f = (done, write k none f)
specify now (Command.exists_command k) f = (count_of_some (f k), f)
specify now (Command.increment_command k) f =
    (count_reply (next_count (f k)), write k (some (counted (f k))) f)
specify now (Command.ttl_command k) f = (seconds_reply (remaining now (expires_of (f k))), f)
specify now (Command.set_command k v ttl) f =
    (done, write k (some (record { value = v; expires_at = expiry now ttl })) f)
specify now (Command.set_if_absent_command k v ttl) f =
    if is_some (f k)
    then (flag_reply false, f)
    else (flag_reply true, write k (some (record { value = v; expires_at = expiry now ttl })) f)
specify now (Command.delete_if_value_command k v) f =
    if has_value (f k) v then (flag_reply true, write k none f) else (flag_reply false, f)
specify now (Command.delete_by_pattern_command p) f =
    (done, λ j. if starts_with j (without_star p) then none else f j)
specify now (Command.expire_command k ttl) f =
    (count_of_some (f k), write k (expiring (now + ttl * 1000) (f k)) f)

unfoldable pub specify_all : List (ℕ × Command) → Expiring → List Reply
specify_all [] f = []
specify_all ((now, c) ∷ cs) f =
    let (r, g) = specify now c (λ k. alive now (f k)) in r ∷ specify_all cs g

-- ===== src/Cache/Local.antt =====
-- redis.service.ts: the operations on the local store. Each reads the clock once.
use maintain_pro_backend.Shared.{
  ◌==◌, if◌then◌else◌, is_some, ℤ, pos, negsuc, ℕ, ◌+◌, ◌-◌, ◌*◌, ◌/◌, Bool, true, false, Option,
  none, some, [], ◌∷◌,
}
use maintain_pro_backend.Shared.Texts.{Text, codes, same, starts_with}
use maintain_pro_backend.Shared.Decimal.{decimal, number_of}
use mathlib.Core.Option
use maintain_pro_backend.Cache.Model.{
  Entry, LocalStore, lookup, insert, remove, is_expired, value_of, expiry, expires_of,
}

-- `localEntry`: an entry that has expired is deleted.
unfoldable pub local_entry : ℕ → Text → LocalStore → Option Entry × LocalStore
local_entry now k s =
    let found = lookup k s in if is_expired now found then (none, remove k s) else (found, s)

unfoldable pub set : ℕ → Text → Text → ℕ → LocalStore → LocalStore
set now k v ttl s = insert k (record { value = v; expires_at = expiry now ttl }) s

unfoldable pub set_if_absent : ℕ → Text → Text → ℕ → LocalStore → Bool × LocalStore
set_if_absent now k v ttl s =
    let (existing, s') = local_entry now k s in
    if is_some existing then (false, s') else (true, set now k v ttl s')

unfoldable pub get : ℕ → Text → LocalStore → Option Text × LocalStore
get now k s = let (e, s') = local_entry now k s in (value_of e, s')

-- The count is of entries that are there, expired or not.
unfoldable pub delete : Text → LocalStore → ℕ × LocalStore
delete k s = (if is_some (lookup k s) then 1 else 0, remove k s)

abbrev pub has_value : Option Entry → Text → Bool
has_value none v = false
has_value (some e) v = same (e.value) v

unfoldable pub delete_if_value : ℕ → Text → Text → LocalStore → Bool × LocalStore
delete_if_value now k v s =
    let (current, s') = local_entry now k s in
    if has_value current v then (true, remove k s') else (false, s')

-- `pattern.replace(/\*$/, "")`.
abbrev pub without_star : Text → Text
without_star [] = []
without_star (c ∷ []) = if c == b'*' then [] else c ∷ []
without_star (c ∷ d ∷ s) = c ∷ without_star (d ∷ s)

abbrev pub remove_matching : Text → LocalStore → ℕ × LocalStore
remove_matching prefix [] = (0, [])
remove_matching prefix ((k, e) ∷ s) =
    let (n, rest) = remove_matching prefix s in
    if starts_with k prefix then (n + 1, rest) else (n, (k, e) ∷ rest)

unfoldable pub delete_by_pattern : Text → LocalStore → ℕ × LocalStore
delete_by_pattern pattern s = remove_matching (without_star pattern) s

unfoldable pub exists : ℕ → Text → LocalStore → ℕ × LocalStore
exists now k s = let (e, s') = local_entry now k s in (if is_some e then 1 else 0, s')

-- `(current ? Number(current.value) : 0) + 1`, none for NaN.
abbrev pub next_count : Option Entry → Option ℕ
next_count none = some 1
next_count (some e) = Option.map (λ n. n + 1) (number_of (e.value))

abbrev pub printed : Option ℕ → Text
printed none = codes "NaN"
printed (some n) = decimal n

unfoldable pub increment : ℕ → Text → LocalStore → Option ℕ × LocalStore
increment now k s =
    let (current, s') = local_entry now k s in
    let next = next_count current in
    let e : Entry = record { value = printed next; expires_at = expires_of current } in
    (next, insert k e s')

abbrev pub expire_entry : ℕ → Text → ℕ → Option Entry → LocalStore → ℕ × LocalStore
expire_entry now k ttl none s = (0, s)
expire_entry now k ttl (some e) s =
    (1, insert k (record e { expires_at = some (now + ttl * 1000) }) s)

unfoldable pub expire : ℕ → Text → ℕ → LocalStore → ℕ × LocalStore
expire now k ttl s = let (current, s') = local_entry now k s in expire_entry now k ttl current s'

-- `Math.max(0, Math.ceil((expiresAt - now) / 1000))`, and -1 without an expiry.
abbrev pub remaining : ℕ → Option ℕ → ℤ
remaining now none = negsuc 0
remaining now (some t) = pos ((t - now + 999) / 1000)

unfoldable pub ttl : ℕ → Text → LocalStore → ℤ × LocalStore
ttl now k s = let (current, s') = local_entry now k s in (remaining now (expires_of current), s')

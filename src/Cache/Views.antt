-- ===== src/Cache/Views.antt =====
-- redis.service.ts: what each operation of the local store does to what the later reads see.
use maintain_pro_backend.Shared.{
  if◌then◌else◌, Bool-cases, is_some, ℕ, ◌+◌, ◌*◌, ◌≤◌, ◌≡◌, refl, sym, ap, ◌∙◌, subst, inl, inr,
  true, false, Option, none, some, [], ◌∷◌, arith,
}
use maintain_pro_backend.Shared.Texts.{Text, same, same_sound, starts_with}
use maintain_pro_backend.Cache.Model.{
  Entry, LocalStore, lookup, insert, remove, is_expired, alive, value_of, expiry, expires_of,
  lookup-insert, lookup-remove,
}
use maintain_pro_backend.Cache.Local.{
  local_entry, set, get, delete, next_count, printed, increment, expire_entry, expire, remaining,
  ttl, delete_by_pattern, remove_matching, exists, without_star,
}

-- The entry that a key has at a time, if it has not expired.
unfoldable pub view : LocalStore → ℕ → Text → Option Entry
view s t k = alive t (lookup k s)

-- What has expired stays so.
pub is_expired_mono :
    (now t : ℕ) (o : Option Entry) → now ≤ t → is_expired now o ≡ true → is_expired t o ≡ true
is_expired_mono now t none h e = absurd cc
is_expired_mono now t (some e) h k = ground arith

pub alive_later : (now t : ℕ) (o : Option Entry) → now ≤ t → alive t (alive now o) ≡ alive t o
alive_later now t o h = elim (Bool-cases (is_expired now o)) [
  | inl e ↦ rw (e, is_expired_mono now t o h e) refl
  | inr e ↦ rw e refl
]

pub view_later :
    (s : LocalStore) (now t : ℕ) (k : Text) → now ≤ t → view s t k ≡ alive t (view s now k)
unfolding view
view_later s now t k h = sym (alive_later now t (lookup k s) h)

pub local_entry_found :
    (now : ℕ) (k : Text) (s : LocalStore) → (local_entry now k s).0 ≡ view s now k
unfolding local_entry view
local_entry_found now k s = ground arith

-- Reading an entry changes nothing that a later read sees.
pub view-local_entry :
    (now t : ℕ) (k j : Text) (s : LocalStore)
    → now ≤ t
    → view (local_entry now k s).1 t j ≡ view s t j
unfolding local_entry view
view-local_entry now t k j s h = elim (Bool-cases (is_expired now (lookup k s))) [
  | inl e ↦
      rw (e, lookup-remove k j s)
        (elim (Bool-cases (same k j)) [
          | inl g ↦
              let later : is_expired t (lookup j s) ≡ true =
                is_expired_mono now t (lookup j s) h
                  (subst (λ i. is_expired now (lookup i s) ≡ true) (same_sound k j g) e) in
              rw (g, later) refl
          | inr g ↦ rw g refl
        ])
  | inr e ↦ rw e refl
]

pub view-insert :
    (k j : Text) (e : Entry) (s : LocalStore) (t : ℕ)
    → view (insert k e s) t j ≡ (if same k j then alive t (some e) else view s t j)
unfolding view
view-insert k j e s t = rw (lookup-insert k j e s) (ground arith)

pub view-remove :
    (k j : Text) (s : LocalStore) (t : ℕ)
    → view (remove k s) t j ≡ (if same k j then none else view s t j)
unfolding view
view-remove k j s t = rw (lookup-remove k j s) (ground arith)

pub get_value : (now : ℕ) (k : Text) (s : LocalStore) → (get now k s).0 ≡ value_of (view s now k)
unfolding get
get_value now k s = ap value_of (local_entry_found now k s)

pub get_view :
    (now t : ℕ) (k j : Text) (s : LocalStore) → now ≤ t → view (get now k s).1 t j ≡ view s t j
unfolding get
get_view now t k j s h = view-local_entry now t k j s h

pub set_view :
    (now t ttl : ℕ) (k j v : Text) (s : LocalStore)
    → view (set now k v ttl s) t j ≡ (
        if same k j
        then alive t (some (record { value = v; expires_at = expiry now ttl }))
        else view s t j)
unfolding set
set_view now t ttl k j v s = view-insert k j (record { value = v; expires_at = expiry now ttl }) s t

pub delete_view :
    (t : ℕ) (k j : Text) (s : LocalStore)
    → view (delete k s).1 t j ≡ (if same k j then none else view s t j)
unfolding delete
delete_view t k j s = view-remove k j s t

pub increment_value :
    (now : ℕ) (k : Text) (s : LocalStore) → (increment now k s).0 ≡ next_count (view s now k)
unfolding increment
increment_value now k s = ap next_count (local_entry_found now k s)

-- The entry of a counter after a step.
abbrev pub counted : Option Entry → Entry
counted o = record { value = printed (next_count o); expires_at = expires_of o }

pub increment_view :
    (now t : ℕ) (k j : Text) (s : LocalStore)
    → now ≤ t
    → view (increment now k s).1 t j
      ≡ (if same k j then alive t (some (counted (view s now k))) else view s t j)
unfolding increment
increment_view now t k j s h =
    rw
      (
        view-insert k j (counted (local_entry now k s).0) (local_entry now k s).1 t,
        local_entry_found now k s,
        view-local_entry now t k j s h,
      )
      refl

pub ttl_value :
    (now : ℕ) (k : Text) (s : LocalStore)
    → (ttl now k s).0 ≡ remaining now (expires_of (view s now k))
unfolding ttl
ttl_value now k s = ap (λ o. remaining now (expires_of o)) (local_entry_found now k s)

pub ttl_view :
    (now t : ℕ) (k j : Text) (s : LocalStore) → now ≤ t → view (ttl now k s).1 t j ≡ view s t j
unfolding ttl
ttl_view now t k j s h = view-local_entry now t k j s h

-- The entry of a key whose expiry is set, if there is one.
abbrev pub expiring : ℕ → Option Entry → Option Entry
expiring at none = none
expiring at (some e) = some (record e { expires_at = some at })

view-expire_entry :
    (now t ttl : ℕ) (k j : Text) (o : Option Entry) (s : LocalStore)
    → view s t k ≡ alive t o
    → view (expire_entry now k ttl o s).1 t j
      ≡ (if same k j then alive t (expiring (now + ttl * 1000) o) else view s t j)
view-expire_entry now t ttl k j none s h = elim (Bool-cases (same k j)) [
  | inl g ↦ rw g (subst (λ i. view s t i ≡ none) (same_sound k j g) h)
  | inr g ↦ rw g refl
]
view-expire_entry now t ttl k j (some e) s h =
    view-insert k j (record e { expires_at = some (now + ttl * 1000) }) s t

pub expire_view :
    (now t ttl : ℕ) (k j : Text) (s : LocalStore)
    → now ≤ t
    → view (expire now k ttl s).1 t j
      ≡ (if same k j then alive t (expiring (now + ttl * 1000) (view s now k)) else view s t j)
unfolding expire
expire_view now t ttl k j s h =
    let found = local_entry_found now k s in
    let known : view (local_entry now k s).1 t k ≡ alive t (local_entry now k s).0 =
      rw (view-local_entry now t k k s h, found) (view_later s now t k h) in
    let stored =
      view-expire_entry now t ttl k j (local_entry now k s).0 (local_entry now k s).1 known in
    stored ∙ rw (found, view-local_entry now t k j s h) refl

expired_count :
    (now ttl : ℕ) (k : Text) (o : Option Entry) (s : LocalStore)
    → (expire_entry now k ttl o s).0 ≡ (if is_some o then 1 else 0)
expired_count now ttl k none s = refl
expired_count now ttl k (some e) s = refl

pub expire_value :
    (now ttl : ℕ) (k : Text) (s : LocalStore)
    → (expire now k ttl s).0 ≡ (if is_some (view s now k) then 1 else 0)
unfolding expire
expire_value now ttl k s =
    expired_count now ttl k (local_entry now k s).0 (local_entry now k s).1
    ∙ ap (λ o. if is_some o then 1 else 0) (local_entry_found now k s)

pub exists_value :
    (now : ℕ) (k : Text) (s : LocalStore)
    → (exists now k s).0 ≡ (if is_some (view s now k) then 1 else 0)
unfolding exists
exists_value now k s = ap (λ o. if is_some o then 1 else 0) (local_entry_found now k s)

pub exists_view :
    (now t : ℕ) (k j : Text) (s : LocalStore) → now ≤ t → view (exists now k s).1 t j ≡ view s t j
unfolding exists
exists_view now t k j s h = view-local_entry now t k j s h

lookup-remove_matching :
    (p j : Text) (s : LocalStore)
    → lookup j (remove_matching p s).1 ≡ (if starts_with j p then none else lookup j s)
unfolding lookup
lookup-remove_matching p j [] = ground arith
lookup-remove_matching p j ((k, e) ∷ s) = elim (Bool-cases (starts_with k p)) [
  | inl h ↦ elim (Bool-cases (same k j)) [
    | inl g ↦
        let matched : starts_with j p ≡ true =
          subst (λ i. starts_with i p ≡ true) (same_sound k j g) h in
        rw (h, matched) (lookup-remove_matching p j s ∙ rw matched refl)
    | inr g ↦ rw (h, g) (lookup-remove_matching p j s)
  ]
  | inr h ↦ elim (Bool-cases (same k j)) [
    | inl g ↦
        let unmatched : starts_with j p ≡ false =
          subst (λ i. starts_with i p ≡ false) (same_sound k j g) h in
        rw (h, unmatched, g) refl
    | inr g ↦ rw (h, g) (lookup-remove_matching p j s)
  ]
]

pub view-delete_by_pattern :
    (t : ℕ) (p j : Text) (s : LocalStore)
    → view (delete_by_pattern p s).1 t j
      ≡ (if starts_with j (without_star p) then none else view s t j)
unfolding delete_by_pattern view
view-delete_by_pattern t p j s = rw (lookup-remove_matching (without_star p) j s) (ground arith)

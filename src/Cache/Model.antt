-- ===== src/Cache/Model.antt =====
-- redis.service.ts: the entries of the local store, which stands in for Redis where
-- REDIS_DISABLE_CONNECTION is set. Times are in milliseconds, a time to live in seconds.
use maintain_pro_backend.Shared.{
  leb, ◌==◌, if◌then◌else◌, Bool-cases, ℕ, ◌+◌, ◌*◌, ◌≤◌, ◌≡◌, refl, sym, ap, ◌∙◌, subst, inl, inr,
  Bool, true, false, Option, none, some, List, [], ◌∷◌, arith,
}
use maintain_pro_backend.Shared.Texts.{Text, same, same_sound, same_refl}

pub record Entry : Type 0 where
  pub value : Text
  pub expires_at : Option ℕ

-- The `Map` of the local store, by key.
abbrev pub LocalStore : Type 0
LocalStore = List (Text × Entry)

-- `localStore.get(key)`.
unfoldable pub lookup : Text → LocalStore → Option Entry
lookup k [] = none
lookup k ((j, e) ∷ s) = if same j k then some e else lookup k s

-- `localStore.set(key, entry)`.
unfoldable pub insert : Text → Entry → LocalStore → LocalStore
insert k e [] = (k, e) ∷ []
insert k e ((j, f) ∷ s) = if same j k then (j, e) ∷ s else (j, f) ∷ insert k e s

-- `localStore.delete(key)`.
unfoldable pub remove : Text → LocalStore → LocalStore
remove k [] = []
remove k ((j, e) ∷ s) = let rest = remove k s in if same j k then rest else (j, e) ∷ rest

-- `entry?.expiresAt !== undefined && entry.expiresAt <= now`.
abbrev pub is_expired : ℕ → Option Entry → Bool
is_expired now none = false
is_expired now (some e) = elim (e.expires_at) [ none ↦ false | some t ↦ leb t now ]

-- What an entry is worth at a time.
abbrev pub alive : ℕ → Option Entry → Option Entry
alive now o = if is_expired now o then none else o

abbrev pub value_of : Option Entry → Option Text
value_of none = none
value_of (some e) = some (e.value)

-- `ttl ? { expiresAt: now + ttl * 1000 } : {}`.
abbrev pub expiry : ℕ → ℕ → Option ℕ
expiry now ttl = if ttl == 0 then none else some (now + ttl * 1000)

-- `entry?.expiresAt`, where a zero is no expiry.
abbrev pub expires_of : Option Entry → Option ℕ
expires_of none = none
expires_of (some e) = elim (e.expires_at) [ none ↦ none | some t ↦ if t == 0 then none else some t ]

-- The times do not go back.
abbrev pub Ascends : {A : Type 0} → ℕ → List (ℕ × A) → Type 0
Ascends t [] = Unit
Ascends t ((now, c) ∷ cs) = (t ≤ now) × Ascends now cs

-- The time of the last of some events that follow a time.
abbrev pub end_time : {A : Type 0} → ℕ → List (ℕ × A) → ℕ
end_time t [] = t
end_time t ((u, x) ∷ xs) = end_time u xs

pub end_time_lem : {A : Type 0} (t : ℕ) (xs : List (ℕ × A)) → Ascends t xs → t ≤ end_time t xs
end_time_lem t [] h = omega arith
end_time_lem t ((u, x) ∷ xs) h = omega (arith, h.0, end_time_lem u xs h.1)

same_subst : (i k j : Text) → same i k ≡ true → same k j ≡ same i j
same_subst i k j h = ap (λ t. same t j) (sym (same_sound i k h))

not_both : (i k j : Text) → same i j ≡ true → same i k ≡ false → same k j ≡ false
not_both i k j g h = elim (Bool-cases (same k j)) [
  | inl b ↦
      let left = same_sound i j g in
      let right = same_sound k j b in
      let both : i ≡ k = left ∙ sym right in
      let fact : same k k ≡ false = subst (λ t. same t k ≡ false) both h in
      absurd cc (same_refl k, fact)
  | inr b ↦ b
]

pub lookup-insert :
    (k j : Text) (e : Entry) (s : LocalStore)
    → lookup j (insert k e s) ≡ (if same k j then some e else lookup j s)
unfolding lookup insert
lookup-insert k j e [] = refl
lookup-insert k j e ((i, f) ∷ s) = elim (Bool-cases (same i k)) [
  | inl h ↦ let agree : same k j ≡ same i j = same_subst i k j h in rw (h, agree) (ground arith)
  | inr h ↦ rw h (elim (Bool-cases (same i j)) [
    | inl g ↦ let apart : same k j ≡ false = not_both i k j g h in rw (apart, g) refl
    | inr g ↦ rw g (lookup-insert k j e s)
  ])
]

pub lookup-remove :
    (k j : Text) (s : LocalStore) → lookup j (remove k s) ≡ (if same k j then none else lookup j s)
unfolding lookup remove
lookup-remove k j [] = ground arith
lookup-remove k j ((i, f) ∷ s) = elim (Bool-cases (same i k)) [
  | inl h ↦
      let agree : same k j ≡ same i j = same_subst i k j h in
      rw (h, lookup-remove k j s, agree) (ground arith)
  | inr h ↦ rw h (elim (Bool-cases (same i j)) [
    | inl g ↦ let apart : same k j ≡ false = not_both i k j g h in rw (apart, g) refl
    | inr g ↦ rw g (lookup-remove k j s)
  ])
]

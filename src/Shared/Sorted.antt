-- ===== src/Shared/Sorted.antt =====
-- The first of the documents that pass a test, in an order, and an update of it by its identifier.
use Prim.Native.Nat.{ℕ}
use mathlib.Core.Path.{◌≡◌, refl, sym, ◌∙◌, subst, ap}
use mathlib.Core.Logic.{◌≢◌, ◌⊎◌, inl, inr}
use mathlib.Core.Bool.{Bool, true, false}
use mathlib.Core.Option.{Option, none, some}
use mathlib.Core.List.{List, [], ◌∷◌, ◌++◌}
use native.Mathlib.Omega.{arith}
use maintain_pro_backend.Shared.Tests.{◌==◌, if◌then◌else◌, Bool-cases}
use maintain_pro_backend.Shared.Lists.{find?, select, any, update_first, All, All-select, All-map2}
use maintain_pro_backend.Shared.Documents.{Distinct, Fresh, find?-head}
use maintain_pro_backend.Shared.{is_some, ◌||◌}

abbrev pub sooner : {D : Type 0} → (D → D → Bool) → D → Option D → D
sooner before d none = d
sooner before d (some e) = if before e d then e else d

-- The least document, and the first of those that tie.
unfoldable pub first_by : {D : Type 0} → (D → D → Bool) → List D → Option D
first_by before [] = none
first_by before (d ∷ ds) = some (sooner before d (first_by before ds))

-- `findOneAndUpdate` with `sort`.
abbrev pub update_found : {D : Type 0} → (D → ℕ) → (D → D) → List D → Option D → Option D × List D
update_found id f ds none = (none, ds)
update_found id f ds (some d) = (some (f d), update_first (λ x. id x == id d) f ds)

abbrev pub update_sorted :
    {D : Type 0} → (D → ℕ) → (D → Bool) → (D → D → Bool) → (D → D) → List D → Option D × List D
update_sorted id p before f ds = update_found id f ds (first_by before (select p ds))

module _ {D : Type 0} where
  sooner_lem {κ} :
      (P : D → Type κ) (before : D → D → Bool) (d : D) (o : Option D)
      → P d
      → ((e : D) → o ≡ some e → P e)
      → P (sooner before d o)
  sooner_lem P before d none h k = h
  sooner_lem P before d (some e) h k = elim (Bool-cases (before e d)) [
    | inl b ↦ rw b (k e refl)
    | inr b ↦ rw b h
  ]

  pub All-first_by {κ} :
      (P : D → Type κ) (before : D → D → Bool) (ds : List D) (d : D)
      → All P ds
      → first_by before ds ≡ some d
      → P d
  unfolding first_by
  All-first_by P before [] d a h = absurd cc
  All-first_by P before (x ∷ ds) d a h =
      let least : sooner before x (first_by before ds) ≡ d = cc in
      subst P least
        (sooner_lem P before x (first_by before ds) a.0 (λ e g. All-first_by P before ds e a.1 g))

  pub select-passes : (p : D → Bool) (ds : List D) → All (λ d. p d ≡ true) (select p ds)
  select-passes p [] = tt
  select-passes p (x ∷ ds) = elim (Bool-cases (p x)) [
    | inl e ↦ rw e (e, select-passes p ds)
    | inr e ↦ rw e (select-passes p ds)
  ]

  -- Where no document is the first, none passes the test.
  pub first_by-none :
      (p : D → Bool) (before : D → D → Bool) (ds : List D)
      → first_by before (select p ds) ≡ none
      → All (λ d. p d ≡ false) ds
  unfolding first_by
  first_by-none p before [] h = tt
  first_by-none p before (x ∷ ds) h = elim (Bool-cases (p x)) [
    | inl e ↦
        let no : some (sooner before x (first_by before (select p ds))) ≡ none = rw e at h in
        absurd cc
    | inr e ↦ (e, first_by-none p before ds (rw e at h))
  ]

  -- Two updates that meet the same document are one.
  pub update_first-twice :
      (p q : D → Bool) (f g : D → D) (ds : List D)
      → ((d : D) → p d ≡ true → q (f d) ≡ true)
      → ((d : D) → p d ≡ false → q d ≡ false)
      → update_first q g (update_first p f ds) ≡ update_first p (λ d. g (f d)) ds
  update_first-twice p q f g [] h k = refl
  update_first-twice p q f g (x ∷ ds) h k = elim (Bool-cases (p x)) [
    | inl e ↦ rw (e, h x e) refl
    | inr e ↦ rw (e, k x e) (ap (λ r. x ∷ r) (update_first-twice p q f g ds h k))
  ]

  -- A document that is found stays so if an update passes over it.
  pub find?-update_other :
      (q p : D → Bool) (f : D → D) (ds : List D) (e : D)
      → ((d : D) → q (f d) ≡ q d)
      → p e ≡ false
      → find? q ds ≡ some e
      → find? q (update_first p f ds) ≡ some e
  find?-update_other q p f [] e k n h = cc
  find?-update_other q p f (x ∷ ds) e k n h = elim (Bool-cases (q x)) [
    | inl b ↦
        let found : x ≡ e = find?-head q x ds e b h in
        let skipped : p x ≡ false = subst (λ y. p y ≡ false) (sym found) n in
        rw (skipped, b) (ap some found)
    | inr b ↦
        let rest = rw b at h in
        let image : q (f x) ≡ false = k x ∙ b in
        elim (Bool-cases (p x)) [
          | inl g ↦ rw (g, image) rest
          | inr g ↦ rw (g, b) (find?-update_other q p f ds e k n rest)
        ]
  ]

  module _ (id : D → ℕ) where
    Distinct-found :
        (ds : List D) → Distinct id ds → All (λ d. find? (λ x. id x == id d) ds ≡ some d) ds
    Distinct-found [] u = tt
    Distinct-found (x ∷ ds) u = (
      (ground arith),
      All-map2 (λ d. id d ≢ id x) (λ d. find? (λ y. id y == id d) ds ≡ some d)
          (λ d. find? (λ y. id y == id d) (x ∷ ds) ≡ some d) (λ d a b. ground (arith, a, b)) ds u.0
          (Distinct-found ds u.1),
    )

    -- The document that is chosen passes the test, and is the one with its identifier.
    pub chosen :
        (p : D → Bool) (before : D → D → Bool) (ds : List D) (d : D)
        → Distinct id ds
        → first_by before (select p ds) ≡ some d
        → (p d ≡ true) × (find? (λ x. id x == id d) ds ≡ some d)
    chosen p before ds d u h = (
      All-first_by (λ x. p x ≡ true) before (select p ds) d (select-passes p ds) h,
      All-first_by (λ e. find? (λ x. id x == id e) ds ≡ some e) before (select p ds) d
          (All-select p (λ e. find? (λ x. id x == id e) ds ≡ some e) ds (Distinct-found ds u)) h,
    )

  -- What the documents that pass the test keep, the whole collection keeps.
  pub All-update_passing {κ} :
      (P : D → Type κ) (p : D → Bool) (f : D → D) (ds : List D)
      → ((d : D) → p d ≡ true → P d → P (f d))
      → All P ds
      → All P (update_first p f ds)
  All-update_passing P p f [] k a = tt
  All-update_passing P p f (x ∷ ds) k a = elim (Bool-cases (p x)) [
    | inl e ↦ rw e (k x e a.0, a.1)
    | inr e ↦ rw e (a.0, All-update_passing P p f ds k a.1)
  ]

  pub find?-append_found :
      (p : D → Bool) (ds : List D) (d e : D) → find? p ds ≡ some e → find? p (ds ++ d ∷ []) ≡ some e
  find?-append_found p [] d e h = cc
  find?-append_found p (x ∷ ds) d e h = ground (arith, find?-append_found p ds d e)

  pub Fresh-any :
      (id : D → ℕ) (n : ℕ) (ds : List D) → any (λ d. id d == n) ds ≡ false → Fresh id n ds
  Fresh-any id n [] h = tt
  Fresh-any id n (x ∷ ds) h = elim (Bool-cases (id x == n)) [
    | inl e ↦ let no : true ≡ false = rw e at h in absurd cc
    | inr e ↦ ((ground arith), Fresh-any id n ds (rw e at h))
  ]

  -- After an update of the document with an identifier, what the update makes true holds of it.
  pub All-updated {κ} :
      (id : D → ℕ) (Q : D → Type κ) (n : ℕ) (f : D → D) (ds : List D)
      → Distinct id ds
      → ((d : D) → Q (f d))
      → All (λ d. id d ≡ n → Q d) (update_first (λ d. id d == n) f ds)
  All-updated id Q n f [] u k = tt
  All-updated id Q n f (x ∷ ds) u k = elim (Bool-cases (id x == n)) [
    | inl e ↦
        let same_id : id x ≡ n = ground arith in
        rw e (
          (λ _. k x),
          All-map2 (λ d. id d ≢ id x) (λ d. id d ≢ id x) (λ d. id d ≡ n → Q d)
              (λ d a b g. absurd (a (g ∙ sym same_id))) ds u.0 u.0,
        )
    | inr e ↦ rw e ((λ g. absurd (ground arith)), All-updated id Q n f ds u.1 k)
  ]

  pub any-update_first :
      (q p : D → Bool) (f : D → D) (ds : List D)
      → ((d : D) → q (f d) ≡ q d)
      → any q (update_first p f ds) ≡ any q ds
  any-update_first q p f [] k = refl
  any-update_first q p f (x ∷ ds) k = elim (Bool-cases (p x)) [
    | inl e ↦ rw (e, k x) refl
    | inr e ↦ rw (e, any-update_first q p f ds k) refl
  ]

  pub any-append : (q : D → Bool) (ds : List D) (d : D) → any q (ds ++ d ∷ []) ≡ (any q ds || q d)
  any-append q [] d = ground arith
  any-append q (x ∷ ds) d = ground (arith, any-append q ds d)

  pub any-none : (q : D → Bool) (ds : List D) → any q ds ≡ false → All (λ d. q d ≡ false) ds
  any-none q [] h = tt
  any-none q (x ∷ ds) h = elim (Bool-cases (q x)) [
    | inl e ↦ let no : true ≡ false = rw e at h in absurd cc
    | inr e ↦ (e, any-none q ds (rw e at h))
  ]

  pub find?-none : (p : D → Bool) (ds : List D) → All (λ d. p d ≡ false) ds → find? p ds ≡ none
  find?-none p [] a = refl
  find?-none p (x ∷ ds) a = rw a.0 (find?-none p ds a.1)

  -- At most one document passes, as under a unique index.
  abbrev pub IsSole : (D → Bool) → List D → Type 0
  IsSole q [] = Unit
  IsSole q (x ∷ ds) = (q x ≡ true → any q ds ≡ false) × IsSole q ds

  not_found :
      (p q : D → Bool) (ds : List D)
      → ((d : D) → p d ≡ true → q d ≡ true)
      → All (λ d. q d ≡ false) ds
      → is_some (find? p ds) ≡ true
      → ⊥
  not_found p q [] i a h = let no : false ≡ true = h in cc
  not_found p q (x ∷ ds) i a h = elim (Bool-cases (p x)) [
    | inl e ↦ let no : true ≡ false = sym (i x e) ∙ a.0 in cc
    | inr e ↦ not_found p q ds i a.1 (rw e at h)
  ]

  -- If that one is updated, what the update makes true holds of it.
  pub sole_updated {κ} :
      (Q : D → Type κ) (q p : D → Bool) (f : D → D) (ds : List D)
      → ((d : D) → p d ≡ true → q d ≡ true)
      → ((d : D) → Q (f d))
      → IsSole q ds
      → is_some (find? p ds) ≡ true
      → All (λ d. q d ≡ true → Q d) (update_first p f ds)
  sole_updated Q q p f [] i k u h = tt
  sole_updated Q q p f (x ∷ ds) i k u h = elim (Bool-cases (p x)) [
    | inl e ↦
        let rest = any-none q ds (u.0 (i x e)) in
        rw e (
          (λ _. k x),
          All-map2 (λ d. q d ≡ false) (λ d. q d ≡ false) (λ d. q d ≡ true → Q d)
              (λ d a b g. absurd (let no : true ≡ false = sym g ∙ a in cc)) ds rest rest,
        )
    | inr e ↦
        let found = rw e at h in
        rw e (
          (λ g. absurd (not_found p q ds i (any-none q ds (u.0 g)) found)),
          sole_updated Q q p f ds i k u.1 found,
        )
  ]

  pub any-found : (p : D → Bool) (ds : List D) → any p ds ≡ true → is_some (find? p ds) ≡ true
  any-found p [] h = absurd (let no : false ≡ true = h in cc)
  any-found p (x ∷ ds) h = elim (Bool-cases (p x)) [
    | inl e ↦ rw e refl
    | inr e ↦ rw e (any-found p ds (rw e at h))
  ]

  -- A document that is found is found after an update too, or its image is.
  pub find?-update_either :
      (q p : D → Bool) (f : D → D) (ds : List D) (e : D)
      → ((d : D) → q (f d) ≡ q d)
      → find? q ds ≡ some e
      → (find? q (update_first p f ds) ≡ some e) ⊎ (find? q (update_first p f ds) ≡ some (f e))
  find?-update_either q p f [] e k h = absurd (let no : none ≡ some e = h in cc)
  find?-update_either q p f (x ∷ ds) e k h = elim (Bool-cases (q x)) [
    | inl b ↦
        let found : x ≡ e = find?-head q x ds e b h in
        let image : q (f x) ≡ true = k x ∙ b in
        elim (Bool-cases (p x)) [
          | inl g ↦ rw (g, image) (inr (ap (λ y. some (f y)) found))
          | inr g ↦ rw (g, b) (inl (ap some found))
        ]
    | inr b ↦
        let rest = rw b at h in
        let image : q (f x) ≡ false = k x ∙ b in
        elim (Bool-cases (p x)) [
          | inl g ↦ rw (g, image) (inl rest)
          | inr g ↦ rw (g, b) (find?-update_either q p f ds e k rest)
        ]
  ]

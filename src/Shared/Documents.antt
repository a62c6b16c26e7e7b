-- ===== src/Shared/Documents.antt =====
-- Documents of a collection under an identifier, and sums over them.
use Prim.Native.Nat.{ℕ}
use mathlib.Core.Path.{◌≡◌, refl, sym, subst}
use mathlib.Core.Logic.{◌≢◌, inl, inr}
use mathlib.Core.Bool.{Bool, true, ◌&&◌}
use mathlib.Core.Option.{none, some}
use mathlib.Core.List.{List, [], ◌∷◌, ◌++◌}
use native.Mathlib.Omega.{arith}
use maintain_pro_backend.Shared.Tests.{◌==◌, if◌then◌else◌, Bool-cases}
use maintain_pro_backend.Shared.Lists.{find?, update_first, All}
use maintain_pro_backend.Shared.Int.{ℤ, pos, ◌+ℤ◌, int_laws}

pub find?-head :
    {D : Type 0} (p : D → Bool) (x : D) (ds : List D) (d : D)
    → p x ≡ true
    → find? p (x ∷ ds) ≡ some d
    → x ≡ d
find?-head p x ds d e h = ground arith

module _ {D : Type 0} (p : D → Bool) where
  pub find?-holds : (ds : List D) (d : D) → find? p ds ≡ some d → p d ≡ true
  find?-holds [] d h = cc
  find?-holds (x ∷ ds) d h = ground (arith, find?-holds ds d)

  pub find?-update_first :
      (f : D → D) (ds : List D) (d : D)
      → find? p ds ≡ some d
      → p (f d) ≡ true
      → find? p (update_first p f ds) ≡ some (f d)
  find?-update_first f [] d h k = cc
  find?-update_first f (x ∷ ds) d h k = ground (arith, find?-update_first f ds d)

  pub find?-append :
      (ds : List D) (d : D) → find? p ds ≡ none → p d ≡ true → find? p (ds ++ d ∷ []) ≡ some d
  find?-append [] d h k = ground arith
  find?-append (x ∷ ds) d h k = ground (arith, find?-append ds d)

  pub All-update_first {κ} :
      (P : D → Type κ) (f : D → D) (ds : List D) (d : D)
      → All P ds
      → find? p ds ≡ some d
      → (P d → P (f d))
      → All P (update_first p f ds)
  All-update_first P f [] d a h k = tt
  All-update_first P f (x ∷ ds) d a h k = elim (Bool-cases (p x)) [
    | inl e ↦
        let found : x ≡ d = find?-head p x ds d e h in
        rw e (subst (λ y. P (f y)) (sym found) (k (subst P found a.0)), a.1)
    | inr e ↦ rw e (a.0, All-update_first P f ds d a.1 (rw e at h) k)
  ]

  -- What holds of every document and is kept by a change holds after the change.
  pub All-update_every {κ} :
      (P : D → Type κ) (f : D → D) (ds : List D)
      → All P ds
      → ((d : D) → P d → P (f d))
      → All P (update_first p f ds)
  All-update_every P f [] a k = tt
  All-update_every P f (x ∷ ds) a k = elim (Bool-cases (p x)) [
    | inl e ↦ rw e (k x a.0, a.1)
    | inr e ↦ rw e (a.0, All-update_every P f ds a.1 k)
  ]

  -- What holds of every document holds of the one that is found.
  pub All-find? {κ} : (P : D → Type κ) (ds : List D) (d : D) → All P ds → find? p ds ≡ some d → P d
  All-find? P [] d a h = cc
  All-find? P (x ∷ ds) d a h = elim (Bool-cases (p x)) [
    | inl e ↦ subst P (find?-head p x ds d e h) a.0
    | inr e ↦ All-find? P ds d a.1 (rw e at h)
  ]

pub All-append {κ} :
    {D : Type 0} (P : D → Type κ) (ds : List D) (d : D) → All P ds → P d → All P (ds ++ d ∷ [])
All-append P [] d a h = (h, tt)
All-append P (x ∷ ds) d a h = (a.0, All-append P ds d a.1 h)

-- The sum of a weight over the documents.
unfoldable pub total : {D : Type 0} → (D → ℤ) → List D → ℤ
total w [] = pos 0
total w (d ∷ ds) = w d +ℤ total w ds

module _ {D : Type 0} (w : D → ℤ) where
  pub total-append : (ds : List D) (d : D) → total w (ds ++ d ∷ []) ≡ total w ds +ℤ w d
  unfolding total
  total-append [] d = omega int_laws
  total-append (x ∷ ds) d = rw (total-append ds d) (omega int_laws)

  pub total-update_first :
      (p : D → Bool) (f : D → D) (ds : List D) (d : D)
      → find? p ds ≡ some d
      → total w (update_first p f ds) +ℤ w d ≡ total w ds +ℤ w (f d)
  unfolding total
  total-update_first p f [] d h = cc
  total-update_first p f (x ∷ ds) d h = elim (Bool-cases (p x)) [
    | inl e ↦ let found : x ≡ d = find?-head p x ds d e h in rw (e, ← found) (omega int_laws)
    | inr e ↦ rw e (grind (int_laws, total-update_first p f ds d (rw e at h)))
  ]

module _ {D : Type 0} (id : D → ℕ) where
  -- No document has the identifier.
  abbrev pub Fresh : ℕ → List D → Type 0
  Fresh n ds = All (λ d. id d ≢ n) ds

  -- No two documents share an identifier.
  abbrev pub Distinct : List D → Type 0
  Distinct [] = Unit
  Distinct (d ∷ ds) = Fresh (id d) ds × Distinct ds

  -- The first document that passes a test is the one with its identifier.
  pub update_first-by_id :
      (p : D → Bool) (f : D → D) (ds : List D) (d : D)
      → Distinct ds
      → find? p ds ≡ some d
      → update_first (λ x. id x == id d) f ds ≡ update_first p f ds
  update_first-by_id p f [] d u h = refl
  update_first-by_id p f (x ∷ ds) d u h = elim (Bool-cases (p x)) [
    | inl e ↦ let found : x ≡ d = find?-head p x ds d e h in rw (e, ← found) (ground arith)
    | inr e ↦
        let rest = rw e at h in
        let apart : id d ≢ id x = All-find? p (λ y. id y ≢ id x) ds d u.0 rest in
        rw e (ground (arith, update_first-by_id p f ds d u.1 rest))
  ]

  pub find?-by_id :
      (p : D → Bool) (ds : List D) (d : D)
      → Distinct ds
      → find? p ds ≡ some d
      → find? (λ x. id x == id d) ds ≡ some d
  find?-by_id p [] d u h = cc
  find?-by_id p (x ∷ ds) d u h = elim (Bool-cases (p x)) [
    | inl e ↦ let found : x ≡ d = find?-head p x ds d e h in rw (← found) (ground arith)
    | inr e ↦
        let rest = rw e at h in
        let apart : id d ≢ id x = All-find? p (λ y. id y ≢ id x) ds d u.0 rest in
        ground (arith, find?-by_id p ds d u.1 rest)
  ]

  pub Distinct-update_first :
      (p : D → Bool) (f : D → D) (ds : List D)
      → ((d : D) → id (f d) ≡ id d)
      → Distinct ds
      → Distinct (update_first p f ds)
  Distinct-update_first p f [] k u = tt
  Distinct-update_first p f (x ∷ ds) k u = elim (Bool-cases (p x)) [
    | inl e ↦ rw (e, k x) u
    | inr e ↦ rw e (
      All-update_every p (λ y. id y ≢ id x) f ds u.0 (λ d a. rw (k d) a),
      Distinct-update_first p f ds k u.1,
    )
  ]

  pub Distinct-append :
      (ds : List D) (d : D) → Distinct ds → Fresh (id d) ds → Distinct (ds ++ d ∷ [])
  Distinct-append [] d u f = (tt, tt)
  Distinct-append (x ∷ ds) d u f =
      (All-append (λ y. id y ≢ id x) ds d u.0 (λ e. f.0 (sym e)), Distinct-append ds d u.1 f.1)

  absent-find? :
      (c : D → Bool) (n : ℕ) (ds : List D) → Fresh n ds → find? (λ x. id x == n && c x) ds ≡ none
  absent-find? c n [] f = refl
  absent-find? c n (x ∷ ds) f = ground (arith, f.0, absent-find? c n ds f.1)

  absent-update_first :
      (c : D → Bool) (f : D → D) (n : ℕ) (ds : List D)
      → Fresh n ds
      → update_first (λ x. id x == n && c x) f ds ≡ ds
  absent-update_first c f n [] a = refl
  absent-update_first c f n (x ∷ ds) a = ground (arith, a.0, absent-update_first c f n ds a.1)

  -- A filter on the identifier and a condition meets the one document or none.
  pub find?-by_id_and :
      (p c : D → Bool) (ds : List D) (d : D)
      → Distinct ds
      → find? p ds ≡ some d
      → find? (λ x. id x == id d && c x) ds ≡ (if c d then some d else none)
  find?-by_id_and p c [] d u h = cc
  find?-by_id_and p c (x ∷ ds) d u h = elim (Bool-cases (p x)) [
    | inl e ↦
        subst (λ y. find? (λ z. id z == id y && c z) (x ∷ ds) ≡ (if c y then some y else none))
          (find?-head p x ds d e h) (ground (arith, absent-find? c (id x) ds u.0))
    | inr e ↦
        let rest = rw e at h in
        let apart : id d ≢ id x = All-find? p (λ y. id y ≢ id x) ds d u.0 rest in
        ground (arith, find?-by_id_and p c ds d u.1 rest)
  ]

  pub update_first-by_id_and :
      (p c : D → Bool) (f : D → D) (ds : List D) (d : D)
      → Distinct ds
      → find? p ds ≡ some d
      → c d ≡ true
      → update_first (λ x. id x == id d && c x) f ds ≡ update_first p f ds
  update_first-by_id_and p c f [] d u h k = refl
  update_first-by_id_and p c f (x ∷ ds) d u h k = elim (Bool-cases (p x)) [
    | inl e ↦
        let found : x ≡ d = find?-head p x ds d e h in
        let k' = rw (← found) at k in rw (e, ← found) (ground arith)
    | inr e ↦
        let rest = rw e at h in
        let apart : id d ≢ id x = All-find? p (λ y. id y ≢ id x) ds d u.0 rest in
        rw e (ground (arith, update_first-by_id_and p c f ds d u.1 rest k))
  ]

-- An update that changes nothing.
pub update_first_same : {D : Type 0} (p : D → Bool) (ds : List D) → update_first p (λ d. d) ds ≡ ds
update_first_same p [] = refl
update_first_same p (x ∷ ds) = ground (arith, update_first_same p ds)

-- ===== src/Shared/Mongo.antt =====
-- The document database, which is not part of the repository: its operations are parameters, and
-- their documented behaviour is stated over the list of a collection's documents.
use maintain_pro_backend.Shared.Tests.{if◌then◌else◌}
use maintain_pro_backend.Shared.Lists.{find?, select, update_first, any}
use maintain_pro_backend.Shared.Sorted.{update_sorted}
use maintain_pro_backend.Shared.Outcome.{Result, ok, err}
use mathlib.Core.Path.{◌≡◌, refl}
use mathlib.Core.Bool.{Bool, not}
use mathlib.Core.Option
use mathlib.Core.Option.{Option, none, some}
use mathlib.Core.List.{List, [], ◌∷◌, ◌++◌}
use maintain_pro_backend.Shared.{ℕ}

-- What a rejected write throws: a failed schema validator, or a duplicate key (code 11000).
pub data WriteError : Type 0 where
  invalid_document duplicate_key : WriteError

-- A transaction's outcome: its writes are kept if the body returns, and dropped if it throws.
abbrev pub commit : {S E A : Type 0} → S → Result E (A × S) → Result E A × S
commit s (ok (a, s')) = (ok a, s')
commit s (err e) = (err e, s)

-- A write against the schema's validators and its unique indexes.
abbrev pub insert_checked :
    {D : Type 0} → Bool → (D → Bool) → D → List D → Result WriteError (List D)
insert_checked valid clashes d ds =
    if not valid
    then err invalid_document
    else if any clashes ds
    then err duplicate_key
    else ok (ds ++ d ∷ [])

-- `findOneAndUpdate` with `upsert`: the first match is updated, or else a new document is.
abbrev pub upsert_first : {D : Type 0} → (D → Bool) → (D → D) → D → List D → D × List D
upsert_first p f new ds = elim (find? p ds) [
  | none ↦ (f new, ds ++ f new ∷ [])
  | some d ↦ (f d, update_first p f ds)
]

pub record Mongo : Type 1 where
  pub find_one : {D : Type 0} → (D → Bool) → List D → Option D
  pub find : {D : Type 0} → (D → Bool) → List D → List D
  pub find_one_and_update : {D : Type 0} → (D → Bool) → (D → D) → List D → Option D × List D
  pub find_sorted_and_update :
      {D : Type 0} → (D → ℕ) → (D → Bool) → (D → D → Bool) → (D → D) → List D → Option D × List D
  pub find_one_and_upsert : {D : Type 0} → (D → Bool) → (D → D) → D → List D → D × List D
  pub create : {D : Type 0} → Bool → (D → Bool) → D → List D → Result WriteError (List D)
  pub with_transaction : {S E A : Type 0} → (S → Result E (A × S)) → S → Result E A × S
  pub find_one_lem : {D : Type 0} (p : D → Bool) (ds : List D) → find_one p ds ≡ find? p ds
  pub find_lem : {D : Type 0} (p : D → Bool) (ds : List D) → find p ds ≡ select p ds
  pub find_one_and_update_lem :
      {D : Type 0} (p : D → Bool) (f : D → D) (ds : List D)
      → find_one_and_update p f ds ≡ (Option.map f (find? p ds), update_first p f ds)
  pub find_sorted_and_update_lem :
      {D : Type 0} (id : D → ℕ) (p : D → Bool) (before : D → D → Bool) (f : D → D) (ds : List D)
      → find_sorted_and_update id p before f ds ≡ update_sorted id p before f ds
  pub find_one_and_upsert_lem :
      {D : Type 0} (p : D → Bool) (f : D → D) (new : D) (ds : List D)
      → find_one_and_upsert p f new ds ≡ upsert_first p f new ds
  pub create_lem :
      {D : Type 0} (valid : Bool) (clashes : D → Bool) (d : D) (ds : List D)
      → create valid clashes d ds ≡ insert_checked valid clashes d ds
  pub with_transaction_lem :
      {S E A : Type 0} (body : S → Result E (A × S)) (s : S)
      → with_transaction body s ≡ commit s (body s)

-- A database that behaves as documented.
abbrev pub documented : Mongo
documented = record {
  find_one = find?;
  find = select;
  find_one_and_update = λ p f ds. (Option.map f (find? p ds), update_first p f ds);
  find_sorted_and_update = update_sorted;
  find_one_and_upsert = upsert_first;
  create = insert_checked;
  with_transaction = λ body s. commit s (body s);
  find_one_lem = λ p ds. refl;
  find_lem = λ p ds. refl;
  find_one_and_update_lem = λ p f ds. refl;
  find_sorted_and_update_lem = λ id p before f ds. refl;
  find_one_and_upsert_lem = λ p f new ds. refl;
  create_lem = λ valid clashes d ds. refl;
  with_transaction_lem = λ body s. refl;
}

-- ===== src/Shared/Texts.antt =====
-- Texts that the program takes apart: lists of code points.
use Prim.Native.Char.{code}
use Prim.Native.String.{String}
use Prim.Native.Nat.{ℕ}
use mathlib.Core.Path.{◌≡◌, refl}
use mathlib.Core.Logic.{inl, inr}
use mathlib.Core.Bool.{Bool, true, false}
use mathlib.Core.List.{List, [], ◌∷◌, ◌++◌}
use native.Mathlib.Omega.{arith}
use maintain_pro_backend.Shared.Tests.{◌==◌, if◌then◌else◌, Bool-cases}

abbrev pub Text : Type 0
Text = List ℕ

abbrev pub codes : String → Text
codes String.[] = []
codes (String.◌∷◌ c s) = code c ∷ codes s

-- `left === right` on texts.
abbrev pub same : Text → Text → Bool
same [] [] = true
same (a ∷ s) (b ∷ t) = if a == b then same s t else false
same _ _ = false

pub same_refl : (s : Text) → same s s ≡ true
same_refl [] = refl
same_refl (a ∷ s) = ground (arith, same_refl s)

pub same_sound : (s t : Text) → same s t ≡ true → s ≡ t
same_sound [] [] h = refl
same_sound [] (b ∷ t) h = absurd cc
same_sound (a ∷ s) [] h = absurd cc
same_sound (a ∷ s) (b ∷ t) h = elim (Bool-cases (a == b)) [
  | inl e ↦ let heads : a ≡ b = ground arith in let tails = same_sound s t (rw e at h) in cc
  | inr e ↦ absurd (ground arith)
]

pub same-append : (p s t : Text) → same (p ++ s) (p ++ t) ≡ same s t
same-append [] s t = refl
same-append (a ∷ p) s t = ground (arith, same-append p s t)

-- `s.startsWith(p)`.
abbrev pub starts_with : Text → Text → Bool
starts_with s [] = true
starts_with [] (a ∷ p) = false
starts_with (b ∷ s) (a ∷ p) = if a == b then starts_with s p else false

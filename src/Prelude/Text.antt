-- ===== src/Prelude/Text.antt =====
-- Go strings as the list of their bytes.
use Prim.Native.Char.{code}
use Prim.Native.Nat.{ℕ}
use Prim.Native.String.{String}
use mathlib.Core.Bool.{Bool, true, false, ◌&&◌}
use mathlib.Core.Logic.{ite}
use mathlib.Core.List.{List, [], ◌∷◌}
use mathlib.Core.Path.{◌≡◌, refl, ap₂}
use golang_journey.Prelude.Tests.{◌==◌, if◌then◌else◌}
use golang_journey.Prelude.Lists.{drop, length}
use native.Mathlib.Decide.{ℕ_discrete}

abbrev pub Text : Type 0
Text = List ℕ

-- The bytes of an ASCII literal.
abbrev pub bytes : String → Text
bytes String.[] = []
bytes (String.◌∷◌ c s) = code c ∷ bytes s

both : {x y : ℕ} {xs ys : Text} → Dec (x ≡ y) → Dec (xs ≡ ys) → Dec (x ∷ xs ≡ y ∷ ys)
both (yes p) (yes q) = yes (ap₂ ◌∷◌ p q)
both (yes p) (no q) = no (λ e. q (cc))
both (no p) q = no (λ e. p (cc))

-- `s == t`
unfoldable pub Text-discrete : Discrete Text
unfolding both ℕ_discrete
Text-discrete [] [] = yes refl
Text-discrete [] (y ∷ ys) = no (λ e. cc)
Text-discrete (x ∷ xs) [] = no (λ e. cc)
Text-discrete (x ∷ xs) (y ∷ ys) = both (ℕ_discrete x y) (Text-discrete xs ys)

-- `s == t`, as a test.
abbrev pub same_text : Text → Text → Bool
same_text s t = ite (Text-discrete s t) true false

-- `strings.HasPrefix(s, p)`, and the test `len(s) >= len(p) && s[:len(p)] == p`.
unfoldable pub starts_with : Text → Text → Bool
starts_with [] s = true
starts_with (c ∷ p) [] = false
starts_with (c ∷ p) (d ∷ s) = (c == d) && starts_with p s

-- `strings.TrimPrefix(s, prefix)`
unfoldable pub trim_prefix : Text → Text → Text
trim_prefix prefix s = if starts_with prefix s then drop (length prefix) s else s

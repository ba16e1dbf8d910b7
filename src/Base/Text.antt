-- ===== src/Base/Text.antt =====
-- C strings as the lists of their bytes, without the closing NUL.
use Prim.Native.Nat.{ℕ}
use Prim.Native.String.{String}
use Prim.Native.Char.{code}
use mathlib.Core.Path.{◌≡◌, refl}
use mathlib.Core.Logic.{◌↔◌}
use mathlib.Core.Bool.{Bool, true, false, ◌&&◌}
use mathlib.Core.List.{List, [], ◌∷◌}
use native.Mathlib.Omega.{arith}
use ibv_bench.Base.Tests.{◌==◌}

abbrev pub Text : Type 0
Text = List ℕ

-- The code points of a text: its bytes, as the texts here are ASCII.
abbrev pub codes : String → Text
codes String.[] = []
codes (String.◌∷◌ c s) = code c ∷ codes s

-- `strcmp(a, b) == 0`
unfoldable pub text_eq : Text → Text → Bool
text_eq [] [] = true
text_eq (x ∷ xs) (y ∷ ys) = x == y && text_eq xs ys
text_eq _ _ = false

pub text_eq_iff : (a b : Text) → (text_eq a b ≡ true) ↔ (a ≡ b)
unfolding text_eq
text_eq_iff [] [] = (λ _. refl, λ _. refl)
text_eq_iff [] (y ∷ b) = (λ h. cc, λ h. cc)
text_eq_iff (x ∷ a) [] = (λ h. cc, λ h. cc)
text_eq_iff (x ∷ a) (y ∷ b) =
    (λ h. ground (arith, (text_eq_iff a b).0), λ h. ground (arith, (text_eq_iff a b).1))

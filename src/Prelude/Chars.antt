-- ===== src/Prelude/Chars.antt =====
-- C's strings: a `char` array up to its first NUL. The end of the list stands for a missing NUL.
use Prim.Native.Nat.{ℕ, zero, suc}
use Prim.Native.String.{String}
use Prim.Native.Char.{code}
use mathlib.Core.Path.{◌≡◌, refl}
use mathlib.Core.Bool.{Bool, true, false, ◌&&◌}
use mathlib.Core.List.{List, [], ◌∷◌}
use native.Mathlib.Omega.{arith}
use cvra_bootloader.Prelude.Tests.{◌==◌}

abbrev pub c_str : List ℕ → List ℕ
c_str [] = []
c_str (zero ∷ cs) = []
c_str (suc c ∷ cs) = suc c ∷ c_str cs

abbrev pub codes : String → List ℕ
codes String.[] = []
codes (String.◌∷◌ c s) = code c ∷ codes s

abbrev pub same : List ℕ → List ℕ → Bool
same [] [] = true
same [] (b ∷ bs) = false
same (a ∷ as') [] = false
same (a ∷ as') (b ∷ bs) = a == b && same as' bs

-- `strcmp(a, b) == 0`
abbrev pub strcmp_eq : List ℕ → List ℕ → Bool
strcmp_eq a b = same (c_str a) (c_str b)

pub same→eq : (as' bs : List ℕ) → same as' bs ≡ true → as' ≡ bs
same→eq [] [] h = refl
same→eq [] (b ∷ bs) h = absurd (ground arith)
same→eq (a ∷ as') [] h = absurd (ground arith)
same→eq (a ∷ as') (b ∷ bs) h = ground (arith, same→eq as' bs)

pub same_self : (as' : List ℕ) → same as' as' ≡ true
same_self [] = refl
same_self (a ∷ as') = ground (arith, same_self as')

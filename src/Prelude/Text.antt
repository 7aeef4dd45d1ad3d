-- ===== src/Prelude/Text.antt =====
-- The bytes of a text that is ASCII, as Kubernetes resource names are, and Go's slices of them.
use Prim.Native.Nat.{ℕ, zero, suc, ◌≤◌}
use Prim.Native.Char.{code}
use Prim.Native.String.{String}
use mathlib.Core.Path.{◌≡◌}
use mathlib.Core.Bool.{Bool, true, false}
use mathlib.Core.List.{List, [], ◌∷◌}
use native.Mathlib.Omega.{arith}
use gpuautoscaler.Prelude.Tests.{if◌then◌else◌, ◌==◌}
use gpuautoscaler.Prelude.Lists.{length}

abbrev pub bytes : String → List ℕ
bytes String.[] = []
bytes (String.◌∷◌ c s) = code c ∷ bytes s

-- `s[:n]`, where the text has that many bytes.
abbrev pub first : ℕ → List ℕ → List ℕ
first zero bs = []
first (suc n) [] = []
first (suc n) (b ∷ bs) = b ∷ first n bs

abbrev pub same_bytes : List ℕ → List ℕ → Bool
same_bytes [] [] = true
same_bytes (a ∷ as') (b ∷ bs) = let rest = same_bytes as' bs in if a == b then rest else false
same_bytes _ _ = false

pub length-first-le : (n : ℕ) (bs : List ℕ) → length (first n bs) ≤ n
length-first-le zero bs = omega arith
length-first-le (suc n) [] = omega arith
length-first-le (suc n) (b ∷ bs) = omega (arith, length-first-le n bs)

pub same_bytes-length : (xs ys : List ℕ) → same_bytes xs ys ≡ true → length xs ≡ length ys
same_bytes-length [] [] h = omega arith
same_bytes-length [] (y ∷ ys) h = cc
same_bytes-length (x ∷ xs) [] h = cc
same_bytes-length (x ∷ xs) (y ∷ ys) h = ground (arith, same_bytes-length xs ys)

-- ===== src/Prelude/Results.antt =====
-- What a Go function returns beside a value: an error, or nothing wrong.
use Prim.Native.String.{String}

-- An error of a call outside this code, one that `fmt.Errorf` made, and one that it wrapped by `%w`.
pub data Error : Type 0 where
  api : String → Error
  message : String → Error
  wrapped : String → Error → Error

pub data Result {ℓ} (A : Type ℓ) : Type ℓ where
  err : Error → Result A
  ok : A → Result A

-- `if err != nil { return nil, err }` behind each call.
infixl 5 ◌>>=◌
abbrev pub ◌>>=◌ {ℓ κ} : {A : Type ℓ} {B : Type κ} → Result A → (A → Result B) → Result B
call >>= rest = elim call [ err e ↦ err e | ok a ↦ rest a ]

-- `if err != nil { return fmt.Errorf("<text>: %w", err) }`
abbrev pub wrap_error {ℓ} : {A : Type ℓ} → String → Result A → Result A
wrap_error text (ok a) = ok a
wrap_error text (err e) = err (wrapped text e)

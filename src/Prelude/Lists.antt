-- ===== src/Prelude/Lists.antt =====
-- Lists measured and indexed by native numbers, and predicates on them by recursion.
use Prim.Native.Nat.{ℕ, zero, suc, ◌+◌, ◌≤◌}
use mathlib.Core.Path.{◌≡◌, refl, sym, subst, ◌∙◌}
use mathlib.Core.Logic.Or
use mathlib.Core.Logic.{◌⊎◌, inl, inr}
use mathlib.Core.List.Perm
use mathlib.Core.List.{
  Mem, Perm, not-mem-nil, mem-cons, mem-cons_self, mem-cons_of_mem, List, [], ◌∷◌, ◌++◌,
}
use mathlib.Core.Bool.{Bool, true, false, false≢true}
use mathlib.Core.Option.{Option, none, some, some-injective}
use native.Mathlib.Omega.{arith}
use gpuautoscaler.Prelude.Tests.{if◌then◌else◌, Bool-cases}

module _ {ℓ} {A : Type ℓ} where
  abbrev pub length : List A → ℕ
  length [] = 0
  length (x ∷ xs) = suc (length xs)

  abbrev pub get_elem? : List A → ℕ → Option A
  get_elem? [] i = none
  get_elem? (x ∷ xs) zero = some x
  get_elem? (x ∷ xs) (suc i) = get_elem? xs i

  abbrev pub drop : ℕ → List A → List A
  drop zero xs = xs
  drop (suc n) [] = []
  drop (suc n) (x ∷ xs) = drop n xs

  -- The elements that pass a test, in order.
  abbrev pub keep : (A → Bool) → List A → List A
  keep p [] = []
  keep p (x ∷ xs) = let rest = keep p xs in if p x then x ∷ rest else rest

  abbrev pub All {κ} : (A → Type κ) → List A → Type κ
  All P [] = Unit
  All P (x ∷ xs) = P x × All P xs

module _ {ℓ} {A : Type ℓ} where
  pub length-append : (xs ys : List A) → length (xs ++ ys) ≡ length xs + length ys
  length-append [] ys = omega arith
  length-append (x ∷ xs) ys = omega (arith, length-append xs ys)

  pub length-keep-le : (p : A → Bool) (xs : List A) → length (keep p xs) ≤ length xs
  length-keep-le p [] = omega arith
  length-keep-le p (x ∷ xs) = ground (arith, length-keep-le p xs)

  pub All-append {κ} : (P : A → Type κ) (xs ys : List A) → All P xs → All P ys → All P (xs ++ ys)
  All-append P [] ys _ q = q
  All-append P (x ∷ xs) ys (p, ps) q = (p, All-append P xs ys ps q)

  -- What holds along a list holds of an element in it, and along the list without the element.
  pub All-split {κ} :
      (P : A → Type κ) (before : List A) (x : A) (after : List A)
      → All P (before ++ x ∷ after)
      → P x × All P (before ++ after)
  All-split P [] x after (p, ps) = (p, ps)
  All-split P (y ∷ before) x after (p, ps) =
      let (q, qs) = All-split P before x after ps in (q, (p, qs))

  pub All-mono {κ μ} :
      {P : A → Type κ} {Q : A → Type μ} (xs : List A) → ((x : A) → P x → Q x) → All P xs → All Q xs
  All-mono [] f _ = tt
  All-mono (x ∷ xs) f (p, ps) = (f x p, All-mono xs f ps)

  -- What is kept passes the test and was there, and what holds of it holds of all that pass the test.
  pub keep-All : (p : A → Bool) (xs : List A) → All (λ x. p x ≡ true) (keep p xs)
  keep-All p [] = tt
  keep-All p (x ∷ xs) = elim (Bool-cases (p x)) [
    | inl kept ↦ rw kept (kept, keep-All p xs)
    | inr dropped ↦ rw dropped (keep-All p xs)
  ]

  pub keep-append : (p : A → Bool) (xs ys : List A) → keep p (xs ++ ys) ≡ keep p xs ++ keep p ys
  keep-append p [] ys = refl
  keep-append p (x ∷ xs) ys = elim (Bool-cases (p x)) [
    | inl kept ↦ rw (kept, keep-append p xs ys) refl
    | inr dropped ↦ rw (dropped, keep-append p xs ys) refl
  ]

  pub keep-none : (p : A → Bool) (xs : List A) → All (λ x. p x ≡ false) xs → keep p xs ≡ []
  keep-none p [] _ = refl
  keep-none p (x ∷ xs) (h, hs) = rw h (keep-none p xs hs)

  pub keep-all : (p : A → Bool) (xs : List A) → All (λ x. p x ≡ true) xs → keep p xs ≡ xs
  keep-all p [] _ = refl
  keep-all p (x ∷ xs) (h, hs) = rw (h, keep-all p xs hs) refl

  pub All-keep {κ} : (P : A → Type κ) (p : A → Bool) (xs : List A) → All P xs → All P (keep p xs)
  All-keep P p [] _ = tt
  All-keep P p (x ∷ xs) (h, hs) = elim (Bool-cases (p x)) [
    | inl kept ↦ rw kept (h, All-keep P p xs hs)
    | inr dropped ↦ rw dropped (All-keep P p xs hs)
  ]

  pub All-of_keep {κ} :
      (P : A → Type κ) (p : A → Bool) (xs : List A)
      → All P (keep p xs)
      → All (λ x. p x ≡ true → P x) xs
  All-of_keep P p [] _ = tt
  All-of_keep P p (x ∷ xs) h = elim (Bool-cases (p x)) [
    | inl kept ↦ let (q, qs) = rw kept at h in ((λ _. q), All-of_keep P p xs qs)
    | inr dropped ↦
        let qs = rw dropped at h in
        ((λ kept. absurd (false≢true (sym dropped ∙ kept))), All-of_keep P p xs qs)
  ]

  pub All-zip {κ μ ν} :
      {P : A → Type κ} {Q : A → Type μ} {R : A → Type ν} (xs : List A)
      → ((x : A) → P x → Q x → R x)
      → All P xs
      → All Q xs
      → All R xs
  All-zip [] f _ _ = tt
  All-zip (x ∷ xs) f (p, ps) (q, qs) = (f x p q, All-zip xs f ps qs)

  pub All-get {κ} :
      (P : A → Type κ) (xs : List A) (i : ℕ) (x : A) → All P xs → get_elem? xs i ≡ some x → P x
  All-get P [] i x h at = cc
  All-get P (y ∷ xs) zero x (p, h) at = subst P (some-injective _ _ at) p
  All-get P (y ∷ xs) (suc i) x (p, h) at = All-get P xs i x h at

  pub All-of_get {κ} :
      (P : A → Type κ) (xs : List A) → ((i : ℕ) (x : A) → get_elem? xs i ≡ some x → P x) → All P xs
  All-of_get P [] f = tt
  All-of_get P (x ∷ xs) f = (f 0 x refl, All-of_get P xs (λ i. f (suc i)))

  All-mem {κ} :
      (P : A → Type κ) (prop : (x : A) → IsProp (P x)) (xs : List A) (x : A)
      → All P xs
      → Mem x xs
      → P x
  All-mem P prop [] x h m = absurd (not-mem-nil m)
  All-mem P prop (y ∷ xs) x (p, h) m =
      Or.elim (prop x) (mem-cons.0 m) (λ e. subst P (sym e) p)
        (λ later. All-mem P prop xs x h later)

  All-of_mem {κ} : (P : A → Type κ) (xs : List A) → ((x : A) → Mem x xs → P x) → All P xs
  All-of_mem P [] f = tt
  All-of_mem P (x ∷ xs) f = (f x mem-cons_self, All-of_mem P xs (λ y m. f y (mem-cons_of_mem x m)))

  -- A predicate that holds along a list holds along its reorderings.
  pub All-perm {κ} :
      (P : A → Type κ) (prop : (x : A) → IsProp (P x)) {xs ys : List A}
      → Perm xs ys
      → All P xs
      → All P ys
  All-perm P prop {xs} {ys} same h =
      All-of_mem P ys (λ x m. All-mem P prop xs x h (Perm.subset (Perm.symm same) x m))

module _ {A : Type 0} where
  abbrev pub Any : (A → Type 0) → List A → Type 0
  Any P [] = ⊥
  Any P (x ∷ xs) = P x ⊎ Any P xs

  pub All-self : (xs : List A) → All (λ x. Any (λ y. y ≡ x) xs) xs
  All-self [] = tt
  All-self (x ∷ xs) = (inl refl, All-mono xs (λ y h. inr h) (All-self xs))

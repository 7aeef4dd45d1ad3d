-- ===== src/Prelude/Keys.antt =====
-- Keys that `fmt.Sprintf` puts together from texts with colons between them.
use Prim.Native.Char.{Char, code}
use Prim.Native.String.{String, ◌++◌}
use mathlib.Core.Path.{◌≡◌, refl, sym, ap, ◌∙◌}
use mathlib.Core.Logic.{◌≢◌, inl, inr}
use mathlib.Core.Bool.{Bool, true, false}
use gpuautoscaler.Prelude.Tests.{◌==◌, Bool-cases, if◌then◌else◌}
use text.Mathlib.TextLemmas.{nil-append, cons-append, head-eq_of_cons-eq, tail-eq_of_cons-eq}

abbrev separator : Char
separator = ":"

-- `fmt.Sprintf("%s:%s", a, b)`
abbrev pub colon : String → String → String
colon a b = a ++ (String.◌∷◌ separator b)

abbrev pub has_no_colon : String → Bool
has_no_colon String.[] = true
has_no_colon (String.◌∷◌ c s) =
    let rest = has_no_colon s in if code c == code separator then false else rest

abbrev pub NoColon : String → Type 0
NoColon s = has_no_colon s ≡ true

NoColon-cons : (c : Char) (s : String) → NoColon (String.◌∷◌ c s) → (c ≢ separator) × NoColon s
NoColon-cons c s h = elim (Bool-cases (code c == code separator)) [
  | inl same ↦ absurd (false≢true (simp same at h))
  | inr other ↦
      ((λ same. false≢true (sym other ∙ ap (λ d. code d == code separator) same)), simp other at h)
]
  where
    false≢true : false ≢ true
    false≢true e = cc

-- A key tells its first part when that has no colon.
pub colon_inj :
    (a a' b b' : String) → NoColon a → NoColon a' → colon a b ≡ colon a' b' → (a ≡ a') × (b ≡ b')
colon_inj String.[] String.[] b b' _ _ e =
    (refl, tail-eq_of_cons-eq (sym (nil-append _) ∙ e ∙ nil-append _))
colon_inj String.[] (String.◌∷◌ c s) b b' _ k e =
    let (other, _) = NoColon-cons c s k in
    absurd (other (sym (head-eq_of_cons-eq (sym (nil-append _) ∙ e ∙ cons-append c s _))))
colon_inj (String.◌∷◌ c s) String.[] b b' h _ e =
    let (other, _) = NoColon-cons c s h in
    absurd (other (head-eq_of_cons-eq (sym (cons-append c s _) ∙ e ∙ nil-append _)))
colon_inj (String.◌∷◌ c s) (String.◌∷◌ d t) b b' h k e =
    let both = sym (cons-append c s _) ∙ e ∙ cons-append d t _ in
    let (same, rest) =
      colon_inj s t b b' (NoColon-cons c s h).1 (NoColon-cons d t k).1 (tail-eq_of_cons-eq both) in
    let head = head-eq_of_cons-eq both in (cc, rest)

-- `fmt.Sprintf("%s/%s", a, b)`
abbrev pub slash : String → String → String
slash a b = a ++ (String.◌∷◌ "/" b)

-- ===== src/Prelude/Maps.antt =====
-- Go's `map[string]V`: nil, or entries by key. Reading a nil map finds nothing, deleting from it does
-- nothing, and writing to it panics.
use Prim.Native.String.{String}
use mathlib.Core.Path.{◌≡◌, refl}
use mathlib.Core.Option.{Option, none, some}
use mathlib.Core.List.{List, [], ◌∷◌}
use native.Mathlib.Omega.{arith}
use text.Mathlib.Text.{◌==◌ as str_eq}
use text.Mathlib.TextEquality.{eq_iff}
use gpuautoscaler.Prelude.Tests.{if◌then◌else◌}

pub record Entry {ℓ} (V : Type ℓ) : Type ℓ where
  pub key : String
  pub value : V

abbrev pub Entries {ℓ} : Type ℓ → Type ℓ
Entries V = List (Entry V)

abbrev pub entry {ℓ} : {V : Type ℓ} → String → V → Entry V
entry k v = record { key = k; value = v }

module _ {ℓ} {V : Type ℓ} where
  unfoldable pub lookup : Entries V → String → Option V
  lookup [] k = none
  lookup (e ∷ es) k = if str_eq k e.key then some e.value else lookup es k

  -- The entry with the key is overwritten where it stands; a new one goes to the end.
  unfoldable pub insert : Entries V → String → V → Entries V
  insert [] k v = entry k v ∷ []
  insert (e ∷ es) k v =
      let later = insert es k v in if str_eq k e.key then entry k v ∷ es else e ∷ later

  unfoldable pub delete : Entries V → String → Entries V
  delete [] k = []
  delete (e ∷ es) k = let kept = delete es k in if str_eq k e.key then kept else e ∷ kept

  pub lookup-insert :
      (es : Entries V) (k : String) (v : V) (q : String)
      → lookup (insert es k v) q ≡ (if str_eq q k then some v else lookup es q)
  unfolding insert lookup
  lookup-insert [] k v q = refl
  lookup-insert (e ∷ es) k v q =
      let ih = lookup-insert es k v q in
      ground (arith, ih, eq_iff k e.key, eq_iff q e.key, eq_iff q k)

  pub lookup-delete :
      (es : Entries V) (k q : String)
      → lookup (delete es k) q ≡ (if str_eq q k then none else lookup es q)
  unfolding delete lookup
  lookup-delete [] k q = ground arith
  lookup-delete (e ∷ es) k q =
      let ih = lookup-delete es k q in
      ground (arith, ih, eq_iff k e.key, eq_iff q e.key, eq_iff q k)

abbrev pub GoMap {ℓ} : Type ℓ → Type ℓ
GoMap V = Option (Entries V)

module _ {ℓ} {V : Type ℓ} where
  abbrev pub map_get : String → GoMap V → Option V
  map_get k none = none
  map_get k (some m) = lookup m k

  abbrev pub map_delete : String → GoMap V → GoMap V
  map_delete k none = none
  map_delete k (some m) = some (delete m k)

  -- `none` is the panic.
  abbrev pub map_set : String → V → GoMap V → Option (GoMap V)
  map_set k v none = none
  map_set k v (some m) = some (some (insert m k v))

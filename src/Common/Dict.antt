-- ===== src/Common/Dict.antt =====
-- `Map<string, V>` and `Set<string>`: entries in insertion order, a key once.
use Prim.Native.String.{String}
use mathlib.Core.Path.{◌≡◌, refl}
use mathlib.Core.Bool.{Bool, true, false}
use mathlib.Core.List.{List, [], ◌∷◌}
use mathlib.Core.Option.{Option, none, some}
use native.Mathlib.Omega.{arith}
use text.Mathlib.Text.{◌==◌}
use text.Mathlib.TextEquality.{eq_iff}
use testring.Common.Tests.{if◌then◌else◌}

abbrev pub Dict {ℓ} : Type ℓ → Type ℓ
Dict V = List (String × V)

module _ {ℓ} {V : Type ℓ} where
  unfoldable pub get : String → Dict V → Option V
  get k [] = none
  get k ((j, v) ∷ m) = if j == k then some v else get k m

  -- A key that is there keeps its place.
  unfoldable pub set : String → V → Dict V → Dict V
  set k v [] = (k, v) ∷ []
  set k v ((j, w) ∷ m) = if j == k then (j, v) ∷ m else (j, w) ∷ set k v m

  unfoldable pub delete : String → Dict V → Dict V
  delete k [] = []
  delete k ((j, w) ∷ m) = if j == k then delete k m else (j, w) ∷ delete k m

  abbrev pub is_some : Option V → Bool
  is_some none = false
  is_some (some v) = true

  abbrev pub keys : Dict V → List String
  keys [] = []
  keys ((k, v) ∷ m) = k ∷ keys m

  abbrev pub values : Dict V → List V
  values [] = []
  values ((k, v) ∷ m) = v ∷ values m

  -- No key occurs twice.
  abbrev pub IsUnique : Dict V → Type ℓ
  IsUnique [] = Unit
  IsUnique ((k, v) ∷ m) = (get k m ≡ none) × IsUnique m

module _ {ℓ} {V : Type ℓ} where
  pub get-set :
      (k j : String) (v : V) (m : Dict V) → get j (set k v m) ≡ (if k == j then some v else get j m)
  unfolding get set
  get-set k j v [] = refl
  get-set k j v ((i, w) ∷ m) = ground (arith, eq_iff k j, eq_iff i k, eq_iff i j, get-set k j v m)

  pub get-delete :
      (k j : String) (m : Dict V) → get j (delete k m) ≡ (if k == j then none else get j m)
  unfolding get delete
  get-delete k j [] = ground arith
  get-delete k j ((i, w) ∷ m) = ground (arith, eq_iff k j, eq_iff i k, eq_iff i j, get-delete k j m)

  pub set-IsUnique : (k : String) (v : V) (m : Dict V) → IsUnique m → IsUnique (set k v m)
  unfolding get set
  set-IsUnique k v [] u = (refl, tt)
  set-IsUnique k v ((i, w) ∷ m) (h, u) =
      ground (arith, eq_iff i k, eq_iff k i, get-set k i v m, set-IsUnique k v m u)

  pub delete-IsUnique : (k : String) (m : Dict V) → IsUnique m → IsUnique (delete k m)
  unfolding delete
  delete-IsUnique k [] u = tt
  delete-IsUnique k ((i, w) ∷ m) (h, u) =
      ground (arith, eq_iff k i, get-delete k i m, delete-IsUnique k m u)

  pub delete_fresh : (k : String) (m : Dict V) → get k m ≡ none → delete k m ≡ m
  unfolding get delete
  delete_fresh k [] h = refl
  delete_fresh k ((i, w) ∷ m) h = ground (arith, delete_fresh k m)

-- `Set<string>`.
unfoldable pub has : String → List String → Bool
has k [] = false
has k (j ∷ s) = if j == k then true else has k s

unfoldable pub add : String → List String → List String
add k [] = k ∷ []
add k (j ∷ s) = if j == k then j ∷ s else j ∷ add k s

unfoldable pub remove : String → List String → List String
remove k [] = []
remove k (j ∷ s) = if j == k then remove k s else j ∷ remove k s

pub has-add :
    (k j : String) (s : List String) → has j (add k s) ≡ (if k == j then true else has j s)
unfolding has add
has-add k j [] = refl
has-add k j (i ∷ s) = ground (arith, eq_iff k j, eq_iff i k, eq_iff i j, has-add k j s)

pub has-remove :
    (k j : String) (s : List String) → has j (remove k s) ≡ (if k == j then false else has j s)
unfolding has remove
has-remove k j [] = ground arith
has-remove k j (i ∷ s) = ground (arith, eq_iff k j, eq_iff i k, eq_iff i j, has-remove k j s)

-- ===== src/Stack.antt =====
-- core/utils/src/stack.ts, the class `Stack`. The list holds the array from its end, so the element
-- that was pushed last comes first.
use testring.Common.{ℕ, Option, none, some, List, [], ◌∷◌, get_elem?, length}

module _ {ℓ} {A : Type ℓ} where
  abbrev from_end : List A → List A → List A
  from_end [] done = done
  from_end (x ∷ xs) done = from_end xs (x ∷ done)

  unfoldable pub create : Option (List A) → List A
  create none = []
  create (some initial_array) = from_end initial_array []

  abbrev pub push : A → List A → List A
  push element stack = element ∷ stack

  abbrev pub pop : List A → Option A × List A
  pop [] = (none, [])
  pop (x ∷ xs) = (some x, xs)

  abbrev pub clean : List A → List A
  clean stack = []

  abbrev pub get_last_element : ℕ → List A → Option A
  get_last_element offset stack = get_elem? stack offset

  abbrev pub size : List A → ℕ
  size stack = length stack

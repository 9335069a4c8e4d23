-- ===== src/Queue.antt =====
-- core/utils/src/queue.ts, the class `Queue`.
pub mod Laws
mod Tests
use testring.Common.{
  ℕ, ◌+◌, ◌-◌, Bool, not, Option, none, some, List, [], ◌∷◌, ◌++◌, length, get_elem?, if◌then◌else◌,
}

pub record Queue {ℓ} (A : Type ℓ) : Type ℓ where
  pub array : List A

module _ {ℓ} {A : Type ℓ} where
  unfoldable pub create : Option (List A) → Queue A
  create none = record { array = [] }
  create (some initial) = record { array = initial }

  unfoldable pub push : List A → Queue A → Queue A
  push elements q = record { array = q.array ++ elements }

  shift_array : List A → Option A × Queue A
  shift_array [] = (none, record { array = [] })
  shift_array (x ∷ xs) = (some x, record { array = xs })

  unfoldable pub shift : Queue A → Option A × Queue A
  unfolding shift_array
  shift q = shift_array q.array

  unfoldable pub clean : Queue A → Queue A
  clean q = record { array = [] }

  -- `array.filter`, whose callback takes the item and its index.
  pub filter_from : ℕ → (A → ℕ → Bool) → List A → List A
  filter_from i fn [] = []
  filter_from i fn (x ∷ xs) =
      if fn x i then x ∷ filter_from (i + 1) fn xs else filter_from (i + 1) fn xs

  unfoldable pub remove : (A → ℕ → Bool) → Queue A → ℕ × Queue A
  unfolding filter_from
  remove fn q =
      let rest = filter_from 0 (λ item index. not (fn item index)) q.array in
      (length q.array - length rest, record { array = rest })

  -- The loop of `extract`, with its two result arrays.
  extract_from : ℕ → (A → ℕ → Bool) → List A → List A → List A → List A × List A
  extract_from i fn result rest [] = (result, rest)
  extract_from i fn result rest (x ∷ xs) =
      let found = extract_from (i + 1) fn (result ++ x ∷ []) rest xs in
      let other = extract_from (i + 1) fn result (rest ++ x ∷ []) xs in
      if fn x i then found else other

  unfoldable pub extract : (A → ℕ → Bool) → Queue A → List A × Queue A
  unfolding extract_from
  extract fn q =
      let (result, rest) = extract_from 0 fn [] [] q.array in (result, record { array = rest })

  pub get_first_element : ℕ → Queue A → Option A
  get_first_element offset q = get_elem? q.array offset

  unfoldable pub size : Queue A → ℕ
  size q = length q.array

-- ===== src/Queue/Tests.antt =====
-- core/utils/src/queue.ts on small queues.
use mathlib.Core.List.{Perm}
use testring.Common.{ℕ, ◌≡◌, refl, Bool, none, some, [], ◌∷◌, ◌++◌, length, ltb, nat_eq, ◌||◌}
use testring.Queue.{Queue, create, push, shift, clean, remove, extract, get_first_element}
use testring.Queue.Laws.{extract-perm}

abbrev three : Queue ℕ
three = record { array = 7 ∷ 1 ∷ 9 ∷ [] }

abbrev large : ℕ → ℕ → Bool
large item index = ltb 5 item || nat_eq index 5

all_operations :
    (create (some (7 ∷ 1 ∷ 9 ∷ [])) ≡ three)
    × (shift (push (2 ∷ []) three) ≡ (some 7, record { array = 1 ∷ 9 ∷ 2 ∷ [] }))
    × (shift (clean three) ≡ (none, record { array = [] }))
    × (remove large three ≡ (2, record { array = 1 ∷ [] }))
    × (extract large three ≡ (7 ∷ 9 ∷ [], record { array = 1 ∷ [] }))
    × (get_first_element 3 three ≡ none)
    × (get_first_element 1 three ≡ some 1)
unfolding create push shift clean remove extract get_first_element
all_operations = (refl, refl, refl, refl, refl, refl, refl)

extract-perm_example :
    Perm three.array ((extract large three).0 ++ (extract large three).1.array)
    × (remove large three ≡ (length (extract large three).0, (extract large three).1))
extract-perm_example = extract-perm large three

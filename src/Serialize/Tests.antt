-- ===== src/Serialize/Tests.antt =====
-- core/transport/src/serialize on small stores.
use testring.Common.{◌≡◌, refl, some, none, [], ◌∷◌}
use testring.Serialize.{
  atom, ref, Struct, Store, Serial, inner_serialize, serialize, serialize_items, serialize_entries,
  serialize_struct, Tree, Trees, Fields, deserialize, error_constructor, number, cons, nil, entry,
  end, exotic, undefined,
}
use testring.Serialize.Termination.{serialize_total}
use testring.Serialize.RoundTrip.{
  Denotes, DenotesStruct, DenotesItems, DenotesEntries, deserialize-serialize,
}
use testring.Serialize.Sharing.{circular}

serializer : Unit {0}
unfolding serialize inner_serialize serialize_struct serialize_items serialize_entries deserialize
    error_constructor
serializer = tt

-- An object with a date and an array of numbers.
abbrev plain_store : Store
plain_store =
    Struct.object (("when", ref 1) ∷ ("what", ref 2) ∷ [])
    ∷ Struct.date 7
    ∷ Struct.array (atom (number 1) ∷ atom (number 2) ∷ [])
    ∷ Struct.error "AssertionError" "no" none
    ∷ []

abbrev plain_tree : Tree
plain_tree = Tree.object (
    Fields.field "when" (Tree.date 7) (
      Fields.field "what"
        (Tree.array
          (Trees.cons (Tree.plain (number 1)) (Trees.cons (Tree.plain (number 2)) Trees.nil)))
        Fields.end))

-- An array that holds itself, and one that holds a date twice.
abbrev cyclic_store : Store
cyclic_store =
    Struct.array (ref 0 ∷ atom (number 3) ∷ [])
    ∷ Struct.array (ref 2 ∷ ref 2 ∷ [])
    ∷ Struct.date 5
    ∷ exotic
    ∷ []

runs :
    (serialize plain_store (ref 0)
      ≡ some (
          Serial.object (
            entry "when" (Serial.date 7) (
              entry "what"
                (Serial.array (cons (Serial.plain (number 1)) (cons (Serial.plain (number 2)) nil)))
                end))))
    × (serialize cyclic_store (ref 0)
        ≡ some (Serial.array (cons circular (cons (Serial.plain (number 3)) nil))))
    × (serialize cyclic_store (ref 3) ≡ some (Serial.plain undefined))
    × (deserialize (Serial.error "AssertionError" "no" none) ≡ Tree.error "Error" "no" none)
    × (deserialize (Serial.unknown "$x") ≡ Tree.unknown "$x")
unfolding serializer
runs = (refl, refl, refl, refl, refl)

serialize_total_example : (s : Serial) × (serialize cyclic_store (ref 0) ≡ some s)
serialize_total_example = serialize_total cyclic_store (ref 0)

plain-Denotes : Denotes plain_store (ref 0) [] plain_tree (2 ∷ 1 ∷ 0 ∷ [])
plain-Denotes = Denotes.object_at refl refl (
    DenotesStruct.object (
      DenotesEntries.field (Denotes.object_at refl refl DenotesStruct.date) (
        DenotesEntries.field
          (Denotes.object_at refl refl (
            DenotesStruct.array (
              DenotesItems.item Denotes.plain
                (DenotesItems.item Denotes.plain DenotesItems.no_items))))
          DenotesEntries.no_fields)))

deserialize-serialize_example :
    (s : Serial) × (serialize plain_store (ref 0) ≡ some s) × (deserialize s ≡ plain_tree)
deserialize-serialize_example = deserialize-serialize plain_store (ref 0) plain-Denotes

-- ===== src/Serialize/Sharing.antt =====
-- core/transport/src/serialize/index.ts: objects that occur twice.
use testring.Common.{
  ℕ, zero, suc, ◌<◌, ◌≡◌, refl, true, some, [], ◌∷◌, get_elem?, length, arith, Bool-cases,
  Option-cases, inl, inr,
}
use testring.Serialize.{
  undefined, ref, Struct, Store, Serial, Seen, has, inner_serialize, serialize, serialize_items,
  serialize_struct, string, cons, nil,
}
use testring.Serialize.Termination.{
  struct-Returns, room, room_new, room-nil, get_elem?-some, inner_serialize-Returns,
}

-- What is put in the place of an object that was met before.
abbrev pub circular : Serial
circular = Serial.plain (string "(Circular)")

has_self : (i : ℕ) (seen : Seen) → has i (i ∷ seen) ≡ true
has_self i seen = ground arith

-- Once an object is met, and for all that comes after, it is sent as "(Circular)".
inner_serialize_met :
    (fuel : ℕ) (store : Store) (i : ℕ) (seen : Seen)
    → has i seen ≡ true
    → inner_serialize (suc fuel) store (ref i) seen ≡ some (circular, seen)
unfolding inner_serialize
inner_serialize_met fuel store i seen m = rw m

inner_serialize_meets :
    (fuel : ℕ) (store : Store) (i : ℕ) (seen : Seen)
    → room (length store) seen < suc fuel
    → (s : Serial) × (seen' : Seen) × (inner_serialize (suc fuel) store (ref i) seen
        ≡ some (s, seen'))
      × (has i seen' ≡ true)
unfolding inner_serialize serialize_struct
inner_serialize_meets fuel store i seen h = elim (Bool-cases (has i seen)) [
  | inl met ↦ (circular, seen, rw met, met)
  | inr new ↦ elim (Option-cases (get_elem? store i)) [
    | inl absent ↦ (Serial.plain undefined, i ∷ seen, rw (new, absent), has_self i seen)
    | inr (x, present) ↦
        let less = room_new (length store) i seen (get_elem?-some store i present) new in
        let (s, seen', e, le, ext) =
          struct-Returns (length store) fuel (inner_serialize fuel store)
            (inner_serialize-Returns fuel store) (get_elem? store i) (i ∷ seen) (omega arith) in
        (s, seen', rw new e, ext i (has_self i seen))
  ]
]

twice :
    (fuel : ℕ) (store : Store) (j : ℕ) (seen : Seen)
    → room (length store) seen < fuel
    → (s : Serial) × (seen' : Seen) × (serialize_items
          (inner_serialize fuel store)
          (ref j ∷ ref j ∷ [])
          seen
        ≡ some (cons s (cons circular nil), seen'))
unfolding serialize_items
twice zero store j seen h = elim h [ ]
twice (suc fuel) store j seen h =
    let (s, seen', e, met) = inner_serialize_meets fuel store j seen h in
    (s, seen', rw (e, inner_serialize_met fuel store j seen' met))

-- Sharing is lost, also where there is no cycle: in an array that holds an object twice, whatever
-- the object is, the second place is sent as the text "(Circular)".
serialize_shared :
    (store : Store) (i j : ℕ)
    → get_elem? store i ≡ some (Struct.array (ref j ∷ ref j ∷ []))
    → (s : Serial) × (serialize store (ref i) ≡ some (Serial.array (cons s (cons circular nil))))
unfolding serialize inner_serialize serialize_struct
serialize_shared store i j e =
    let (s, seen, e') = twice (length store) store j (i ∷ []) top in (s, rw (e, e'))
  where
    top : room (length store) (i ∷ []) < length store
    top = omega (
      arith,
      room_new (length store) i [] (get_elem?-some store i e) refl,
      room-nil (length store),
    )

-- ===== src/Serialize/Termination.antt =====
-- core/transport/src/serialize/index.ts: `serialize` on values that may be cyclic.
use testring.Common.{
  ℕ, zero, suc, ◌+◌, ◌≤◌, ◌<◌, ◌≡◌, refl, ap, inl, inr, true, false, Option, none, some, String,
  List, [], ◌∷◌, get_elem?, length, nat_eq, if◌then◌else◌, arith, Bool-cases, Option-cases,
}
use testring.Serialize.{
  cons, entry, end, nil, undefined, Value, atom, ref, Struct, Store, Serial, Seen, has, Inner,
  serialize_items, serialize_entries, serialize_struct, inner_serialize, serialize, plain, error,
  buffer, date, array, object, function, exotic, string, pack_array, pack_object, sent,
}

-- How many of the first `n` objects have not been met.
abbrev pub room : ℕ → Seen → ℕ
room zero seen = 0
room (suc n) seen = (if has n seen then 0 else 1) + room n seen

room_le : (n i : ℕ) (seen : Seen) → room n (i ∷ seen) ≤ room n seen
room_le zero i seen = omega arith
room_le (suc n) i seen = ground (arith, room_le n i seen)

-- Meeting a new object leaves one less.
pub room_new :
    (n i : ℕ) (seen : Seen) → i < n → has i seen ≡ false → room n (i ∷ seen) < room n seen
room_new zero i seen h new = elim h [ ]
room_new (suc n) i seen h new = elim (Bool-cases (nat_eq i n)) [
  | inl e ↦ ground (arith, room_le n i seen)
  | inr e ↦ ground (arith, room_new n i seen)
]

pub get_elem?-some {ℓ} :
    {A : Type ℓ} (xs : List A) (i : ℕ) {x : A} → get_elem? xs i ≡ some x → i < length xs
get_elem?-some [] i h = cc
get_elem?-some (y ∷ xs) zero h = omega arith
get_elem?-some (y ∷ xs) (suc i) h = omega (arith, get_elem?-some xs i h)

pub room-nil : (n : ℕ) → room n [] ≡ n
room-nil zero = refl
room-nil (suc n) = omega (arith, room-nil n)

-- An object that was met stays met.
abbrev pub Extends : Seen → Seen → Type 0
Extends seen seen' = (i : ℕ) → has i seen ≡ true → has i seen' ≡ true

-- There is a result, and what was met before stays met.
abbrev pub Returns {ℓ} : {R : Type ℓ} → ℕ → Seen → Option (R × Seen) → Type ℓ
Returns {R = R} n seen o =
    (r : R) × (seen' : Seen) × (o ≡ some (r, seen'))
    × (room n seen' ≤ room n seen)
    × Extends seen seen'

module _ (n bound : ℕ) (inner : Inner)
    (run : (v : Value) (seen : Seen) → room n seen < bound → Returns n seen (inner v seen)) where
  items-Returns :
      (vs : List Value) (seen : Seen)
      → room n seen < bound
      → Returns n seen (serialize_items inner vs seen)
  unfolding serialize_items
  items-Returns [] seen h = (nil, seen, refl, omega arith, λ i m. m)
  items-Returns (v ∷ vs) seen h =
      let (s, seen', e, le, ext) = run v seen h in
      let (ss, seen'', e', le', ext') = items-Returns vs seen' (omega arith) in
      (cons s ss, seen'', rw (e, e'), omega arith, λ i m. ext' i (ext i m))

  entries-Returns :
      (es : List (String × Value)) (seen : Seen)
      → room n seen < bound
      → Returns n seen (serialize_entries inner es seen)
  unfolding serialize_entries
  entries-Returns [] seen h = (end, seen, refl, omega arith, λ i m. m)
  entries-Returns ((k, v) ∷ es) seen h =
      let (s, seen', e, le, ext) = run v seen h in
      let (d, seen'', e', le', ext') = entries-Returns es seen' (omega arith) in
      (entry k s d, seen'', rw (e, e'), omega arith, λ i m. ext' i (ext i m))

  pub struct-Returns :
      (o : Option Struct) (seen : Seen)
      → room n seen < bound
      → Returns n seen (serialize_struct inner o seen)
  unfolding serialize_struct
  struct-Returns none seen h = (plain undefined, seen, refl, omega arith, λ i m. m)
  struct-Returns (some (error name message stack)) seen h =
      (Serial.error name message stack, seen, refl, omega arith, λ i m. m)
  struct-Returns (some (buffer text)) seen h =
      (Serial.buffer text, seen, refl, omega arith, λ i m. m)
  struct-Returns (some (date time)) seen h = (Serial.date time, seen, refl, omega arith, λ i m. m)
  struct-Returns (some (array vs)) seen h =
      let (ss, seen', e, le, ext) = items-Returns vs seen h in
      (Serial.array ss, seen', ap pack_array e, le, ext)
  struct-Returns (some (object es)) seen h =
      let (d, seen', e, le, ext) = entries-Returns es seen h in
      (Serial.object d, seen', ap pack_object e, le, ext)
  struct-Returns (some (function body arguments)) seen h =
      (Serial.function body arguments, seen, refl, omega arith, λ i m. m)
  struct-Returns (some exotic) seen h = (plain undefined, seen, refl, omega arith, λ i m. m)

-- With more fuel than there are objects still to be met there is a result.
pub inner_serialize-Returns :
    (fuel : ℕ) (store : Store) (v : Value) (seen : Seen)
    → room (length store) seen < fuel
    → Returns (length store) seen (inner_serialize fuel store v seen)
unfolding inner_serialize serialize_struct
inner_serialize-Returns zero store v seen h = elim h [ ]
inner_serialize-Returns (suc fuel) store (atom a) seen h =
    (plain a, seen, refl, omega arith, λ i m. m)
inner_serialize-Returns (suc fuel) store (ref i) seen h = elim (Bool-cases (has i seen)) [
  | inl met ↦ (plain (string "(Circular)"), seen, rw met, omega arith, λ j m. m)
  | inr new ↦ elim (Option-cases (get_elem? store i)) [
    | inl absent ↦
        (plain undefined, i ∷ seen, rw (new, absent), room_le _ i seen, λ j m. ground arith)
    | inr (x, present) ↦
        let less = room_new (length store) i seen (get_elem?-some store i present) new in
        let (s, seen', e, le, ext) =
          struct-Returns (length store) fuel (inner_serialize fuel store)
            (inner_serialize-Returns fuel store) (get_elem? store i) (i ∷ seen) (omega arith) in
        (s, seen', rw new e, omega arith, λ j m. ext j (ground arith))
  ]
]

-- `serialize` returns on every value over every store, whatever cycles the store has: the fuel, one
-- more than the number of objects, is enough.
pub serialize_total : (store : Store) (v : Value) → (s : Serial) × (serialize store v ≡ some s)
unfolding serialize
serialize_total store v =
    let (s, seen, e, le, ext) =
      inner_serialize-Returns (suc (length store)) store v []
        (omega (arith, room-nil (length store))) in
    (s, ap sent e)

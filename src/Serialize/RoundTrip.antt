-- ===== src/Serialize/RoundTrip.antt =====
-- core/transport/src/serialize: values that are sent and read back.
use testring.Common.{
  ℕ, zero, suc, ◌≤◌, ◌<◌, ◌≡◌, refl, ap, false, Option, some, String, List, [], ◌∷◌, get_elem?,
  length, arith,
}
use mathlib.Core.Path.{ap₂}
use testring.Serialize.{
  Value, atom, ref, Struct, Store, Serial, Seen, has, serialize_items, serialize_entries,
  serialize_struct, inner_serialize, serialize, nil, cons, end, entry, Tree, Trees, Fields,
  deserialize, deserialize_items, deserialize_entries, error_constructor, pack_array, pack_object,
  sent, Atom,
}
use testring.Serialize.Termination.{
  room, room_new, room-nil, get_elem?-some, Returns, inner_serialize-Returns,
}

-- A value, read off the store, is a tree in which no object occurs twice: `seen` are the objects met
-- before, and the last argument those met behind. An error has a name that its constructor gives it.
mutual
  pub data Denotes (store : Store) : Value → Seen → Tree → Seen → Type 0 where
    plain : {a : Atom} {seen : Seen} → Denotes store (atom a) seen (Tree.plain a) seen
    object_at :
        {i : ℕ} {x : Struct} {seen seen' : Seen} {t : Tree}
        → has i seen ≡ false
        → get_elem? store i ≡ some x
        → DenotesStruct store x (i ∷ seen) t seen'
        → Denotes store (ref i) seen t seen'

  pub data DenotesStruct (store : Store) : Struct → Seen → Tree → Seen → Type 0 where
    error :
        {name message : String} {stack : Option String} {seen : Seen}
        → error_constructor name ≡ name
        → DenotesStruct store
            (Struct.error name message stack)
            seen
            (Tree.error name message stack)
            seen
    date :
        {time : ℕ} {seen : Seen} → DenotesStruct store (Struct.date time) seen (Tree.date time) seen
    array :
        {vs : List Value} {ts : Trees} {seen seen' : Seen}
        → DenotesItems store vs seen ts seen'
        → DenotesStruct store (Struct.array vs) seen (Tree.array ts) seen'
    object :
        {es : List (String × Value)} {fs : Fields} {seen seen' : Seen}
        → DenotesEntries store es seen fs seen'
        → DenotesStruct store (Struct.object es) seen (Tree.object fs) seen'

  pub data DenotesItems (store : Store) : List Value → Seen → Trees → Seen → Type 0 where
    no_items : {seen : Seen} → DenotesItems store [] seen Trees.nil seen
    item :
        {v : Value} {vs : List Value} {t : Tree} {ts : Trees} {a b c : Seen}
        → Denotes store v a t b
        → DenotesItems store vs b ts c
        → DenotesItems store (v ∷ vs) a (Trees.cons t ts) c

  pub data DenotesEntries (store : Store)
      : List (String × Value) → Seen → Fields → Seen → Type 0 where
    no_fields : {seen : Seen} → DenotesEntries store [] seen Fields.end seen
    field :
        {k : String} {v : Value} {es : List (String × Value)} {t : Tree} {fs : Fields}
        {a b c : Seen}
        → Denotes store v a t b
        → DenotesEntries store es b fs c
        → DenotesEntries store ((k, v) ∷ es) a (Fields.field k t fs) c

Returns-le {ℓ} :
    {R : Type ℓ} (n : ℕ) (seen : Seen) {o : Option (R × Seen)} {r : R} {seen' : Seen}
    → Returns n seen o
    → o ≡ some (r, seen')
    → room n seen' ≤ room n seen
Returns-le n seen (r, s, e, le, _) h = ground (arith, h, e)

-- The result of serialising, which is read back as the tree.
abbrev Sends {ℓ κ} :
    {R : Type ℓ} {T : Type κ} → (R → T) → Option (R × Seen) → T → Seen → Type (ℓ ⊔ κ)
Sends {R = R} read o t seen' = (r : R) × (o ≡ some (r, seen')) × (read r ≡ t)

mutual
  unfolding inner_serialize serialize_struct serialize_items serialize_entries deserialize

  sends :
      (store : Store) (fuel : ℕ) {v : Value} {seen : Seen} {t : Tree} {seen' : Seen}
      → Denotes store v seen t seen'
      → room (length store) seen < fuel
      → Sends deserialize (inner_serialize fuel store v seen) t seen'
  sends store zero d h = elim h [ ]
  sends store (suc fuel) (plain {a}) h = (Serial.plain a, refl, refl)
  sends store (suc fuel) (object_at {i} {x} {seen} new present d) h =
      let less = room_new (length store) i seen (get_elem?-some store i present) new in
      let (s, e, r) = Sends-struct store fuel d (omega arith) in (s, rw (new, present) e, r)

  Sends-struct :
      (store : Store) (fuel : ℕ) {x : Struct} {seen : Seen} {t : Tree} {seen' : Seen}
      → DenotesStruct store x seen t seen'
      → room (length store) seen < fuel
      → Sends deserialize (serialize_struct (inner_serialize fuel store) (some x) seen) t seen'
  Sends-struct store fuel (error {name} {message} {stack} known) h =
      (Serial.error name message stack, refl, λ i. Tree.error (known i) message stack)
  Sends-struct store fuel (date {time}) h = (Serial.date time, refl, refl)
  Sends-struct store fuel (array d) h =
      let (ss, e, r) = Sends-items store fuel d h in
      (Serial.array ss, ap pack_array e, ap Tree.array r)
  Sends-struct store fuel (object d) h =
      let (ds, e, r) = Sends-entries store fuel d h in
      (Serial.object ds, ap pack_object e, ap Tree.object r)

  Sends-items :
      (store : Store) (fuel : ℕ) {vs : List Value} {seen : Seen} {ts : Trees} {seen' : Seen}
      → DenotesItems store vs seen ts seen'
      → room (length store) seen < fuel
      → Sends deserialize_items (serialize_items (inner_serialize fuel store) vs seen) ts seen'
  Sends-items store fuel no_items h = (nil, refl, refl)
  Sends-items store fuel (item {v} {a = a} d ds) h =
      let (s, e, r) = sends store fuel d h in
      let le = Returns-le (length store) a (inner_serialize-Returns fuel store v a h) e in
      let (ss, e', r') = Sends-items store fuel ds (omega arith) in
      (cons s ss, rw (e, e'), ap₂ Trees.cons r r')

  Sends-entries :
      (store : Store) (fuel : ℕ) {es : List (String × Value)} {seen : Seen} {fs : Fields}
      {seen' : Seen}
      → DenotesEntries store es seen fs seen'
      → room (length store) seen < fuel
      → Sends deserialize_entries (serialize_entries (inner_serialize fuel store) es seen) fs seen'
  Sends-entries store fuel no_fields h = (end, refl, refl)
  Sends-entries store fuel (field {k} {v} {a = a} d ds) h =
      let (s, e, r) = sends store fuel d h in
      let le = Returns-le (length store) a (inner_serialize-Returns fuel store v a h) e in
      let (ss, e', r') = Sends-entries store fuel ds (omega arith) in
      (entry k s ss, rw (e, e'), ap₂ (Fields.field k) r r')

-- What is sent comes back: a value that stands for a tree in which no object occurs twice, with
-- errors of the standard kinds, and without buffers and functions, is serialised, and reading back
-- what was sent gives the tree.
pub deserialize-serialize :
    (store : Store) (v : Value) {t : Tree} {seen : Seen}
    → Denotes store v [] t seen
    → (s : Serial) × (serialize store v ≡ some s) × (deserialize s ≡ t)
unfolding serialize
deserialize-serialize store v d =
    let (s, e, r) = sends store (suc (length store)) d (omega (arith, room-nil (length store))) in
    (s, ap sent e, r)

-- ===== src/Serialize.antt =====
-- core/transport/src/serialize. Objects lie in a store and are known by their position, since
-- `serialize` keeps a set of the objects that it has met. A number is a natural number, a date its
-- time. Of a buffer only what its `toString` gives is known, which for bytes that are no text stands for
-- several buffers, and of a function only the body and the argument names that the expressions of
-- function.ts find in its source. The order of the entries of an object is that of `for … in`.
pub mod Termination
pub mod RoundTrip
pub mod Sharing
mod Tests
use testring.Common.{
  ℕ, zero, suc, Bool, true, false, ◌||◌, Option, none, some, String, List, [], ◌∷◌, get_elem?,
  length, nat_eq, if◌then◌else◌, ◌==◌,
}

pub data Atom : Type 0 where
  undefined null : Atom
  boolean : Bool → Atom
  number : ℕ → Atom
  string : String → Atom

pub data Value : Type 0 where
  atom : Atom → Value
  ref : ℕ → Value

-- A buffer by its `toString`, and a function by what `getBody` and `getArguments` find. `exotic` is a
-- value that no branch of `serialize` takes, such as a symbol.
pub data Struct : Type 0 where
  error : (name message : String) (stack : Option String) → Struct
  buffer : String → Struct
  date : ℕ → Struct
  array : List Value → Struct
  object : List (String × Value) → Struct
  function : (body : String) (arguments : List String) → Struct
  exotic : Struct

abbrev pub Store : Type 0
Store = List Struct

-- What is sent: plain values, and objects with a `$key`. `unknown` has a `$key` of another kind.
mutual
  pub data Serial : Type 0 where
    plain : Atom → Serial
    error : (type message : String) (stack : Option String) → Serial
    buffer : String → Serial
    date : ℕ → Serial
    array : Serials → Serial
    object : Dictionary → Serial
    function : (body : String) (arguments : List String) → Serial
    unknown : (key : String) → Serial

  pub data Serials : Type 0 where
    nil : Serials
    cons : Serial → Serials → Serials

  pub data Dictionary : Type 0 where
    end : Dictionary
    entry : String → Serial → Dictionary → Dictionary

abbrev pub Seen : Type 0
Seen = List ℕ

abbrev pub has : ℕ → Seen → Bool
has i [] = false
has i (j ∷ s) = nat_eq j i || has i s

-- `innerSerialize`, with the set of objects that it has met; `none` where the fuel runs out.
abbrev pub Inner : Type 0
Inner = Value → Seen → Option (Serial × Seen)

infixl 5 ◌>>=◌
unfoldable pub ◌>>=◌ {ℓ κ} : {A : Type ℓ} {B : Type κ} → Option A → (A → Option B) → Option B
none >>= k = none
some a >>= k = k a

-- `array.map`.
pub serialize_items : Inner → List Value → Seen → Option (Serials × Seen)
unfolding ◌>>=◌
serialize_items inner [] seen = some (nil, seen)
serialize_items inner (v ∷ vs) seen = do
  (s, seen') ← inner v seen
  (ss, seen'') ← serialize_items inner vs seen'
  some (cons s ss, seen'')

-- The loop of `serializeObject`.
pub serialize_entries : Inner → List (String × Value) → Seen → Option (Dictionary × Seen)
unfolding ◌>>=◌
serialize_entries inner [] seen = some (end, seen)
serialize_entries inner ((k, v) ∷ es) seen = do
  (s, seen') ← inner v seen
  (d, seen'') ← serialize_entries inner es seen'
  some (entry k s d, seen'')

pack_array : Option (Serials × Seen) → Option (Serial × Seen)
pack_array none = none
pack_array (some (ss, seen)) = some (Serial.array ss, seen)

pack_object : Option (Dictionary × Seen) → Option (Serial × Seen)
pack_object none = none
pack_object (some (d, seen)) = some (Serial.object d, seen)

pub serialize_struct : Inner → Option Struct → Seen → Option (Serial × Seen)
unfolding pack_array pack_object
serialize_struct inner none seen = some (plain undefined, seen)
serialize_struct inner (some (error name message stack)) seen =
    some (Serial.error name message stack, seen)
serialize_struct inner (some (buffer text)) seen = some (Serial.buffer text, seen)
serialize_struct inner (some (date time)) seen = some (Serial.date time, seen)
serialize_struct inner (some (array vs)) seen = pack_array (serialize_items inner vs seen)
serialize_struct inner (some (object es)) seen = pack_object (serialize_entries inner es seen)
serialize_struct inner (some (function body arguments)) seen =
    some (Serial.function body arguments, seen)
serialize_struct inner (some exotic) seen = some (plain undefined, seen)

pub inner_serialize : ℕ → Store → Inner
inner_serialize zero store (atom a) seen = some (plain a, seen)
inner_serialize zero store (ref i) seen = none
inner_serialize (suc fuel) store (atom a) seen = some (plain a, seen)
inner_serialize (suc fuel) store (ref i) seen =
    let met = serialize_struct (inner_serialize fuel store) (get_elem? store i) (i ∷ seen) in
    if has i seen then some (plain (string "(Circular)"), seen) else met

sent : Option (Serial × Seen) → Option Serial
sent none = none
sent (some (s, seen)) = some s

-- The fuel is one more than the number of objects.
pub serialize : Store → Value → Option Serial
unfolding sent
serialize store v = sent (inner_serialize (suc (length store)) store v [])

-- What a receiver gets: values without sharing. A buffer is the one that `Buffer.from` makes of a text,
-- and a function the one that `new Function` makes of names and a body. A `stack` of `none` is the one that the constructor
-- of the error makes.
mutual
  pub data Tree : Type 0 where
    plain : Atom → Tree
    error : (name message : String) (stack : Option String) → Tree
    buffer_from : String → Tree
    date : ℕ → Tree
    array : Trees → Tree
    object : Fields → Tree
    new_function : (body : String) (arguments : List String) → Tree
    unknown : (key : String) → Tree

  pub data Trees : Type 0 where
    nil : Trees
    cons : Tree → Trees → Trees

  pub data Fields : Type 0 where
    end : Fields
    field : String → Tree → Fields → Fields

-- The names of the constructors that `deserializeError` chooses from, with `Error` for the rest.
pub error_constructor : String → String
error_constructor type =
    if type == "EvalError"
    then "EvalError"
    else if type == "RangeError"
    then "RangeError"
    else if type == "ReferenceError"
    then "ReferenceError"
    else if type == "SyntaxError"
    then "SyntaxError"
    else if type == "TypeError"
    then "TypeError"
    else if type == "URIError"
    then "URIError"
    else "Error"

unfoldable mutual
  pub deserialize : Serial → Tree
  deserialize (plain a) = Tree.plain a
  deserialize (error type message stack) = Tree.error (error_constructor type) message stack
  deserialize (buffer text) = Tree.buffer_from text
  deserialize (date time) = Tree.date time
  deserialize (array ss) = Tree.array (deserialize_items ss)
  deserialize (object d) = Tree.object (deserialize_entries d)
  deserialize (function body arguments) = Tree.new_function body arguments
  deserialize (unknown key) = Tree.unknown key

  pub deserialize_items : Serials → Trees
  deserialize_items nil = Trees.nil
  deserialize_items (cons s ss) = Trees.cons (deserialize s) (deserialize_items ss)

  pub deserialize_entries : Dictionary → Fields
  deserialize_entries end = Fields.end
  deserialize_entries (entry k s d) = Fields.field k (deserialize s) (deserialize_entries d)

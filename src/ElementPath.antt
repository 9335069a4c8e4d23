-- ===== src/ElementPath.antt =====
-- packages/element-path/src/element-path.ts: the search options of an element, its path, and the
-- texts that both are made of, as lists of code units.
pub mod Mask
pub mod Forms
pub mod Query
pub mod Print
pub mod RoundTrip
pub mod Xpath
pub mod Chain
pub mod Children
pub mod Laws
pub mod Slices
mod Tests
use Prim.Native.String.{String}
use Prim.Native.Char.{code}
use testring.Common.{[], ◌∷◌, ℕ, Bool, Option, none, List, nat_eq}

abbrev pub Text : Type 0
Text = List ℕ

-- The code units of a literal.
abbrev pub codes : String → Text
codes String.[] = []
codes (String.◌∷◌ c s) = code c ∷ codes s

abbrev pub is_star : ℕ → Bool
is_star c = nat_eq c b'*'

-- A property key that reads as a number: `Number.isInteger`, or what `parseInt` gives. `minus n`
-- is -(n + 1).
pub data Number : Type 0 where
  whole : ℕ → Number
  minus : ℕ → Number
  nan : Number

pub data Key : Type 0 where
  text : Text → Key
  number : Number → Key

-- What the methods throw.
pub data Refusal : Type 0 where
  inner_mask three_parts empty_text empty_sub_query invalid_key only_sub_query : Refusal
  two_searches part_missing already_sliced not_enumerable xpath_required not_a_function : Refusal

pub data Result {ℓ} (A : Type ℓ) : Type ℓ where
  ok : A → Result A
  err : Refusal → Result A

infixl 5 ◌>>=◌
abbrev pub ◌>>=◌ {ℓ κ} : {A : Type ℓ} {B : Type κ} → Result A → (A → Result B) → Result B
ok a >>= f = f a
err e >>= f = err e

-- An option that is `none` is a key that the object does not have.
pub record MaskObject : Type 0 where
  pub any_key : Option Bool
  pub suffix : Option Text
  pub prefix : Option Text
  pub contains_key : Option Text
  pub exact_key : Option Text
  pub parts : Option (List Text)

pub record TextObject : Type 0 where
  pub contains_text : Option Text
  pub equals_text : Option Text

pub record SubQuery : Type 0 where
  pub mask : MaskObject
  pub texts : TextObject

pub record SearchObject : Type 0 where
  pub mask : MaskObject
  pub texts : TextObject
  pub sub_query : Option SubQuery
  pub index : Option Number
  pub xpath : Option Text
  pub id : Option Text

abbrev pub no_mask : MaskObject
no_mask = record {
  any_key = none;
  suffix = none;
  prefix = none;
  contains_key = none;
  exact_key = none;
  parts = none;
}

abbrev pub no_texts : TextObject
no_texts = record { contains_text = none; equals_text = none }

abbrev pub no_search : SearchObject
no_search = record {
  mask = no_mask;
  texts = no_texts;
  sub_query = none;
  index = none;
  xpath = none;
  id = none;
}

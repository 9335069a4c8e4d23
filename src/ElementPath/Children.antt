-- ===== src/ElementPath/Children.antt =====
-- packages/element-path/src/element-path.ts: the methods that generate a child of an element, and
-- isInteger of packages/element-path/src/utils.ts.
use testring.Common.Dict.{is_some}
use testring.Common.{
  ◌-◌, ◌+◌, suc, ◌&&◌, ◌*◌, not, [], ◌||◌, if◌then◌else◌, nat_eq, leb, List, ℕ, ◌∷◌, Bool, none,
  some, true, false, Option,
}
use testring.ElementPath.{
  minus, already_sliced, nan, no_search, ◌>>=◌, whole, not_enumerable, Number, xpath_required,
  SearchObject, Text, ok, err, Result, Key, text, number,
}
use testring.ElementPath.Query.{number_text, key_text, parse_query_key}
use testring.Common.{zero, suc}
use testring.ElementPath.Chain.{
  Options, ElementPath, node, parent, text_eq, new_element_path, no_options,
}

abbrev is_digit : ℕ → Bool
is_digit c = leb b'0' c && leb c b'9'

-- The number that the digits at the head of a text spell, on top of the digits read.
pub read_digits : ℕ → Text → ℕ
read_digits n [] = n
read_digits n (c ∷ cs) = if is_digit c then read_digits (10 * n + (c - b'0')) cs else n

abbrev negated : ℕ → Number
negated zero = whole 0
negated (suc n) = minus n

abbrev starts_digit : Text → Bool
starts_digit [] = false
starts_digit (c ∷ cs) = is_digit c

-- `parseInt(text, 10)` of a text that begins with a digit or a minus; where a text begins with
-- white space or a plus, what it spells is printed without, so that it never compares equal.
pub parse_int : Text → Number
unfolding read_digits
parse_int [] = nan
parse_int (c ∷ cs) =
    if is_digit c
    then whole (read_digits 0 (c ∷ cs))
    else if nat_eq c b'-' && starts_digit cs
    then negated (read_digits 0 cs)
    else nan

-- `isInteger`, with the number that `+key` gives.
unfoldable pub integer_key : Key → Option Number
unfolding parse_int text_eq
integer_key (number (whole n)) = some (whole n)
integer_key (number (minus n)) = some (minus n)
integer_key (number nan) = none
integer_key (text t) = if text_eq (number_text (parse_int t)) t then some (parse_int t) else none

abbrev pub override {ℓ} : {A : Type ℓ} → Option A → Option A → Option A
override old none = old
override old (some new) = some new

-- `{...old, ...new}`
unfoldable pub merged : SearchObject → SearchObject → SearchObject
merged old new = record {
  mask = record {
    any_key = override old.mask.any_key new.mask.any_key;
    suffix = override old.mask.suffix new.mask.suffix;
    prefix = override old.mask.prefix new.mask.prefix;
    contains_key = override old.mask.contains_key new.mask.contains_key;
    exact_key = override old.mask.exact_key new.mask.exact_key;
    parts = override old.mask.parts new.mask.parts;
  };
  texts = record {
    contains_text = override old.texts.contains_text new.texts.contains_text;
    equals_text = override old.texts.equals_text new.texts.equals_text;
  };
  sub_query = override old.sub_query new.sub_query;
  index = override old.index new.index;
  xpath = override old.xpath new.xpath;
  id = override old.id new.id;
}

-- `isCurrentElementSearch`, which asks for each kind of mask but the suffix.
abbrev pub is_current_element_search : SearchObject → Bool
is_current_element_search q =
    is_some q.mask.any_key
    || is_some q.mask.prefix
    || is_some q.mask.contains_key
    || is_some q.mask.exact_key
    || is_some q.mask.parts

abbrev pub child_options : ElementPath → Option ElementPath → SearchObject → Options
child_options p above q = record no_options {
  flows = some (node p).flows;
  search_options = some q;
  parent = above;
}

abbrev enumerate : ElementPath → SearchObject → Option ElementPath → Result ElementPath
enumerate p q none = err not_enumerable
enumerate p q (some above) = new_element_path (
    child_options p (some (if is_current_element_search q then p else above))
      (merged (node p).search_options q))

unfoldable pub slice : ElementPath → SearchObject → Result ElementPath
unfolding new_element_path merged
slice p q =
    if not (is_current_element_search q) && is_some (node p).search_options.index
    then err already_sliced
    else enumerate p q (parent p)

unfoldable pub generate_child_element_path_by_options :
    SearchObject → Bool → ElementPath → Result ElementPath
unfolding slice new_element_path
generate_child_element_path_by_options q without_parent p =
    if is_some q.index
    then slice p q
    else if is_some q.xpath
    then new_element_path (child_options p (if without_parent then none else some p) q)
    else new_element_path (child_options p (some p) q)

abbrev by_integer : ElementPath → Key → Option Number → Result ElementPath
by_integer p key none =
    parse_query_key (text (key_text key)) >>= λ q. generate_child_element_path_by_options q false p
by_integer p key (some n) =
    generate_child_element_path_by_options (record no_search { index = some n }) false p

unfoldable pub generate_child_elements_path : Key → ElementPath → Result ElementPath
unfolding integer_key generate_child_element_path_by_options
generate_child_elements_path key p = by_integer p key (integer_key key)

abbrev pub by_xpath : Text → Text → SearchObject
by_xpath id xpath = record no_search { xpath = some xpath; id = some id }

unfoldable pub generate_child_by_xpath : Text → Text → ElementPath → Result ElementPath
unfolding generate_child_element_path_by_options
generate_child_by_xpath id xpath p =
    generate_child_element_path_by_options (by_xpath id xpath) false p

pub record XpathLocator : Type 0 where
  pub id : Text
  pub xpath : Option Text
  pub parent : Option Text

abbrev is_dot : ℕ → Bool
is_dot c = nat_eq c b'.'

abbrev onto_first : ℕ → List Text → List Text
onto_first c [] = (c ∷ []) ∷ []
onto_first c (part ∷ rest) = (c ∷ part) ∷ rest

-- `split('.')`
pub split_dots : Text → List Text
split_dots [] = [] ∷ []
split_dots (c ∷ cs) = if is_dot c then [] ∷ split_dots cs else onto_first c (split_dots cs)

-- The `reduce` over the keys of the parent.
unfoldable pub descend : List Text → ElementPath → Result ElementPath
unfolding generate_child_elements_path
descend [] p = ok p
descend (key ∷ keys) p = generate_child_elements_path (text key) p >>= λ c. descend keys c

abbrev pub located_below : Option Text → SearchObject → ElementPath → Result ElementPath
located_below none q p = generate_child_element_path_by_options q true p
located_below (some []) q p = generate_child_element_path_by_options q false p
located_below (some (c ∷ cs)) q p = descend (split_dots (c ∷ cs)) p >>= λ above.
    generate_child_element_path_by_options q false above

abbrev pub locate : XpathLocator → Option Text → ElementPath → Result ElementPath
locate l none p = err xpath_required
locate l (some xpath) p = located_below l.parent (by_xpath l.id xpath) p

unfoldable pub generate_child_by_locator : XpathLocator → ElementPath → Result ElementPath
unfolding generate_child_element_path_by_options descend split_dots
generate_child_by_locator l p = locate l l.xpath p

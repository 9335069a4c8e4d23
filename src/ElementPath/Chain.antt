-- ===== src/ElementPath/Chain.antt =====
-- packages/element-path/src/element-path.ts: the constructor, the chain of an element and what is
-- printed of it, and the flows.
use testring.Common.Dict.{is_some}
use testring.Common.{
  suc, ◌||◌, nat_eq, ◌&&◌, ◌∷◌, ◌++◌, List, if◌then◌else◌, ℕ, [], Bool, none, some, true, false,
  Option,
}
use testring.ElementPath.{
  minus, whole, number, text, not_a_function, two_searches, Key, Number, ◌>>=◌, SearchObject, Text,
  ok, err, codes, Result,
}
use testring.ElementPath.Query.{key_text, parse_query_key, number_text}
use testring.ElementPath.Print.{filled, query_to_string}
use testring.ElementPath.Xpath.{keys_count, search_query_xpath}

-- A value of `flows`: a function, by a number that tells it from others, or something else.
pub data Flow : Type 0 where
  function : ℕ → Flow
  other_value : Flow

abbrev pub FlowsFnObject : Type 0
FlowsFnObject = List (Text × Flow)

abbrev pub FlowsObject : Type 0
FlowsObject = List (Text × FlowsFnObject)

pub record Node : Type 0 where
  pub flows : FlowsObject
  pub attribute_name : Text
  pub search_mask : Option Key
  pub search_options : SearchObject

-- An element with no parent, or one below its parent.
pub data ElementPath : Type 0 where
  top : Node → ElementPath
  below : ElementPath → Node → ElementPath

abbrev pub node : ElementPath → Node
node (top n) = n
node (below p n) = n

abbrev pub parent : ElementPath → Option ElementPath
parent (top n) = none
parent (below p n) = some p

-- `searchMask?: SearchMaskPrimitive | null`
pub data MaskOption : Type 0 where
  undefined null : MaskOption
  given : Key → MaskOption

pub record Options : Type 0 where
  pub flows : Option FlowsObject
  pub search_mask : MaskOption
  pub search_options : Option SearchObject
  pub attribute_name : Option Text
  pub parent : Option ElementPath

abbrev pub no_options : Options
no_options = record {
  flows = none;
  search_mask = undefined;
  search_options = none;
  attribute_name = none;
  parent = none;
}

abbrev pub default_attribute : Text
default_attribute = codes "data-test-automation-id"

abbrev pub root_selector : Text
root_selector = codes "root"

abbrev default_to {ℓ} : {A : Type ℓ} → A → Option A → A
default_to a none = a
default_to a (some b) = b

abbrev place : Option ElementPath → Node → ElementPath
place none n = top n
place (some p) n = below p n

-- The flows, the attribute and the parent of a new element, with a search that was found.
abbrev build : Options → Option Key → SearchObject → ElementPath
build o mask q = place o.parent (record {
  flows = default_to [] o.flows;
  attribute_name = default_to default_attribute (filled o.attribute_name);
  search_mask = mask;
  search_options = q;
})

abbrev text_key : Option Text → Option Key
text_key none = none
text_key (some t) = some (text t)

-- The search mask that search options stand for: the exact key, where they hold nothing else.
pub mask_of_options : SearchObject → Option Key
unfolding keys_count
mask_of_options q = if nat_eq (keys_count q) 1 then text_key q.mask.exact_key else none

abbrev by_mask : Options → Key → Result ElementPath
by_mask o key = parse_query_key key >>= λ q. ok (build o (some key) q)

abbrev by_root : Options → Result ElementPath
by_root o = parse_query_key (text root_selector) >>= λ q. ok (build o none q)

abbrev with_search : Options → Option SearchObject → MaskOption → Result ElementPath
with_search o (some q) undefined = ok (build o (mask_of_options q) q)
with_search o (some q) null = err two_searches
with_search o (some q) (given key) = err two_searches
with_search o none (given key) = by_mask o key
with_search o none undefined = by_root o
with_search o none null = by_root o

-- The constructor.
unfoldable pub new_element_path : Options → Result ElementPath
unfolding mask_of_options parse_query_key
new_element_path o = with_search o o.search_options o.search_mask

pub record NodePath : Type 0 where
  pub query : Option SearchObject
  pub name : Option Text
  pub xpath : Text
  pub is_root : Bool

unfoldable pub text_eq : Text → Text → Bool
text_eq [] [] = true
text_eq (c ∷ cs) (d ∷ ds) = nat_eq c d && text_eq cs ds
text_eq _ _ = false

abbrev has_key : Option Text → Text → Bool
has_key none key = false
has_key (some k) key = text_eq k key

-- `Object.keys(this.searchOptions).length === 1 && this.searchOptions.exactKey === rootSelector`
pub is_root_search : SearchObject → Bool
unfolding keys_count text_eq
is_root_search q = nat_eq (keys_count q) 1 && has_key q.mask.exact_key root_selector

abbrev pub node_xpath : Node → Result Text
node_xpath n = search_query_xpath n.attribute_name n.search_options

unfoldable pub link : Node → Text → NodePath
link n x = record { query = some n.search_options; name = none; xpath = x; is_root = false }

pub top_link : Node → Text → NodePath
unfolding is_root_search link
top_link n x =
    if is_root_search n.search_options
    then record { query = none; name = some root_selector; xpath = x; is_root = true }
    else link n x

unfoldable pub get_element_path_chain : ElementPath → Result (List NodePath)
unfolding top_link link
get_element_path_chain (top n) = node_xpath n >>= λ x. ok (top_link n x ∷ [])
get_element_path_chain (below p n) =
    get_element_path_chain p >>= λ chain. node_xpath n >>= λ x. ok (chain ++ link n x ∷ [])

-- `getParentElementPathChain`, where `null` is `none`.
pub get_parent_element_path_chain : ElementPath → Result (Option (List NodePath))
unfolding get_element_path_chain
get_parent_element_path_chain (top n) = ok none
get_parent_element_path_chain (below p n) = get_element_path_chain p >>= λ chain. ok (some chain)

-- `parts.join('')` over what `f` prints of each.
unfoldable pub join_all {ℓ} : {A : Type ℓ} → (A → Text) → List A → Text
join_all f [] = []
join_all f (x ∷ xs) = f x ++ join_all f xs

abbrev pub first_only : Bool → Text → Text
first_only multiple x = if multiple then x else codes "(" ++ (x ++ codes ")[1]")

unfoldable pub to_string : Bool → ElementPath → Result Text
unfolding get_element_path_chain join_all
to_string multiple p = get_element_path_chain p >>= λ chain.
    ok (first_only multiple (join_all (λ (n : NodePath). n.xpath) chain))

abbrev id_text : Option Text → Text
id_text none = []
id_text (some id) = codes "\"" ++ (id ++ codes "\", ")

abbrev index_text : Option Number → Text
index_text none = []
index_text (some n) = codes "[" ++ (number_text n ++ codes "]")

-- The exact key alone, or with an index and nothing else.
abbrev is_short : SearchObject → Bool
is_short q =
    (is_some (filled q.mask.exact_key) && nat_eq (keys_count q) 1)
    || (is_some q.mask.exact_key && is_some q.index && nat_eq (keys_count q) 2)

abbrev default_text : Option Text → Text
default_text none = codes "undefined"
default_text (some t) = t

pub key_link : SearchObject → Text
unfolding keys_count query_to_string
key_link q =
    (if is_short q
      then b'.' ∷ default_text q.mask.exact_key
      else codes "[\"" ++ (query_to_string q ++ codes "\"]"))
    ++ index_text q.index

abbrev xpath_link : SearchObject → Option Text → Text
xpath_link q none = key_link q
xpath_link q (some xpath) =
    codes ".xpath(" ++ (id_text (filled q.id) ++ (codes "\"" ++ (xpath ++ codes "\")")))

abbrev query_link : Option SearchObject → Text
query_link none = []
query_link (some q) = xpath_link q (filled q.xpath)

pub reversed_link : Bool → NodePath → Text
unfolding key_link
reversed_link with_root n =
    if n.is_root then if with_root then default_text n.name else [] else query_link n.query

unfoldable pub get_reversed_chain : Bool → ElementPath → Result Text
unfolding get_element_path_chain join_all reversed_link
get_reversed_chain with_root p =
    get_element_path_chain p >>= λ chain. ok (join_all (reversed_link with_root) chain)

-- `object[key]`, where `undefined` is `none`.
pub property {ℓ} : {A : Type ℓ} → List (Text × A) → Text → Option A
unfolding text_eq
property [] key = none
property ((k, v) ∷ rest) key = if text_eq k key then some v else property rest key

abbrev flows_of : FlowsObject → Option Key → Option FlowsFnObject
flows_of flows none = none
flows_of flows (some mask) = property flows (key_text mask)

abbrev has_flow_in : Option FlowsFnObject → Key → Bool
has_flow_in none key = false
has_flow_in (some flows) key = is_some (property flows (key_text key))

pub has_flow : ElementPath → Key → Bool
unfolding property
has_flow p key = has_flow_in (flows_of (node p).flows (node p).search_mask) key

abbrev callable : Option Flow → Result (Option ℕ)
callable (some (function f)) = ok (some f)
callable (some other_value) = err not_a_function
callable none = err not_a_function

abbrev get_flow_in : Option FlowsFnObject → Key → Result (Option ℕ)
get_flow_in none key = ok none
get_flow_in (some flows) key = callable (property flows (key_text key))

pub get_flow : ElementPath → Key → Result (Option ℕ)
unfolding property
get_flow p key = get_flow_in (flows_of (node p).flows (node p).search_mask) key

-- `this.searchMask` in a condition: `null`, `0`, `NaN` and the empty text are false.
abbrev true_mask : Option Key → Option Key
true_mask (some (text (c ∷ cs))) = some (text (c ∷ cs))
true_mask (some (number (whole (suc n)))) = some (number (whole (suc n)))
true_mask (some (number (minus n))) = some (number (minus n))
true_mask other = none

pub get_flows : ElementPath → FlowsFnObject
unfolding property
get_flows p = default_to [] (flows_of (node p).flows (true_mask (node p).search_mask))

-- The exact key, or the generic type for which there is `none`.
pub get_element_type : ElementPath → Option Text
get_element_type p = (node p).search_options.mask.exact_key

-- ===== src/ElementPath/Xpath.antt =====
-- packages/element-path/src/element-path.ts: getMaskXpathParts, getTextXpathParts and
-- getSearchQueryXpath.
use testring.Common.Dict.{is_some}
use testring.Common.{
  nat_eq, ◌&&◌, if◌then◌else◌, ◌+◌, [], ◌∷◌, List, ℕ, ◌++◌, Bool, none, some, false, Option, zero,
  suc, length,
}
use testring.ElementPath.{
  part_missing, ◌>>=◌, Number, Result, SubQuery, MaskObject, TextObject, SearchObject, Text, ok,
  err, codes, whole, minus, nan,
}
use testring.ElementPath.Print.{filled}
use testring.ElementPath.Query.{number_text, decimal}

abbrev at_attribute : Text → Text
at_attribute attr = b'@' ∷ attr

starts_with_condition : Text → Text → Text
starts_with_condition attr prefix =
    codes "starts-with(" ++ (at_attribute attr ++ (codes ", '" ++ (prefix ++ codes "')")))

-- `ends-with` by the means of XPath 1.0.
ends_with_condition : Text → Text → Text
ends_with_condition attr suffix =
    codes "substring("
    ++ (at_attribute attr
        ++ (codes ", string-length("
            ++ (at_attribute attr
                ++ (codes ") - string-length('"
                    ++ (suffix ++ (codes "') + 1) = '" ++ (suffix ++ codes "'")))))))

longer_condition : Text → ℕ → Text
longer_condition attr n =
    codes "string-length(" ++ (at_attribute attr ++ (codes ") > " ++ decimal n))

equals_condition : Text → Text → Text
equals_condition attr key = at_attribute attr ++ (codes "='" ++ (key ++ codes "'"))

contains_condition : Text → Text → Text
contains_condition attr key =
    codes "contains(" ++ (at_attribute attr ++ (codes ",'" ++ (key ++ codes "')")))

-- Of more parts than two only the first two are read.
parts_conditions : Text → List Text → Result (List Text)
unfolding starts_with_condition ends_with_condition longer_condition
parts_conditions attr (start ∷ end ∷ more) = ok (
    ends_with_condition attr end
    ∷ starts_with_condition attr start
    ∷ longer_condition attr (length start + length end)
    ∷ [])
parts_conditions attr other = err part_missing

abbrev contains_part : Text → Option Text → List Text
contains_part attr none = []
contains_part attr (some key) = contains_condition attr key ∷ []

abbrev exact_part : Text → MaskObject → Option Text → List Text
exact_part attr m none = contains_part attr m.contains_key
exact_part attr m (some key) = equals_condition attr key ∷ []

abbrev parts_part : Text → MaskObject → Option (List Text) → Result (List Text)
parts_part attr m none = ok (exact_part attr m m.exact_key)
parts_part attr m (some parts) = parts_conditions attr parts

abbrev suffix_part : Text → MaskObject → Option Text → Result (List Text)
suffix_part attr m none = parts_part attr m m.parts
suffix_part attr m (some suffix) = ok (ends_with_condition attr suffix ∷ [])

abbrev prefix_part : Text → MaskObject → Option Text → Result (List Text)
prefix_part attr m none = suffix_part attr m m.suffix
prefix_part attr m (some prefix) = ok (starts_with_condition attr prefix ∷ [])

abbrev is_true : Option Bool → Bool
is_true none = false
is_true (some b) = b

pub mask_xpath_parts : Text → MaskObject → Result (List Text)
unfolding parts_conditions starts_with_condition ends_with_condition equals_condition
    contains_condition
mask_xpath_parts attr m =
    if is_true m.any_key then ok (at_attribute attr ∷ []) else prefix_part attr m m.prefix

abbrev equals_text_part : Option Text → List Text
equals_text_part none = []
equals_text_part (some t) = (codes ". = \"" ++ (t ++ codes "\"")) ∷ []

abbrev contains_text_part : Option Text → Option Text → List Text
contains_text_part none equal = equals_text_part equal
contains_text_part (some t) equal = (codes "contains(., \"" ++ (t ++ codes "\")")) ∷ []

-- An empty text is no condition.
pub text_xpath_parts : TextObject → List Text
text_xpath_parts t = contains_text_part (filled t.contains_text) (filled t.equals_text)

-- `conditions.join(' and ')`
pub join_and : List Text → Text
join_and [] = []
join_and (c ∷ []) = c
join_and (c ∷ d ∷ cs) = c ++ (codes " and " ++ join_and (d ∷ cs))

abbrev present {ℓ} : {A : Type ℓ} → Option A → ℕ
present none = 0
present (some a) = 1

-- `Object.keys(searchOptions).length`
unfoldable pub keys_count : SearchObject → ℕ
keys_count q =
    present q.mask.any_key
    + present q.mask.suffix
    + present q.mask.prefix
    + present q.mask.contains_key
    + present q.mask.exact_key
    + present q.mask.parts
    + present q.texts.contains_text
    + present q.texts.equals_text
    + present q.sub_query
    + present q.index
    + present q.xpath
    + present q.id

abbrev sub_conditions : Text → Option SubQuery → Result (List Text)
sub_conditions attr none = ok []
sub_conditions attr (some sub) = mask_xpath_parts attr sub.mask >>= λ parts.
    ok (
      (codes "descendant::*[" ++ (join_and (parts ++ text_xpath_parts sub.texts) ++ codes "]"))
      ∷ [])

-- `conditions[0]`, which a template prints as `undefined` where there is none.
abbrev first_condition : List Text → Text
first_condition [] = codes "undefined"
first_condition (c ∷ cs) = c

-- `index + 1`
pub next_number : Number → Number
next_number (whole n) = whole (n + 1)
next_number (minus zero) = whole 0
next_number (minus (suc n)) = minus n
next_number nan = nan

pub position : Option Number → Text
unfolding next_number
position none = []
position (some n) = codes "[position() = " ++ (number_text (next_number n) ++ codes "]")

-- The element search of a query without its index.
pub located : SearchObject → List Text → Text
unfolding keys_count join_and
located q conditions =
    if is_some q.mask.exact_key && nat_eq (keys_count q) 1
    then codes "//*[" ++ (first_condition conditions ++ codes "]")
    else codes "/descendant::*[" ++ (join_and conditions ++ codes "]")

abbrev xpath_or : Option Text → Result Text → Result Text
xpath_or none built = built
xpath_or (some xpath) built = ok xpath

unfoldable pub search_query_xpath : Text → SearchObject → Result Text
unfolding mask_xpath_parts text_xpath_parts located position
search_query_xpath attr q = xpath_or q.xpath (
    mask_xpath_parts attr q.mask >>= λ parts. sub_conditions attr q.sub_query >>= λ sub.
    ok (located q (parts ++ (sub ++ text_xpath_parts q.texts)) ++ position q.index))

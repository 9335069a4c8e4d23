-- ===== src/ElementPath/Query.antt =====
-- packages/element-path/src/element-path.ts: parseText, parseSubQuery and parseQueryKey, with the
-- two regular expressions as the scanners that they amount to: the class behind a group never
-- holds the first character of the next group, so no group is ever shortened to make a match.
pub mod Matches
pub mod Scan
pub mod Parsed
pub mod Unclosed
use testring.Common.Dict.{is_some}
use testring.Common.{
  zero, suc, ◌%◌, ltb, ◌/◌, if◌then◌else◌, ◌+◌, [], ◌++◌, ◌||◌, suc, nat_eq, ◌&&◌, Option, ◌∷◌, ℕ,
  not, Bool, none, some, true, false,
}
use testring.ElementPath.{
  no_search, only_sub_query, empty_text, empty_sub_query, invalid_key, ◌>>=◌, err, SubQuery,
  no_texts, SearchObject, ok, TextObject, Result, Number, Text, Key, text, number, whole, minus,
  nan,
}
use testring.ElementPath.Mask.{parse_mask}

-- What `[^…]*` takes from a text, and what it leaves; `stop` tests for the excluded characters.
pub take_until : (ℕ → Bool) → Text → Text
take_until stop [] = []
take_until stop (c ∷ cs) = if stop c then [] else c ∷ take_until stop cs

pub drop_until : (ℕ → Bool) → Text → Text
drop_until stop [] = []
drop_until stop (c ∷ cs) = if stop c then c ∷ cs else drop_until stop cs

abbrev pub is_open : ℕ → Bool
is_open c = nat_eq c b'{'

abbrev pub is_close : ℕ → Bool
is_close c = nat_eq c b'}'

abbrev pub is_equals : ℕ → Bool
is_equals c = nat_eq c b'='

abbrev pub is_open_sub : ℕ → Bool
is_open_sub c = nat_eq c b'('

abbrev pub is_close_sub : ℕ → Bool
is_close_sub c = nat_eq c b')'

-- The characters that end a mask: `[^{(=]`, and `[^{=]` within a sub query.
abbrev pub ends_mask : ℕ → Bool
ends_mask c = is_open c || is_open_sub c || is_equals c

abbrev pub ends_sub_mask : ℕ → Bool
ends_sub_mask c = is_open c || is_equals c

-- An optional group that takes nothing is `undefined`.
abbrev pub group : Text → Option Text
group [] = none
group (c ∷ cs) = some (c ∷ cs)

-- `{([^}]*)}` behind what `opening` has taken, with the text that the group leaves.
pub close_text : Text → Text → Text → Text → Option Text × Text
close_text opening inner all [] = (none, all)
close_text opening inner all (c ∷ rest) = (some (opening ++ inner ++ b'}' ∷ []), rest)

pub text_after_equals : Text → Option Text × Text
unfolding close_text take_until drop_until
text_after_equals [] = (none, b'=' ∷ [])
text_after_equals (c ∷ cs) =
    if is_open c
    then close_text (b'=' ∷ b'{' ∷ []) (take_until is_close cs) (b'=' ∷ c ∷ cs)
        (drop_until is_close cs)
    else (none, b'=' ∷ c ∷ cs)

-- `(=?{([^}]*)})?`
pub text_group : Text → Option Text × Text
unfolding text_after_equals
text_group [] = (none, [])
text_group (c ∷ cs) =
    if is_open c
    then close_text (b'{' ∷ []) (take_until is_close cs) (c ∷ cs) (drop_until is_close cs)
    else if is_equals c
    then text_after_equals cs
    else (none, c ∷ cs)

-- `\(([^)]*)\)` up to the end of the text.
pub close_sub : Text → Text → Option (Option Text)
close_sub inner (c ∷ []) = some (some (b'(' ∷ inner ++ c ∷ []))
close_sub inner other = none

-- `(\(([^)]*)\))?$`
pub sub_group : Text → Option (Option Text)
unfolding close_sub take_until drop_until
sub_group [] = some none
sub_group (c ∷ cs) =
    if is_open_sub c
    then close_sub (take_until is_close_sub cs) (drop_until is_close_sub cs)
    else none

-- `parts[1]`, `parts[2]` and `parts[4]` of a match of `QUERY_RE`.
pub record Match : Type 0 where
  pub mask : Option Text
  pub text_search : Option Text
  pub sub_query : Option Text

abbrev match_with : Option Text → Option Text → Option (Option Text) → Option Match
match_with mask found none = none
match_with mask found (some sub) =
    some (record { mask = mask; text_search = found; sub_query = sub })

pub match_query : Text → Option Match
unfolding take_until drop_until text_group sub_group
match_query key =
    let (found, rest) = text_group (drop_until ends_mask key) in
    match_with (group (take_until ends_mask key)) found (sub_group rest)

-- `SUB_QUERY_RE`, whose mask is no optional group, and `|| []` where it does not match.
abbrev sub_match_with : Text → Option Text × Text → Match
sub_match_with mask (found, []) = record { mask = some mask; text_search = found; sub_query = none }
sub_match_with mask (found, c ∷ cs) = record { mask = none; text_search = none; sub_query = none }

pub match_sub_query : Text → Match
unfolding take_until drop_until text_group
match_sub_query query =
    sub_match_with (take_until ends_sub_mask query) (text_group (drop_until ends_sub_mask query))

-- `slice(k, -1)`
pub drop_last : Text → Text
drop_last [] = []
drop_last (c ∷ []) = []
drop_last (c ∷ d ∷ cs) = c ∷ drop_last (d ∷ cs)

pub text_is_empty : Text → Bool
text_is_empty (c ∷ d ∷ []) = is_open c && is_close d
text_is_empty other = false

pub text_contents : Text → TextObject
unfolding drop_last
text_contents [] = no_texts
text_contents (c ∷ []) = if is_open c then record no_texts { contains_text = some [] } else no_texts
text_contents (c ∷ d ∷ cs) =
    if is_open c
    then record no_texts { contains_text = some (drop_last (d ∷ cs)) }
    else if is_equals c && is_open d
    then record no_texts { equals_text = some (drop_last cs) }
    else no_texts

unfoldable pub parse_text : Text → Result TextObject
unfolding text_is_empty text_contents
parse_text mask = if text_is_empty mask then err empty_text else ok (text_contents mask)

-- `textSearch === undefined ? undefined : this.parseText(textSearch)`, merged into the rest.
abbrev pub parse_text_search : Option Text → Result TextObject
parse_text_search none = ok no_texts
parse_text_search (some found) = parse_text found

abbrev pub parse_sub_match : Match → Result SubQuery
parse_sub_match m = parse_mask m.mask >>= λ mask.
    parse_text_search m.text_search >>= λ texts. ok (record { mask = mask; texts = texts })

pub sub_is_empty : Text → Bool
sub_is_empty (c ∷ d ∷ []) = is_open_sub c && is_close_sub d
sub_is_empty other = false

pub drop_first : Text → Text
drop_first [] = []
drop_first (c ∷ cs) = cs

unfoldable pub parse_sub_query : Text → Result SubQuery
unfolding sub_is_empty match_sub_query drop_last drop_first
parse_sub_query sub =
    if sub_is_empty sub
    then err empty_sub_query
    else parse_sub_match (match_sub_query (drop_last (drop_first sub)))

abbrev pub parse_sub : Option Text → Result (Option SubQuery)
parse_sub none = ok none
parse_sub (some sub) = parse_sub_query sub >>= λ q. ok (some q)

abbrev pub only_sub : Match → Bool
only_sub m = not (is_some m.mask) && not (is_some m.text_search) && is_some m.sub_query

abbrev pub parse_match : Option Match → Result SearchObject
parse_match none = err invalid_key
parse_match (some m) =
    if only_sub m
    then err only_sub_query
    else parse_mask m.mask >>= λ mask. parse_text_search m.text_search >>= λ texts.
        parse_sub m.sub_query >>= λ sub.
        ok (record no_search { mask = mask; texts = texts; sub_query = sub })

-- The decimal digits of a number, the last one last; `fuel` bounds their count.
pub digits : ℕ → ℕ → Text
digits zero n = []
digits (suc fuel) n =
    let above = digits fuel (n / 10) in
    if ltb n 10 then (b'0' + n) ∷ [] else above ++ (b'0' + n % 10) ∷ []

-- `${n}`
pub decimal : ℕ → Text
unfolding digits
decimal n = digits (suc n) n

unfoldable pub number_text : Number → Text
unfolding decimal
number_text (whole n) = decimal n
number_text (minus n) = b'-' ∷ decimal (n + 1)
number_text nan = b'N' ∷ b'a' ∷ b'N' ∷ []

-- `key.toString()`
abbrev pub key_text : Key → Text
key_text (text t) = t
key_text (number n) = number_text n

unfoldable pub parse_query_key : Key → Result SearchObject
unfolding match_query
parse_query_key key = parse_match (match_query (key_text key))

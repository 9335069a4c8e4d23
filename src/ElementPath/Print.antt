-- ===== src/ElementPath/Print.antt =====
-- packages/element-path/src/element-path.ts: queryToString.
pub mod Spells
use testring.Common.{if◌then◌else◌, ◌∷◌, ◌++◌, [], Option, List, Bool, none, some, true, false}
use testring.ElementPath.{SubQuery, SearchObject, TextObject, MaskObject, Text}

-- A text that a condition takes for true: there, and not empty.
abbrev pub filled : Option Text → Option Text
filled none = none
filled (some []) = none
filled (some (c ∷ cs)) = some (c ∷ cs)

-- `parts.join('*')`
pub join_stars : List Text → Text
join_stars [] = []
join_stars (part ∷ []) = part
join_stars (part ∷ next ∷ rest) = part ++ b'*' ∷ join_stars (next ∷ rest)

abbrev if_set : Option Bool → Text
if_set none = []
if_set (some b) = if b then b'*' ∷ [] else []

abbrev or_else : Option Text → (Text → Text) → Text → Text
or_else none f rest = rest
or_else (some t) f rest = f t

abbrev or_parts : Option (List Text) → Text → Text
or_parts none rest = rest
or_parts (some parts) rest = join_stars parts

pub mask_to_string : MaskObject → Text
unfolding join_stars
mask_to_string m =
    or_else (filled m.prefix) (λ p. p ++ b'*' ∷ [])
      (or_else (filled m.suffix) (λ s. b'*' ∷ s)
        (or_else (filled m.contains_key) (λ c. b'*' ∷ (c ++ b'*' ∷ []))
          (or_else (filled m.exact_key) (λ e. e) (or_parts m.parts (if_set m.any_key)))))

pub texts_to_string : TextObject → Text
texts_to_string t =
    or_else (filled t.contains_text) (λ c. b'{' ∷ (c ++ b'}' ∷ []))
      (or_else (filled t.equals_text) (λ e. b'=' ∷ b'{' ∷ (e ++ b'}' ∷ [])) [])

abbrev sub_to_string : Option SubQuery → Text
sub_to_string none = []
sub_to_string (some q) = b'(' ∷ ((mask_to_string q.mask ++ texts_to_string q.texts) ++ b')' ∷ [])

-- A sub query has no sub query of its own, so the recursive call is the call on its masks and texts.
unfoldable pub query_to_string : SearchObject → Text
unfolding mask_to_string texts_to_string
query_to_string q = mask_to_string q.mask ++ (texts_to_string q.texts ++ sub_to_string q.sub_query)

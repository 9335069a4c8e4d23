-- ===== src/ElementPath/Forms.antt =====
-- packages/element-path/src/element-path.ts: the search options that a key can stand for, as
-- forms, and the texts that stand for them.
use testring.Common.{◌||◌, ◌≡◌, ◌++◌, any, ◌∷◌, [], ◌≢◌, Bool, none, some, false, ℕ, Option}
use testring.ElementPath.{
  is_star, no_mask, no_texts, no_search, TextObject, MaskObject, SubQuery, SearchObject, Text,
}
use testring.ElementPath.Query.{is_close, is_close_sub, ends_mask, ends_sub_mask}
use testring.ElementPath.Mask.{any_mask}

-- The masks that a key can hold, and the searches for a text.
pub data Mask : Type 0 where
  anything : Mask
  prefixed suffixed containing exactly : Text → Mask
  joined : Text → Text → Mask

pub data Search : Type 0 where
  untold : Search
  contains equals : Text → Search

pub record Query : Type 0 where
  pub mask : Mask
  pub search : Search
  pub sub : Option (Mask × Search)

abbrev pub mask_object : Mask → MaskObject
mask_object anything = any_mask
mask_object (prefixed p) = record no_mask { prefix = some p }
mask_object (suffixed s) = record no_mask { suffix = some s }
mask_object (containing c) = record no_mask { contains_key = some c }
mask_object (exactly e) = record no_mask { exact_key = some e }
mask_object (joined a b) = record no_mask { parts = some (a ∷ b ∷ []) }

abbrev pub text_object : Search → TextObject
text_object untold = no_texts
text_object (contains t) = record no_texts { contains_text = some t }
text_object (equals t) = record no_texts { equals_text = some t }

abbrev pub sub_object : Option (Mask × Search) → Option SubQuery
sub_object none = none
sub_object (some (m, s)) = some (record { mask = mask_object m; texts = text_object s })

abbrev pub search_object : Query → SearchObject
search_object q = record no_search {
  mask = mask_object q.mask;
  texts = text_object q.search;
  sub_query = sub_object q.sub;
}

-- The text of each form.
abbrev pub mask_text : Mask → Text
mask_text anything = b'*' ∷ []
mask_text (prefixed p) = p ++ b'*' ∷ []
mask_text (suffixed s) = b'*' ∷ s
mask_text (containing c) = b'*' ∷ (c ++ b'*' ∷ [])
mask_text (exactly e) = e
mask_text (joined a b) = a ++ b'*' ∷ b

abbrev pub search_text : Search → Option Text
search_text untold = none
search_text (contains t) = some (b'{' ∷ (t ++ b'}' ∷ []))
search_text (equals t) = some (b'=' ∷ b'{' ∷ (t ++ b'}' ∷ []))

abbrev pub or_nothing : Option Text → Text
or_nothing none = []
or_nothing (some t) = t

-- Not empty, with no star, and with no character that `stop` excludes.
abbrev pub IsPlain : (ℕ → Bool) → Text → Type 0
IsPlain stop t = (t ≢ []) × (any stop t ≡ false) × (any is_star t ≡ false)

abbrev pub IsPlainMask : (ℕ → Bool) → Mask → Type 0
IsPlainMask stop anything = Unit
IsPlainMask stop (prefixed p) = IsPlain stop p
IsPlainMask stop (suffixed s) = IsPlain stop s
IsPlainMask stop (containing c) = IsPlain stop c
IsPlainMask stop (exactly e) = IsPlain stop e
IsPlainMask stop (joined a b) = IsPlain stop a × IsPlain stop b

abbrev pub IsPlainSearch : (ℕ → Bool) → Search → Type 0
IsPlainSearch stop untold = Unit
IsPlainSearch stop (contains t) = (t ≢ []) × (any stop t ≡ false)
IsPlainSearch stop (equals t) = (t ≢ []) × (any stop t ≡ false)

-- What a sub query cannot hold: it ends at the first `)`.
abbrev pub ends_sub : ℕ → Bool
ends_sub c = ends_sub_mask c || is_close_sub c

abbrev pub ends_sub_text : ℕ → Bool
ends_sub_text c = is_close c || is_close_sub c

abbrev pub sub_inner : Mask → Search → Text
sub_inner m s = mask_text m ++ or_nothing (search_text s)

abbrev pub sub_text : Option (Mask × Search) → Option Text
sub_text none = none
sub_text (some (m, s)) = some (b'(' ∷ (sub_inner m s ++ b')' ∷ []))

abbrev pub query_text : Query → Text
query_text q =
    mask_text q.mask ++ (or_nothing (search_text q.search) ++ or_nothing (sub_text q.sub))

abbrev pub IsPlainSub : Option (Mask × Search) → Type 0
IsPlainSub none = Unit
IsPlainSub (some (m, s)) = IsPlainMask ends_sub m × IsPlainSearch ends_sub_text s

-- No text of the query is empty or holds a character that ends it.
pub record IsPlainQuery (q : Query) : Type 0 where
  pub plain_mask : IsPlainMask ends_mask q.mask
  pub plain_search : IsPlainSearch is_close q.search
  pub plain_sub : IsPlainSub q.sub

-- ===== src/ElementPath/Mask.antt =====
-- packages/element-path/src/element-path.ts: parseMask, and the string methods that it calls.
pub mod Plain
use testring.Common.{
  none, not, ◌||◌, some, any, ◌&&◌, [], if◌then◌else◌, true, ℕ, List, ◌∷◌, false, Option, Bool,
}
use testring.ElementPath.{
  three_parts, inner_mask, err, ok, no_mask, is_star, Result, MaskObject, Text,
}

-- `mask.replace(/^\*/, '')`
pub strip_first : Text → Text
strip_first [] = []
strip_first (c ∷ cs) = if is_star c then cs else c ∷ cs

-- `mask.replace(/\*$/, '')`
pub strip_last : Text → Text
strip_last [] = []
strip_last (c ∷ []) = if is_star c then [] else c ∷ []
strip_last (c ∷ d ∷ cs) = c ∷ strip_last (d ∷ cs)

-- `mask[0] === '*'`
pub starts_starred : Text → Bool
starts_starred [] = false
starts_starred (c ∷ cs) = is_star c

-- `mask[mask.length - 1] === '*'`
pub ends_starred : Text → Bool
ends_starred [] = false
ends_starred (c ∷ []) = is_star c
ends_starred (c ∷ d ∷ cs) = ends_starred (d ∷ cs)

-- Puts a code unit before the first part.
pub extend_first : ℕ → List Text → List Text
extend_first c [] = (c ∷ []) ∷ []
extend_first c (part ∷ rest) = (c ∷ part) ∷ rest

-- `searchStr.split('*')`
pub split_stars : Text → List Text
unfolding extend_first
split_stars [] = [] ∷ []
split_stars (c ∷ cs) = if is_star c then [] ∷ split_stars cs else extend_first c (split_stars cs)

-- `mask === '*' || mask === ''`
pub is_any : Text → Bool
is_any [] = true
is_any (c ∷ []) = is_star c
is_any (c ∷ d ∷ cs) = false

-- The parts of `foo*bar`, and the refusal of more.
pub two_parts : List Text → Result MaskObject
two_parts (a ∷ b ∷ []) = ok (record no_mask { parts = some (a ∷ b ∷ []) })
two_parts other = err three_parts

pub mask_of : (suffixed prefixed inner : Bool) → Text → Result MaskObject
unfolding two_parts split_stars
mask_of suffixed prefixed inner search =
    if inner && (prefixed || suffixed)
    then err inner_mask
    else if suffixed && not prefixed
    then ok (record no_mask { suffix = some search })
    else if not suffixed && prefixed
    then ok (record no_mask { prefix = some search })
    else if suffixed && prefixed
    then ok (record no_mask { contains_key = some search })
    else if not suffixed && not prefixed && not inner
    then ok (record no_mask { exact_key = some search })
    else two_parts (split_stars search)

abbrev pub any_mask : MaskObject
any_mask = record no_mask { any_key = some true }

pub parse_given : Text → Result MaskObject
unfolding mask_of is_any strip_first strip_last starts_starred ends_starred
parse_given mask =
    let search = strip_last (strip_first mask) in
    if is_any mask
    then ok any_mask
    else mask_of (starts_starred mask) (ends_starred mask) (any is_star search) search

-- `undefined` is `none`.
unfoldable pub parse_mask : Option Text → Result MaskObject
unfolding parse_given
parse_mask none = ok any_mask
parse_mask (some mask) = parse_given mask

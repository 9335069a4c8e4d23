-- ===== src/ElementPath/Print/Spells.antt =====
-- queryToString on the search options of a form.
use testring.Common.{Bool, none, some, ℕ, Option, [], ◌∷◌, ◌≡◌, ◌≢◌, refl}
use testring.ElementPath.Forms.{
  ends_sub_text, ends_sub, sub_text, query_text, search_object, sub_object, IsPlainQuery, Query,
  IsPlainSub, Mask, anything, prefixed, suffixed, containing, exactly, joined, Search, untold,
  contains, equals, IsPlainMask, IsPlainSearch, mask_text, search_text, or_nothing, mask_object,
  text_object,
}
use testring.ElementPath.{Text}
use testring.ElementPath.Query.{ends_mask, is_close}
use testring.ElementPath.Print.{
  sub_to_string, filled, join_stars, mask_to_string, texts_to_string, query_to_string,
}

filled-IsPlain : (t : Text) → t ≢ [] → filled (some t) ≡ some t
filled-IsPlain [] h = absurd (h refl)
filled-IsPlain (c ∷ cs) h = refl

module _ (stop : ℕ → Bool) where
  pub mask_to_string-mask_object :
      (m : Mask) → IsPlainMask stop m → mask_to_string (mask_object m) ≡ mask_text m
  unfolding mask_to_string join_stars
  mask_to_string-mask_object anything h = refl
  mask_to_string-mask_object (prefixed p) h = rw (filled-IsPlain p h.0) refl
  mask_to_string-mask_object (suffixed s) h = rw (filled-IsPlain s h.0) refl
  mask_to_string-mask_object (containing c) h = rw (filled-IsPlain c h.0) refl
  mask_to_string-mask_object (exactly e) h = rw (filled-IsPlain e h.0) refl
  mask_to_string-mask_object (joined a b) h = refl

  pub texts_to_string-text_object :
      (s : Search)
      → IsPlainSearch stop s
      → texts_to_string (text_object s) ≡ or_nothing (search_text s)
  unfolding texts_to_string
  texts_to_string-text_object untold h = refl
  texts_to_string-text_object (contains t) h = rw (filled-IsPlain t h.0) refl
  texts_to_string-text_object (equals t) h = rw (filled-IsPlain t h.0) refl

sub_to_string-sub_object :
    (o : Option (Mask × Search))
    → IsPlainSub o
    → sub_to_string (sub_object o) ≡ or_nothing (sub_text o)
sub_to_string-sub_object none h = refl
sub_to_string-sub_object (some (m, s)) h =
    rw (mask_to_string-mask_object ends_sub m h.0, texts_to_string-text_object ends_sub_text s h.1)
      refl

pub query_to_string-search_object :
    (q : Query) → IsPlainQuery q → query_to_string (search_object q) ≡ query_text q
unfolding query_to_string
query_to_string-search_object q h =
    rw
      (
        mask_to_string-mask_object ends_mask q.mask h.plain_mask,
        texts_to_string-text_object is_close q.search h.plain_search,
        sub_to_string-sub_object q.sub h.plain_sub,
      )
      refl

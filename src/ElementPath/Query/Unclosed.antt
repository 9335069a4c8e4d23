-- ===== src/ElementPath/Query/Unclosed.antt =====
-- packages/element-path/src/element-path.ts: a sub query whose text is not closed.
use testring.Common.{none, some, false, [], ◌∷◌, ◌++◌, ◌≡◌, refl, any}
use testring.ElementPath.Forms.{Mask, IsPlainMask, mask_text, mask_object}
use testring.ElementPath.Mask.{any_mask, parse_mask}
use testring.ElementPath.Query.Scan.{
  take_until-mask, drop_until-mask, any-mask_text, mask_text-ne-nil, sub_group_closed,
  drop_until_none,
}
use testring.ElementPath.Query.Matches.{group-ne_nil}
use testring.ElementPath.Query.Parsed.{sub_is_empty-cons, drop_last-append}
use testring.ElementPath.Mask.Plain.{append_cons-ne-nil, parse_mask-mask_text}
use testring.ElementPath.Query.{
  parse_sub_query, drop_first, close_text, parse_query_key, match_query, match_sub_query,
  text_group, take_until, drop_until, ends_mask, ends_sub_mask, is_close, is_close_sub,
}
use testring.ElementPath.{no_texts, no_search, Text, ok, text}

-- A mask, and a text that is opened and not closed.
abbrev pub unclosed : Text → Text → Text
unclosed mask t = mask ++ b'{' ∷ t

match_sub_query-unclosed :
    (mask t : Text)
    → any ends_sub_mask mask ≡ false
    → any is_close t ≡ false
    → match_sub_query (unclosed mask t)
      ≡ record { mask = none; text_search = none; sub_query = none }
unfolding match_sub_query text_group close_text take_until drop_until
match_sub_query-unclosed mask t free unended =
    rw (drop_until-mask ends_sub_mask mask (b'{' ∷ t) free refl, drop_until_none is_close t unended)
      refl

-- A sub query whose text is opened and not closed is not refused: the mask and the text in it are
-- dropped, and the query asks for an element with any descendant that has the attribute.
parse_query_key-unclosed :
    (m : Mask) (mask t : Text)
    → IsPlainMask ends_mask m
    → any ends_sub_mask mask ≡ false
    → any is_close t ≡ false
    → any is_close_sub (unclosed mask t) ≡ false
    → parse_query_key (text (mask_text m ++ b'(' ∷ (unclosed mask t ++ b')' ∷ [])))
      ≡ ok (record no_search {
        mask = mask_object m;
        sub_query = some (record { mask = any_mask; texts = no_texts });
      })
unfolding parse_query_key match_query parse_mask parse_sub_query drop_first text_group take_until
    drop_until
parse_query_key-unclosed m mask t h free unended closes =
    let inner = unclosed mask t in
    rw
      (
        take_until-mask ends_mask (mask_text m) _ (any-mask_text ends_mask m refl h) refl,
        drop_until-mask ends_mask (mask_text m) _ (any-mask_text ends_mask m refl h) refl,
        group-ne_nil (mask_text m) (mask_text-ne-nil ends_mask m h),
        sub_group_closed inner closes,
        parse_mask-mask_text ends_mask m h,
        sub_is_empty-cons b'(' b')' inner (append_cons-ne-nil mask b'{' t),
        drop_last-append inner b')',
        match_sub_query-unclosed mask t free unended,
      )
      refl

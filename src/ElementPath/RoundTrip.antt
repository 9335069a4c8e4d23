-- ===== src/ElementPath/RoundTrip.antt =====
-- packages/element-path/src/element-path.ts: reading back what queryToString prints.
use testring.Common.{◌≡◌, refl}
use testring.ElementPath.Forms.{Query, IsPlainQuery, search_object}
use testring.ElementPath.{ok, text}
use testring.ElementPath.Query.{is_close, ends_mask, parse_query_key}
use testring.ElementPath.Print.Spells.{query_to_string-search_object}
use testring.ElementPath.Mask.Plain.{parse_mask-mask_text}
use testring.ElementPath.Query.Matches.{match_query-query_text}
use testring.ElementPath.Query.Parsed.{parse_text_search-search_text, parse_sub-sub_text}
use testring.ElementPath.Print.{query_to_string}

-- parseQueryKey reads back every query that queryToString prints, when no mask or text in it is
-- empty or holds a character that would end it: the mask of a kind, the search for a text, and the
-- sub query with its own mask and text are those that were printed, and nothing else is set.
pub parse_query_key-query_to_string :
    (q : Query)
    → IsPlainQuery q
    → parse_query_key (text (query_to_string (search_object q))) ≡ ok (search_object q)
unfolding parse_query_key
parse_query_key-query_to_string q h =
    rw
      (
        query_to_string-search_object q h,
        match_query-query_text q h,
        parse_mask-mask_text ends_mask q.mask h.plain_mask,
        parse_text_search-search_text is_close q.search h.plain_search,
        parse_sub-sub_text q.sub h.plain_sub,
      )
      refl

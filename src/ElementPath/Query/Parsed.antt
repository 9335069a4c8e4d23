-- ===== src/ElementPath/Query/Parsed.antt =====
-- parseText and parseSubQuery on what queryToString prints.
use testring.Common.{Bool, none, some, false, ℕ, Option, [], ◌∷◌, ◌++◌, ◌≡◌, ◌≢◌, refl, ap}
use testring.ElementPath.Forms.{
  Mask, Search, untold, contains, equals, IsPlainSearch, mask_text, search_text, text_object,
  ends_sub, ends_sub_text, sub_inner, sub_text, IsPlainSub, sub_object,
}
use testring.ElementPath.{Text, ok}
use testring.ElementPath.Query.{
  parse_text, parse_sub_query, drop_last, drop_first, text_is_empty, text_contents, sub_is_empty,
  parse_text_search, parse_sub,
}
use testring.ElementPath.Query.Scan.{mask_text-ne-nil}
use testring.ElementPath.Query.Matches.{match_sub_query-sub_inner}
use testring.ElementPath.Mask.Plain.{parse_mask-mask_text}

pub drop_last-append : (t : Text) (c : ℕ) → drop_last (t ++ c ∷ []) ≡ t
unfolding drop_last
drop_last-append [] c = refl
drop_last-append (b ∷ []) c = refl
drop_last-append (b ∷ d ∷ cs) c = ap (◌∷◌ b) (drop_last-append (d ∷ cs) c)

text_is_empty-cons : (a c : ℕ) (t s : Text) → t ≢ [] → text_is_empty (a ∷ (t ++ c ∷ s)) ≡ false
unfolding text_is_empty
text_is_empty-cons a c [] s h = absurd (h refl)
text_is_empty-cons a c (b ∷ []) s h = refl
text_is_empty-cons a c (b ∷ d ∷ cs) s h = refl

text_is_empty-equals : (t : Text) (c : ℕ) → text_is_empty (b'=' ∷ b'{' ∷ (t ++ c ∷ [])) ≡ false
unfolding text_is_empty
text_is_empty-equals [] c = refl
text_is_empty-equals (b ∷ cs) c = refl

pub sub_is_empty-cons : (a c : ℕ) (t : Text) → t ≢ [] → sub_is_empty (a ∷ (t ++ c ∷ [])) ≡ false
unfolding sub_is_empty
sub_is_empty-cons a c [] h = absurd (h refl)
sub_is_empty-cons a c (b ∷ []) h = refl
sub_is_empty-cons a c (b ∷ d ∷ cs) h = refl

text_contents-contains :
    (t : Text) → t ≢ [] → text_contents (b'{' ∷ (t ++ b'}' ∷ [])) ≡ text_object (contains t)
unfolding text_contents
text_contents-contains [] h = absurd (h refl)
text_contents-contains (c ∷ cs) h = rw (drop_last-append (c ∷ cs) b'}') refl

pub parse_text_search-search_text :
    (stop : ℕ → Bool) (s : Search)
    → IsPlainSearch stop s
    → parse_text_search (search_text s) ≡ ok (text_object s)
unfolding parse_text text_contents
parse_text_search-search_text stop untold h = refl
parse_text_search-search_text stop (contains t) h =
    rw (text_is_empty-cons b'{' b'}' t [] h.0) (ap ok (text_contents-contains t h.0))
parse_text_search-search_text stop (equals t) h =
    rw (text_is_empty-equals t b'}', drop_last-append t b'}') refl

append-ne-nil : (t s : Text) → t ≢ [] → t ++ s ≢ []
append-ne-nil [] s h e = h refl
append-ne-nil (c ∷ t) s h e = cc

pub parse_sub-sub_text :
    (o : Option (Mask × Search)) → IsPlainSub o → parse_sub (sub_text o) ≡ ok (sub_object o)
unfolding parse_sub_query drop_first
parse_sub-sub_text none h = refl
parse_sub-sub_text (some (m, s)) h =
    rw
      (
        sub_is_empty-cons b'(' b')' (sub_inner m s)
            (append-ne-nil (mask_text m) _ (mask_text-ne-nil ends_sub m h.0)),
        drop_last-append (sub_inner m s) b')',
        match_sub_query-sub_inner m s h,
        parse_mask-mask_text ends_sub m h.0,
        parse_text_search-search_text ends_sub_text s h.1,
      )
      refl

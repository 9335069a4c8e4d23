-- ===== src/ElementPath/Query/Matches.antt =====
-- What QUERY_RE and SUB_QUERY_RE make of a printed query.
use testring.Common.{none, some, [], ◌∷◌, ◌≡◌, ◌≢◌, refl, arith, inl, append-nil}
use testring.ElementPath.Forms.{
  Mask, Search, untold, contains, equals, IsPlainSearch, mask_text, search_text, or_nothing,
  ends_sub, ends_sub_text, sub_inner, sub_text, query_text, Query, IsPlainSub, IsPlainQuery,
}
use testring.ElementPath.{Text}
use testring.ElementPath.Query.{
  is_close, ends_mask, ends_sub_mask, group, match_query, match_sub_query,
}
use testring.ElementPath.Query.Scan.{
  take_until-mask, drop_until-mask, Follows-sub_text, any-weaken, any-mask_text, mask_text-ne-nil,
  ends_mask-behind, ends_sub_mask-behind, sub_group-sub_text, text_group-search_text,
}

pub group-ne_nil : (t : Text) → t ≢ [] → group t ≡ some t
group-ne_nil [] h = absurd (h refl)
group-ne_nil (c ∷ cs) h = refl

pub match_query-query_text :
    (q : Query)
    → IsPlainQuery q
    → match_query (query_text q)
      ≡ some (record {
        mask = some (mask_text q.mask);
        text_search = search_text q.search;
        sub_query = sub_text q.sub;
      })
unfolding match_query
match_query-query_text q h =
    let rest = or_nothing (sub_text q.sub) in
    let follows = Follows-sub_text q.sub in
    let behind = ends_mask-behind q.search rest follows in
    let free = any-mask_text ends_mask q.mask refl h.plain_mask in
    rw
      (
        take_until-mask ends_mask (mask_text q.mask) _ free behind.0,
        drop_until-mask ends_mask (mask_text q.mask) _ free behind.1,
        group-ne_nil (mask_text q.mask) (mask_text-ne-nil ends_mask q.mask h.plain_mask),
        text_group-search_text q.search rest h.plain_search follows,
        sub_group-sub_text q.sub h.plain_sub,
      )
      refl

-- A text within a sub query is closed by the same brace.
IsPlainSearch-sub : (s : Search) → IsPlainSearch ends_sub_text s → IsPlainSearch is_close s
IsPlainSearch-sub untold h = tt
IsPlainSearch-sub (contains t) h =
    (h.0, any-weaken is_close ends_sub_text (λ c e. ground arith) t h.1)
IsPlainSearch-sub (equals t) h =
    (h.0, any-weaken is_close ends_sub_text (λ c e. ground arith) t h.1)

pub match_sub_query-sub_inner :
    (m : Mask) (s : Search)
    → IsPlainSub (some (m, s))
    → match_sub_query (sub_inner m s)
      ≡ record { mask = some (mask_text m); text_search = search_text s; sub_query = none }
unfolding match_sub_query
match_sub_query-sub_inner m s h =
    let free =
      any-weaken ends_sub_mask ends_sub (λ c e. ground arith) (mask_text m)
        (any-mask_text ends_sub m refl h.0) in
    let behind = ends_sub_mask-behind s in
    let grouped = text_group-search_text s [] (IsPlainSearch-sub s h.1) (inl refl) in
    rw
      (
        take_until-mask ends_sub_mask (mask_text m) _ free behind.0,
        drop_until-mask ends_sub_mask (mask_text m) _ free behind.1,
        ← append-nil (or_nothing (search_text s)),
        grouped,
      )
      refl

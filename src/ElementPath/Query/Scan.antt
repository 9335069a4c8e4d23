-- ===== src/ElementPath/Query/Scan.antt =====
-- What the scanners take of a printed query.
use testring.Common.{
  append-nil, ◌∙◌, ◌⊎◌, any-append, Bool, none, some, true, false, ℕ, Option, [], ◌∷◌, ◌++◌, ◌≡◌,
  ◌≢◌, refl, arith, any, inl, inr,
}
use testring.ElementPath.{Text}
use testring.ElementPath.Mask.Plain.{append_cons-ne-nil}
use testring.ElementPath.Query.{
  close_sub, text_after_equals, close_text, take_until, drop_until, is_close, is_close_sub,
  ends_mask, ends_sub_mask, text_group, sub_group,
}
use testring.ElementPath.Forms.{
  ends_sub, ends_sub_text, sub_inner, sub_text, IsPlainSub, Mask, anything, prefixed, suffixed,
  containing, exactly, joined, Search, untold, contains, equals, IsPlainMask, IsPlainSearch,
  mask_text, search_text, or_nothing,
}

module _ (stop : ℕ → Bool) where
  take_until-append :
      (t rest : Text) → any stop t ≡ false → take_until stop (t ++ rest) ≡ t ++ take_until stop rest
  unfolding take_until
  take_until-append [] rest h = refl
  take_until-append (c ∷ cs) rest h = ground (arith, take_until-append cs rest)

  drop_until-append :
      (t rest : Text) → any stop t ≡ false → drop_until stop (t ++ rest) ≡ drop_until stop rest
  unfolding drop_until
  drop_until-append [] rest h = refl
  drop_until-append (c ∷ cs) rest h = ground (arith, drop_until-append cs rest)

pub any-weaken :
    (stop wider : ℕ → Bool)
    → ((c : ℕ) → stop c ≡ true → wider c ≡ true)
    → (t : Text) → any wider t ≡ false
    → any stop t ≡ false
any-weaken stop wider sub [] h = refl
any-weaken stop wider sub (c ∷ cs) h = ground (arith, any-weaken stop wider sub cs, sub c)

pub mask_text-ne-nil : (stop : ℕ → Bool) (m : Mask) → IsPlainMask stop m → mask_text m ≢ []
mask_text-ne-nil stop anything h e = cc
mask_text-ne-nil stop (prefixed p) h e = append_cons-ne-nil p b'*' [] e
mask_text-ne-nil stop (suffixed s) h e = cc
mask_text-ne-nil stop (containing s) h e = cc
mask_text-ne-nil stop (exactly t) h e = h.0 e
mask_text-ne-nil stop (joined a b) h e = append_cons-ne-nil a b'*' b e

pub any-mask_text :
    (stop : ℕ → Bool) (m : Mask)
    → stop b'*' ≡ false
    → IsPlainMask stop m
    → any stop (mask_text m) ≡ false
any-mask_text stop anything k h = ground arith
any-mask_text stop (prefixed p) k h = ground (arith, any-append stop p (b'*' ∷ []))
any-mask_text stop (suffixed s) k h = ground arith
any-mask_text stop (containing s) k h = ground (arith, any-append stop s (b'*' ∷ []))
any-mask_text stop (exactly t) k h = h.1
any-mask_text stop (joined a b) k h = ground (arith, any-append stop a (b'*' ∷ b))

-- A group up to its closing character, with anything behind it.
take_until_closed :
    (stop : ℕ → Bool) (t : Text) (c : ℕ) (rest : Text)
    → any stop t ≡ false
    → stop c ≡ true
    → take_until stop ((t ++ c ∷ []) ++ rest) ≡ t
unfolding take_until
take_until_closed stop [] c rest h k = ground arith
take_until_closed stop (b ∷ t) c rest h k = ground (arith, take_until_closed stop t c rest)

drop_until_closed :
    (stop : ℕ → Bool) (t : Text) (c : ℕ) (rest : Text)
    → any stop t ≡ false
    → stop c ≡ true
    → drop_until stop ((t ++ c ∷ []) ++ rest) ≡ c ∷ rest
unfolding drop_until
drop_until_closed stop [] c rest h k = ground arith
drop_until_closed stop (b ∷ t) c rest h k = ground (arith, drop_until_closed stop t c rest)

-- What may stand behind the search for a text.
abbrev pub Follows : Text → Type 0
Follows rest = (rest ≡ []) ⊎ ((cs : Text) × (rest ≡ b'(' ∷ cs))

pub text_group-search_text :
    (s : Search) (rest : Text)
    → IsPlainSearch is_close s
    → Follows rest
    → text_group (or_nothing (search_text s) ++ rest) ≡ (search_text s, rest)
unfolding text_group text_after_equals close_text
text_group-search_text untold rest h (inl e) = rw e refl
text_group-search_text untold rest h (inr (cs, e)) = rw e refl
text_group-search_text (contains t) rest h f =
    rw
      (
        take_until_closed is_close t b'}' rest h.1 refl,
        drop_until_closed is_close t b'}' rest h.1 refl,
      )
      refl
text_group-search_text (equals t) rest h f =
    rw
      (
        take_until_closed is_close t b'}' rest h.1 refl,
        drop_until_closed is_close t b'}' rest h.1 refl,
      )
      refl

-- A mask is taken whole where what follows begins with a character that ends it.
pub take_until-mask :
    (stop : ℕ → Bool) (t rest : Text)
    → any stop t ≡ false
    → take_until stop rest ≡ []
    → take_until stop (t ++ rest) ≡ t
take_until-mask stop t rest h k = take_until-append stop t rest h ∙ rw k (append-nil t)

pub drop_until-mask :
    (stop : ℕ → Bool) (t rest : Text)
    → any stop t ≡ false
    → drop_until stop rest ≡ rest
    → drop_until stop (t ++ rest) ≡ rest
drop_until-mask stop t rest h k = drop_until-append stop t rest h ∙ k

pub Follows-sub_text : (o : Option (Mask × Search)) → Follows (or_nothing (sub_text o))
Follows-sub_text none = inl refl
Follows-sub_text (some (m, s)) = inr (sub_inner m s ++ b')' ∷ [], refl)

-- The search for a text, or the sub query, or the end, ends the mask.
pub ends_mask-behind :
    (s : Search) (rest : Text)
    → Follows rest
    → (take_until ends_mask (or_nothing (search_text s) ++ rest) ≡ [])
      × (drop_until ends_mask (or_nothing (search_text s) ++ rest)
          ≡ or_nothing (search_text s) ++ rest)
unfolding take_until drop_until
ends_mask-behind untold rest (inl e) = rw e (refl, refl)
ends_mask-behind untold rest (inr (cs, e)) = rw e (refl, refl)
ends_mask-behind (contains t) rest f = (refl, refl)
ends_mask-behind (equals t) rest f = (refl, refl)

pub ends_sub_mask-behind :
    (s : Search)
    → (take_until ends_sub_mask (or_nothing (search_text s)) ≡ [])
      × (drop_until ends_sub_mask (or_nothing (search_text s)) ≡ or_nothing (search_text s))
unfolding take_until drop_until
ends_sub_mask-behind untold = (refl, refl)
ends_sub_mask-behind (contains t) = (refl, refl)
ends_sub_mask-behind (equals t) = (refl, refl)

any-sub_inner :
    (m : Mask) (s : Search) → IsPlainSub (some (m, s)) → any is_close_sub (sub_inner m s) ≡ false
any-sub_inner m untold h = rw (append-nil (mask_text m)) (
    any-weaken is_close_sub ends_sub (λ c e. ground arith) (mask_text m)
      (any-mask_text ends_sub m refl h.0))
any-sub_inner m (contains t) h = ground (
  arith,
  any-append is_close_sub (mask_text m) (b'{' ∷ (t ++ b'}' ∷ [])),
  any-append is_close_sub t (b'}' ∷ []),
  any-mask_text ends_sub m refl h.0,
  any-weaken is_close_sub ends_sub (λ (c : ℕ) (e : is_close_sub c ≡ true). ground arith)
      (mask_text m),
  any-weaken is_close_sub ends_sub_text (λ (c : ℕ) (e : is_close_sub c ≡ true). ground arith) t
      h.1.1,
)
any-sub_inner m (equals t) h = ground (
  arith,
  any-append is_close_sub (mask_text m) (b'=' ∷ b'{' ∷ (t ++ b'}' ∷ [])),
  any-append is_close_sub t (b'}' ∷ []),
  any-mask_text ends_sub m refl h.0,
  any-weaken is_close_sub ends_sub (λ (c : ℕ) (e : is_close_sub c ≡ true). ground arith)
      (mask_text m),
  any-weaken is_close_sub ends_sub_text (λ (c : ℕ) (e : is_close_sub c ≡ true). ground arith) t
      h.1.1,
)

pub sub_group_closed :
    (inner : Text)
    → any is_close_sub inner ≡ false
    → sub_group (b'(' ∷ (inner ++ b')' ∷ [])) ≡ some (some (b'(' ∷ (inner ++ b')' ∷ [])))
unfolding sub_group close_sub
sub_group_closed inner plain =
    rw
      (
        ← append-nil (inner ++ b')' ∷ []),
        take_until_closed is_close_sub inner b')' [] plain refl,
        drop_until_closed is_close_sub inner b')' [] plain refl,
      )
      (rw append-nil refl)

pub sub_group-sub_text :
    (o : Option (Mask × Search))
    → IsPlainSub o
    → sub_group (or_nothing (sub_text o)) ≡ some (sub_text o)
unfolding sub_group
sub_group-sub_text none h = refl
sub_group-sub_text (some (m, s)) h = sub_group_closed (sub_inner m s) (any-sub_inner m s h)

pub drop_until_none : (stop : ℕ → Bool) (t : Text) → any stop t ≡ false → drop_until stop t ≡ []
unfolding drop_until
drop_until_none stop [] h = refl
drop_until_none stop (c ∷ cs) h = ground (arith, drop_until_none stop cs)

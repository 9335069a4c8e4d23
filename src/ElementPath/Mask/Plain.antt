-- ===== src/ElementPath/Mask/Plain.antt =====
-- parseMask on the text of a plain mask.
use testring.Common.{
  any-append, Bool, some, true, false, ℕ, [], ◌∷◌, ◌++◌, ◌≡◌, ◌≢◌, refl, ap, arith, any,
}
use testring.ElementPath.Forms.{
  Mask, anything, prefixed, suffixed, containing, exactly, joined, IsPlain, IsPlainMask, mask_text,
  mask_object,
}
use testring.ElementPath.{Text, is_star, ok}
use testring.ElementPath.Mask.{
  strip_first, strip_last, starts_starred, ends_starred, extend_first, split_stars, is_any,
  two_parts, mask_of, parse_given, parse_mask,
}

strip_last-append : (t : Text) → strip_last (t ++ b'*' ∷ []) ≡ t
unfolding strip_last
strip_last-append [] = refl
strip_last-append (c ∷ []) = refl
strip_last-append (c ∷ d ∷ cs) = ap (◌∷◌ c) (strip_last-append (d ∷ cs))

ends_starred-append : (t : Text) → ends_starred (t ++ b'*' ∷ []) ≡ true
unfolding ends_starred
ends_starred-append [] = refl
ends_starred-append (c ∷ []) = refl
ends_starred-append (c ∷ d ∷ cs) = ends_starred-append (d ∷ cs)

strip_last_plain : (t : Text) → any is_star t ≡ false → strip_last t ≡ t
unfolding strip_last
strip_last_plain [] h = refl
strip_last_plain (c ∷ []) h = ground arith
strip_last_plain (c ∷ d ∷ cs) h = ap (◌∷◌ c) (strip_last_plain (d ∷ cs) (ground arith))

ends_starred_plain : (t : Text) → any is_star t ≡ false → ends_starred t ≡ false
unfolding ends_starred
ends_starred_plain [] h = refl
ends_starred_plain (c ∷ []) h = ground arith
ends_starred_plain (c ∷ d ∷ cs) h = ends_starred_plain (d ∷ cs) (ground arith)

pub append_cons-ne-nil : (t : Text) (c : ℕ) (s : Text) → t ++ c ∷ s ≢ []
append_cons-ne-nil [] c s e = cc
append_cons-ne-nil (d ∷ t) c s e = cc

-- What stands behind the star decides how the whole ends.
ends_starred-append_plain :
    (a b : Text) → b ≢ [] → any is_star b ≡ false → ends_starred (a ++ b'*' ∷ b) ≡ false
unfolding ends_starred
ends_starred-append_plain a [] ne h = absurd (ne refl)
ends_starred-append_plain [] (d ∷ b) ne h = ends_starred_plain (d ∷ b) h
ends_starred-append_plain (c ∷ []) (d ∷ b) ne h = ends_starred_plain (d ∷ b) h
ends_starred-append_plain (c ∷ e ∷ a) (d ∷ b) ne h = ends_starred-append_plain (e ∷ a) (d ∷ b) ne h

strip_last-append_plain :
    (a b : Text) → b ≢ [] → any is_star b ≡ false → strip_last (a ++ b'*' ∷ b) ≡ a ++ b'*' ∷ b
unfolding strip_last
strip_last-append_plain a [] ne h = absurd (ne refl)
strip_last-append_plain [] (d ∷ b) ne h = ap (◌∷◌ b'*') (strip_last_plain (d ∷ b) h)
strip_last-append_plain (c ∷ []) (d ∷ b) ne h = ap (λ r. c ∷ b'*' ∷ r) (strip_last_plain (d ∷ b) h)
strip_last-append_plain (c ∷ e ∷ a) (d ∷ b) ne h =
    ap (◌∷◌ c) (strip_last-append_plain (e ∷ a) (d ∷ b) ne h)

split_stars_plain : (t : Text) → any is_star t ≡ false → split_stars t ≡ t ∷ []
unfolding split_stars extend_first
split_stars_plain [] h = refl
split_stars_plain (c ∷ cs) h = ground (arith, split_stars_plain cs)

split_stars-append :
    (a b : Text)
    → any is_star a ≡ false
    → any is_star b ≡ false
    → split_stars (a ++ b'*' ∷ b) ≡ a ∷ b ∷ []
unfolding split_stars extend_first
split_stars-append [] b h k = ground (arith, split_stars_plain b k)
split_stars-append (c ∷ cs) b h k = ground (arith, split_stars-append cs b)

is_any-cons : (c : ℕ) (t : Text) → t ≢ [] → is_any (c ∷ t) ≡ false
unfolding is_any
is_any-cons c [] h = absurd (h refl)
is_any-cons c (d ∷ cs) h = refl

module _ (stop : ℕ → Bool) where
  parse_prefixed :
      (p : Text) → IsPlain stop p → parse_given (p ++ b'*' ∷ []) ≡ ok (mask_object (prefixed p))
  unfolding parse_given mask_of starts_starred strip_first
  parse_prefixed [] h = absurd (h.0 refl)
  parse_prefixed (c ∷ cs) h = ground (
    arith,
    is_any-cons c (cs ++ b'*' ∷ []) (append_cons-ne-nil cs b'*' []),
    ends_starred-append (c ∷ cs),
    strip_last-append (c ∷ cs),
  )

  parse_suffixed :
      (s : Text) → IsPlain stop s → parse_given (b'*' ∷ s) ≡ ok (mask_object (suffixed s))
  unfolding parse_given mask_of starts_starred strip_first ends_starred
  parse_suffixed [] h = absurd (h.0 refl)
  parse_suffixed (c ∷ cs) h = ground (
    arith,
    is_any-cons b'*' (c ∷ cs) h.0,
    ends_starred_plain (c ∷ cs) h.2,
    strip_last_plain (c ∷ cs) h.2,
  )

  parse_containing :
      (s : Text)
      → IsPlain stop s
      → parse_given (b'*' ∷ (s ++ b'*' ∷ [])) ≡ ok (mask_object (containing s))
  unfolding parse_given mask_of starts_starred strip_first
  parse_containing s h = ground (
    arith,
    is_any-cons b'*' (s ++ b'*' ∷ []) (append_cons-ne-nil s b'*' []),
    ends_starred-append (b'*' ∷ s),
    strip_last-append s,
  )

  parse_exactly : (e : Text) → IsPlain stop e → parse_given e ≡ ok (mask_object (exactly e))
  unfolding parse_given mask_of starts_starred strip_first is_any
  parse_exactly [] h = absurd (h.0 refl)
  parse_exactly (c ∷ []) h =
      ground (arith, ends_starred_plain (c ∷ []) h.2, strip_last_plain (c ∷ []) h.2)
  parse_exactly (c ∷ d ∷ cs) h =
      ground (arith, ends_starred_plain (c ∷ d ∷ cs) h.2, strip_last_plain (c ∷ d ∷ cs) h.2)

  parse_joined :
      (a b : Text)
      → IsPlain stop a
      → IsPlain stop b
      → parse_given (a ++ b'*' ∷ b) ≡ ok (mask_object (joined a b))
  unfolding parse_given mask_of starts_starred strip_first two_parts
  parse_joined [] b h k = absurd (h.0 refl)
  parse_joined (c ∷ cs) b h k = ground (
    arith,
    is_any-cons c (cs ++ b'*' ∷ b) (append_cons-ne-nil cs b'*' b),
    ends_starred-append_plain (c ∷ cs) b k.0 k.2,
    strip_last-append_plain (c ∷ cs) b k.0 k.2,
    any-append is_star (c ∷ cs) (b'*' ∷ b),
    split_stars-append (c ∷ cs) b h.2 k.2,
  )

  pub parse_mask-mask_text :
      (m : Mask) → IsPlainMask stop m → parse_mask (some (mask_text m)) ≡ ok (mask_object m)
  unfolding parse_mask mask_of is_any
  parse_mask-mask_text anything h = refl
  parse_mask-mask_text (prefixed p) h = parse_prefixed p h
  parse_mask-mask_text (suffixed s) h = parse_suffixed s h
  parse_mask-mask_text (containing c) h = parse_containing c h
  parse_mask-mask_text (exactly e) h = parse_exactly e h
  parse_mask-mask_text (joined a b) h = parse_joined a b h.0 h.1

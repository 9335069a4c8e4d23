-- ===== src/Queue/Laws.antt =====
-- core/utils/src/queue.ts: what the removals keep and return, and the order of service.
use mathlib.Core.List.{Perm, perm_middle}
use mathlib.Core.List.Perm
use testring.Common.{
  ℕ, zero, suc, ◌+◌, ◌≡◌, refl, ap, ◌∙◌, Bool, not, none, some, List, [], ◌∷◌, ◌++◌, length, count,
  keep, arith, inl, inr, Bool-cases, append-nil, append_assoc, count-not, length-keep,
}
use testring.Queue.{Queue, push, shift, filter_from, remove, extract_from, extract, size}

module _ {ℓ} {A : Type ℓ} where
  length-filter_from :
      (i : ℕ) (fn : A → ℕ → Bool) (xs : List A)
      → length (filter_from i fn xs) + length (filter_from i (λ x j. not (fn x j)) xs) ≡ length xs
  unfolding filter_from
  length-filter_from i fn [] = omega arith
  length-filter_from i fn (x ∷ xs) = ground (arith, length-filter_from (i + 1) fn xs)

  -- The two accumulators of the loop receive what the test accepts and what it refuses.
  extract_from-filter_from :
      (i : ℕ) (fn : A → ℕ → Bool) (result rest xs : List A)
      → extract_from i fn result rest xs
        ≡ (result ++ filter_from i fn xs, rest ++ filter_from i (λ x j. not (fn x j)) xs)
  unfolding extract_from filter_from
  extract_from-filter_from i fn result rest [] = simp append-nil
  extract_from-filter_from i fn result rest (x ∷ xs) = elim (Bool-cases (fn x i)) [
    | inl e ↦
        rw e (extract_from-filter_from (i + 1) fn (result ++ x ∷ []) rest xs ∙ simp append_assoc)
    | inr e ↦
        rw e (extract_from-filter_from (i + 1) fn result (rest ++ x ∷ []) xs ∙ simp append_assoc)
  ]

  pub extract-filter_from :
      (fn : A → ℕ → Bool) (q : Queue A)
      → extract fn q
        ≡ (filter_from 0 fn q.array, record { array = filter_from 0 (λ x j. not (fn x j)) q.array })
  unfolding extract
  extract-filter_from fn q =
      let e = extract_from-filter_from 0 fn [] [] q.array in
      λ i. ((e i).0, record { array = (e i).1 })

  filter_from-perm :
      (i : ℕ) (fn : A → ℕ → Bool) (xs : List A)
      → Perm xs (filter_from i fn xs ++ filter_from i (λ x j. not (fn x j)) xs)
  unfolding filter_from
  filter_from-perm i fn [] = Perm.nil
  filter_from-perm i fn (x ∷ xs) =
      let rest = Perm.cons x (filter_from-perm (i + 1) fn xs) in
      elim (Bool-cases (fn x i)) [
        | inl e ↦ rw e rest
        | inr e ↦ rw e (Perm.trans rest (Perm.symm (perm_middle (filter_from (i + 1) fn xs) _)))
      ]

  -- `extract` loses and invents nothing: the items that it returns and those that it leaves are
  -- together the items that were queued, and `remove` with the same test leaves the same queue and
  -- returns the number of items that `extract` returns.
  pub extract-perm :
      (fn : A → ℕ → Bool) (q : Queue A)
      → Perm q.array ((extract fn q).0 ++ (extract fn q).1.array)
        × (remove fn q ≡ (length (extract fn q).0, (extract fn q).1))
  unfolding remove
  extract-perm fn q =
      let e = extract-filter_from fn q in
      (
        rw e (filter_from-perm 0 fn q.array),
        rw e (
            ap (λ n. (n, record { array = filter_from 0 (λ x j. not (fn x j)) q.array }))
              (omega (arith, length-filter_from 0 fn q.array))),
      )

  -- With a test that ignores the index the filter is `keep`.
  pub filter_from-keep :
      (i : ℕ) (p : A → Bool) (xs : List A) → filter_from i (λ x _. p x) xs ≡ keep p xs
  unfolding filter_from
  filter_from-keep i p [] = refl
  filter_from-keep i p (x ∷ xs) = ground (arith, filter_from-keep (i + 1) p xs)

  pub extract-keep :
      (p : A → Bool) (q : Queue A)
      → extract (λ x _. p x) q ≡ (keep p q.array, record { array = keep (λ x. not (p x)) q.array })
  extract-keep p q = extract-filter_from (λ x _. p x) q ∙ (λ i. (
    filter_from-keep 0 p q.array i,
    record { array = filter_from-keep 0 (λ x. not (p x)) q.array i },
  ))

  pub remove-keep :
      (p : A → Bool) (q : Queue A)
      → remove (λ x _. p x) q ≡ (count p q.array, record { array = keep (λ x. not (p x)) q.array })
  unfolding remove
  remove-keep p q = rw (filter_from-keep 0 (λ x. not (p x)) q.array) (
      ap (λ n. (n, record { array = keep (λ x. not (p x)) q.array }))
        (omega (arith, count-not p q.array, length-keep (λ x. not (p x)) q.array)))

  -- `n` calls of `shift`: the items that they return, and the queue that is left.
  pub serve : ℕ → Queue A → List A × Queue A
  unfolding shift
  serve zero q = ([], q)
  serve (suc n) q =
      let (first, rest) = shift q in
      elim first [
        | none ↦ ([], rest)
        | some x ↦ let (later, left) = serve n rest in (x ∷ later, left)
      ]

  serve_front :
      (xs ys : List A)
      → serve (length xs) (record { array = xs ++ ys }) ≡ (xs, record { array = ys })
  unfolding serve
  serve_front [] ys = refl
  serve_front (x ∷ xs) ys = ground (arith, serve_front xs ys)

  -- First in, first out: items pushed behind a queue are served after all that were there before,
  -- and those come out in the order in which they were queued.
  serve-push :
      (q : Queue A) (ys : List A) → serve (size q) (push ys q) ≡ (q.array, record { array = ys })
  unfolding push size
  serve-push q ys = serve_front q.array ys

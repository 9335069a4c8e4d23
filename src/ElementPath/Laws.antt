-- ===== src/ElementPath/Laws.antt =====
-- packages/element-path/src/element-path.ts: what the children of an element are.
use testring.Common.{
  sym, ◌∙◌, none, some, true, Option, List, [], ◌∷◌, ◌++◌, ◌≡◌, ◌⊎◌, inl, inr, refl, ap, arith,
  append_assoc, append-nil, Bool-cases,
}
use testring.ElementPath.{
  only_sub_query, Refusal, Refusal, Text, ok, err, Result, Key, text, SearchObject, TextObject,
  SubQuery, MaskObject, no_search, ◌>>=◌,
}
use testring.ElementPath.Query.{
  key_text, parse_query_key, Match, only_sub, parse_match, parse_text_search, parse_sub,
  match_query,
}
use testring.ElementPath.Mask.{parse_mask}
use testring.ElementPath.Xpath.{search_query_xpath}
use testring.ElementPath.Chain.{
  mask_of_options, node_xpath, Node, ElementPath, node, below, new_element_path,
  get_element_path_chain, to_string, join_all, link, NodePath, default_attribute,
}
use testring.ElementPath.Children.{
  generate_child_elements_path, generate_child_element_path_by_options, integer_key,
}

Result-cases {ℓ} :
    {A : Type ℓ} (r : Result A) → ((a : A) × (r ≡ ok a)) ⊎ ((e : Refusal) × (r ≡ err e))
Result-cases (ok a) = inl (a, refl)
Result-cases (err e) = inr (e, refl)

pub join_all-append {ℓ} :
    {A : Type ℓ} (f : A → Text) (xs ys : List A)
    → join_all f (xs ++ ys) ≡ join_all f xs ++ join_all f ys
unfolding join_all
join_all-append f [] ys = refl
join_all-append f (x ∷ xs) ys = rw (join_all-append f xs ys) (sym (append_assoc (f x) _ _))

-- A parsed key sets neither an index nor an xpath.
abbrev pub IsUnplaced : SearchObject → Type 0
IsUnplaced q = (q.index ≡ none) × (q.xpath ≡ none)

bound-IsUnplaced :
    (mask : Result MaskObject) (texts : Result TextObject) (sub : Result (Option SubQuery))
    {q : SearchObject}
    → (mask >>= λ m.
        texts >>= λ t. sub >>= λ s. ok (record no_search { mask = m; texts = t; sub_query = s }))
      ≡ ok q
    → IsUnplaced q
bound-IsUnplaced (ok m) (ok t) (ok s) h = ground arith
bound-IsUnplaced (ok m) (ok t) (err e) h = cc
bound-IsUnplaced (ok m) (err e) sub h = cc
bound-IsUnplaced (err e) texts sub h = cc

pub parse_match-IsUnplaced :
    (m : Option Match) {q : SearchObject} → parse_match m ≡ ok q → IsUnplaced q
parse_match-IsUnplaced none h = cc
parse_match-IsUnplaced (some m) {q} h = elim (Bool-cases (only_sub m)) [
  | inl e ↦ let no : err only_sub_query ≡ ok q = rw e at h in cc
  | inr e ↦
      bound-IsUnplaced (parse_mask m.mask) (parse_text_search m.text_search) (parse_sub m.sub_query)
        (rw e at h)
]

pub parse_query_key-IsUnplaced :
    (key : Key) {q : SearchObject} → parse_query_key key ≡ ok q → IsUnplaced q
unfolding parse_query_key
parse_query_key-IsUnplaced key h = parse_match-IsUnplaced (match_query (key_text key)) h

-- The chain of an element whose xpath is known.
chain_of_to_string :
    (r : Result (List NodePath)) {s : Text}
    → (r >>= λ chain. ok (join_all (λ (n : NodePath). n.xpath) chain)) ≡ ok s
    → (chain : List NodePath) × (r ≡ ok chain) × (join_all (λ (n : NodePath). n.xpath) chain ≡ s)
chain_of_to_string (ok chain) h = (chain, refl, cc)
chain_of_to_string (err e) h = cc

to_string-below :
    (p : ElementPath) (n : Node) {s x : Text}
    → to_string true p ≡ ok s
    → node_xpath n ≡ ok x
    → to_string true (below p n) ≡ ok (s ++ x)
unfolding to_string get_element_path_chain link
to_string-below p n {s} {x} h k =
    let (chain, found, printed) = chain_of_to_string (get_element_path_chain p) h in
    rw (found, k)
      (ap ok (
        join_all-append (λ (n : NodePath). n.xpath) chain (link n x ∷ [])
        ∙ rw printed (unfold join_all in ap (λ r. s ++ r) (append-nil x))))

abbrev pub child_node : ElementPath → SearchObject → Node
child_node p q = record {
  flows = (node p).flows;
  attribute_name = default_attribute;
  search_mask = mask_of_options q;
  search_options = q;
}

-- A key that is no number selects, below an element, what its own search finds there: the child
-- stands below the element with the parsed search and the flows of the element, and its xpath is
-- the xpath of the element followed by the xpath of the search.
pub generate_child_elements_path-to_string :
    (p : ElementPath) (key : Text) {q : SearchObject} {s x : Text}
    → integer_key (text key) ≡ none
    → parse_query_key (text key) ≡ ok q
    → search_query_xpath default_attribute q ≡ ok x
    → to_string true p ≡ ok s
    → (generate_child_elements_path (text key) p ≡ ok (below p (child_node p q)))
      × (to_string true (below p (child_node p q)) ≡ ok (s ++ x))
unfolding generate_child_elements_path generate_child_element_path_by_options new_element_path
generate_child_elements_path-to_string p key {q} {s} {x} word parsed located printed =
    let (no_index, no_xpath) = parse_query_key-IsUnplaced (text key) parsed in
    (rw (word, parsed, no_index, no_xpath) refl, to_string-below p (child_node p q) printed located)

-- ===== src/ElementPath/Slices.antt =====
-- packages/element-path/src/element-path.ts: an element selected by its index, and what each way of
-- generating a child keeps of its parent.
use testring.Common.{
  Bool, none, some, true, false, Option, List, [], ◌∷◌, ◌++◌, ◌≡◌, inl, inr, refl, ap, arith, sym,
  ◌∙◌, Option-cases,
}
use testring.ElementPath.{
  not_enumerable, already_sliced, Number, Text, ok, err, Result, Key, text, SearchObject, no_search,
  ◌>>=◌,
}
use testring.ElementPath.Xpath.{search_query_xpath}
use testring.ElementPath.Laws.{join_all-append}
use testring.ElementPath.Query.{parse_query_key, key_text}
use testring.ElementPath.Chain.{
  first_only, mask_of_options, ElementPath, node, top, below, new_element_path,
  get_element_path_chain, to_string, join_all, link, NodePath, default_attribute, Node,
}
use testring.ElementPath.Children.{
  split_dots, located_below, by_xpath, descend, locate, XpathLocator, generate_child_elements_path,
  generate_child_element_path_by_options, generate_child_by_xpath, generate_child_by_locator,
  integer_key, slice, merged, child_options,
}

-- An element with an index on its own search, below the same parent.
abbrev pub sliced : ElementPath → Node → Number → ElementPath
sliced a m n = below a (record {
  flows = m.flows;
  attribute_name = default_attribute;
  search_mask = mask_of_options (record (m.search_options) { index = some n });
  search_options = record (m.search_options) { index = some n };
})

-- A key that is a number selects one of the elements that the search of an element finds: the
-- child stands below the same parent and has the same search with the index. No second index is
-- taken, and an element with no parent takes none.
slice_once :
    (a : ElementPath) (m : Node) (key other : Key) {n k : Number}
    → integer_key key ≡ some n
    → integer_key other ≡ some k
    → m.search_options.index ≡ none
    → (generate_child_elements_path key (below a m) ≡ ok (sliced a m n))
      × (generate_child_elements_path other (sliced a m n) ≡ err already_sliced)
      × (generate_child_elements_path key (top m) ≡ err not_enumerable)
unfolding generate_child_elements_path generate_child_element_path_by_options slice merged
    new_element_path
slice_once a m key other whole_key other_whole no_index =
    (rw (whole_key, no_index) refl, rw other_whole refl, rw (whole_key, no_index) refl)

abbrev xpath_of : NodePath → Text
xpath_of l = l.xpath

-- What is printed of a chain depends on the xpaths of its links only.
printed-link :
    (chain : Result (List NodePath)) (x : Result Text) (n m : Node) (multiple : Bool)
    → ((chain >>= λ c. x >>= λ t. ok (c ++ link n t ∷ [])) >>= λ c.
        ok (first_only multiple (join_all xpath_of c)))
      ≡ ((chain >>= λ c. x >>= λ t. ok (c ++ link m t ∷ [])) >>= λ c.
          ok (first_only multiple (join_all xpath_of c)))
unfolding link
printed-link (err e) x n m multiple = refl
printed-link (ok c) (err e) n m multiple = refl
printed-link (ok c) (ok t) n m multiple =
    ap (λ s. ok (first_only multiple s))
      (join_all-append xpath_of c (link n t ∷ [])
        ∙ (unfold join_all in sym (join_all-append xpath_of c (link m t ∷ []))))

-- Of an element that was found by an xpath, an index selects nothing: the child has the xpath and
-- the reversed chain of the element itself.
slice-xpath :
    (p : ElementPath) (id xpath : Text) (key : Key) {n : Number}
    → integer_key key ≡ some n
    → (c : ElementPath) × (d : ElementPath) × (generate_child_by_xpath id xpath p ≡ ok c)
      × (generate_child_elements_path key c ≡ ok d)
      × ((node d).search_options.index ≡ some n)
      × ((multiple : Bool) → to_string multiple d ≡ to_string multiple c)
unfolding generate_child_elements_path generate_child_by_xpath
    generate_child_element_path_by_options slice merged new_element_path to_string
    get_element_path_chain search_query_xpath
slice-xpath p id xpath key {n} whole_key =
    let c : Node = record {
      flows = (node p).flows;
      attribute_name = default_attribute;
      search_mask = mask_of_options (by_xpath id xpath);
      search_options = by_xpath id xpath;
    } in
    (
      below p c,
      sliced p c n,
      refl,
      rw whole_key refl,
      refl,
      λ multiple.
          printed-link (get_element_path_chain p) (ok xpath) (node (sliced p c n)) c multiple,
    )

-- The ways to generate a child.
pub data Generate : Type 0 where
  by_options : SearchObject → Bool → Generate
  by_key : Key → Generate
  by_id : Text → Text → Generate
  by_locator : XpathLocator → Generate

abbrev pub generate : Generate → ElementPath → Result ElementPath
generate (by_options q without_parent) p = generate_child_element_path_by_options q without_parent p
generate (by_key key) p = generate_child_elements_path key p
generate (by_id id xpath) p = generate_child_by_xpath id xpath p
generate (by_locator l) p = generate_child_by_locator l p

-- What a child has of the element that it is generated from.
abbrev pub IsHeir : ElementPath → ElementPath → Type 0
IsHeir p c = ((node c).flows ≡ (node p).flows) × ((node c).attribute_name ≡ default_attribute)

new_child-IsHeir :
    (p : ElementPath) (above : Option ElementPath) (q : SearchObject) {c : ElementPath}
    → new_element_path (child_options p above q) ≡ ok c
    → IsHeir p c
unfolding new_element_path
new_child-IsHeir p none q h = ground arith
new_child-IsHeir p (some a) q h = ground arith

slice-IsHeir :
    (p : ElementPath) (q : SearchObject) {c : ElementPath} → slice p q ≡ ok c → IsHeir p c
unfolding slice
slice-IsHeir (top m) q h = ground arith
slice-IsHeir (below a m) q h = ground (
  arith,
  new_child-IsHeir (below a m) (some a) (merged m.search_options q),
  new_child-IsHeir (below a m) (some (below a m)) (merged m.search_options q),
)

by_options-IsHeir :
    (q : SearchObject) (without_parent : Bool) (p : ElementPath) {c : ElementPath}
    → generate_child_element_path_by_options q without_parent p ≡ ok c
    → IsHeir p c
unfolding generate_child_element_path_by_options
by_options-IsHeir q without_parent p h =
    ground (arith, slice-IsHeir p q, new_child-IsHeir p none q, new_child-IsHeir p (some p) q)

>>=-eq-ok {ℓ κ} :
    {A : Type ℓ} {B : Type κ} (r : Result A) (f : A → Result B) {b : B}
    → (r >>= f) ≡ ok b
    → (a : A) × (r ≡ ok a) × (f a ≡ ok b)
>>=-eq-ok (ok a) f h = (a, refl, h)
>>=-eq-ok (err e) f h = cc

parsed_child-IsHeir :
    (p : ElementPath) (r : Result SearchObject) {c : ElementPath}
    → (r >>= λ q. generate_child_element_path_by_options q false p) ≡ ok c
    → IsHeir p c
parsed_child-IsHeir p (ok q) h = by_options-IsHeir q false p h
parsed_child-IsHeir p (err e) h = cc

by_key-IsHeir :
    (key : Key) (p : ElementPath) {c : ElementPath}
    → generate_child_elements_path key p ≡ ok c
    → IsHeir p c
unfolding generate_child_elements_path
by_key-IsHeir key p h = elim (Option-cases (integer_key key)) [
  | inr (n, e) ↦ by_options-IsHeir (record no_search { index = some n }) false p (rw e at h)
  | inl e ↦ parsed_child-IsHeir p (parse_query_key (text (key_text key))) (rw e at h)
]

-- The children of one list of keys, one below the other.
descend-flows :
    (keys : List Text) (p : ElementPath) {c : ElementPath}
    → descend keys p ≡ ok c
    → (node c).flows ≡ (node p).flows
unfolding descend
descend-flows [] p h = ground arith
descend-flows (key ∷ keys) p h =
    let (a, found, rest) =
      >>=-eq-ok (generate_child_elements_path (text key) p) (λ a. descend keys a) h in
    descend-flows keys a rest ∙ (by_key-IsHeir (text key) p found).0

located_below-IsHeir :
    (above : Option Text) (q : SearchObject) (p : ElementPath) {c : ElementPath}
    → located_below above q p ≡ ok c
    → IsHeir p c
located_below-IsHeir none q p h = by_options-IsHeir q true p h
located_below-IsHeir (some []) q p h = by_options-IsHeir q false p h
located_below-IsHeir (some (c ∷ cs)) q p h =
    let (a, found, rest) =
      >>=-eq-ok (descend (split_dots (c ∷ cs)) p)
        (λ a. generate_child_element_path_by_options q false a) h in
    let (flows, attribute) = by_options-IsHeir q false a rest in
    (flows ∙ descend-flows (split_dots (c ∷ cs)) p found, attribute)

locate-IsHeir :
    (l : XpathLocator) (xpath : Option Text) (p : ElementPath) {c : ElementPath}
    → locate l xpath p ≡ ok c
    → IsHeir p c
locate-IsHeir l none p h = cc
locate-IsHeir l (some x) p h = located_below-IsHeir l.parent (by_xpath l.id x) p h

-- However a child is generated, it has the flows of the element that it is generated from, and
-- the default attribute name: a custom attribute name is that of the first element only.
generate-IsHeir :
    (g : Generate) (p : ElementPath) {c : ElementPath} → generate g p ≡ ok c → IsHeir p c
unfolding generate_child_by_xpath generate_child_by_locator
generate-IsHeir (by_options q without_parent) p h = by_options-IsHeir q without_parent p h
generate-IsHeir (by_key key) p h = by_key-IsHeir key p h
generate-IsHeir (by_id id xpath) p h = by_options-IsHeir (by_xpath id xpath) false p h
generate-IsHeir (by_locator l) p h = locate-IsHeir l l.xpath p h

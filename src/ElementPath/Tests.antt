-- ===== src/ElementPath/Tests.antt =====
-- packages/element-path/src/element-path.ts: queries read and printed, and elements below a root.
use testring.Common.{none, some, true, false, [], ◌++◌, ◌≡◌, refl}
use testring.ElementPath.Forms.{
  prefixed, mask_object, search_object, Query, IsPlainQuery, joined, exactly, contains, equals,
  untold,
}
use testring.ElementPath.Query.{parse_sub_query, parse_text, number_text, parse_query_key}
use testring.ElementPath.Mask.{parse_mask}
use testring.ElementPath.Xpath.{search_query_xpath}
use testring.ElementPath.Print.{query_to_string}
use testring.ElementPath.RoundTrip.{parse_query_key-query_to_string}
use testring.ElementPath.Laws.{generate_child_elements_path-to_string, child_node}
use testring.ElementPath.Slices.{by_key, generate}
use testring.ElementPath.Chain.{
  ElementPath, top, below, Node, to_string, get_reversed_chain, new_element_path, no_options,
  default_attribute,
}
use testring.ElementPath.Children.{generate_child_elements_path, integer_key}
use testring.ElementPath.{
  Text, ok, Result, SearchObject, text, codes, no_search, ◌>>=◌, number, whole, nan,
}

abbrev menu : Query
menu = record {
  mask = joined (codes "menu") (codes "item");
  search = contains (codes "Open");
  sub = some (exactly (codes "icon"), equals (codes "+"));
}

menu_read : parse_query_key (text (codes "menu*item{Open}(icon={+})")) ≡ ok (search_object menu)
unfolding parse_query_key parse_mask parse_text parse_sub_query
menu_read = refl

-- A search for an equal text that is empty is read, and is then no condition.
empty_equals_read :
    parse_query_key (text (codes "foo={}"))
    ≡ ok (record no_search {
      mask = mask_object (exactly (codes "foo"));
      texts = record { contains_text = none; equals_text = some [] };
    })
unfolding parse_query_key parse_mask parse_text parse_sub_query
empty_equals_read = refl

-- The word NaN is taken for a number.
nan_key : integer_key (text (codes "NaN")) ≡ some nan
unfolding integer_key number_text
nan_key = refl

root : Result ElementPath
unfolding new_element_path
root = new_element_path no_options

children_printed :
    (root
      >>= generate_child_elements_path (text (codes "foo*"))
      >>= generate_child_elements_path (text (codes "2"))
      >>= to_string false)
    ≡ ok (
        codes
          "(//*[@data-test-automation-id='root']/descendant::*[starts-with(@data-test-automation-id, 'foo')][position() = 3])[1]")
unfolding root parse_query_key parse_mask parse_text parse_sub_query generate_child_elements_path
    to_string number_text search_query_xpath
children_printed = refl

children_reversed :
    (root
      >>= generate_child_elements_path (text (codes "foo"))
      >>= generate_child_elements_path (text (codes "bar*{baz}"))
      >>= generate_child_elements_path (number (whole 4))
      >>= get_reversed_chain true)
    ≡ ok (codes "root.foo[\"bar*{baz}\"][4]")
unfolding root parse_query_key parse_mask parse_text parse_sub_query generate_child_elements_path
    get_reversed_chain number_text query_to_string search_query_xpath
children_reversed = refl

menu_IsPlain : IsPlainQuery menu
menu_IsPlain = record {
  plain_mask = (((λ e. cc), refl, refl), ((λ e. cc), refl, refl));
  plain_search = ((λ e. cc), refl);
  plain_sub = (((λ e. cc), refl, refl), ((λ e. cc), refl));
}

parse_query_key-query_to_string_example :
    parse_query_key (text (query_to_string (search_object menu))) ≡ ok (search_object menu)
parse_query_key-query_to_string_example = parse_query_key-query_to_string menu menu_IsPlain

-- An element below the root, found by a plain key.
abbrev root_node : Node
root_node = record {
  flows = [];
  attribute_name = default_attribute;
  search_mask = none;
  search_options =
      search_object (record { mask = exactly (codes "root"); search = untold; sub = none });
}

abbrev foo : SearchObject
foo = search_object (record { mask = prefixed (codes "foo"); search = untold; sub = none })

abbrev foo_node : Node
foo_node = record {
  flows = [];
  attribute_name = default_attribute;
  search_mask = none;
  search_options = foo;
}

abbrev root_xpath : Text
root_xpath = codes "//*[@data-test-automation-id='root']"

abbrev foo_xpath : Text
foo_xpath = codes "/descendant::*[starts-with(@data-test-automation-id, 'foo')]"

foo_word : integer_key (text (codes "foo*")) ≡ none
unfolding integer_key number_text
foo_word = refl

foo_parsed : parse_query_key (text (codes "foo*")) ≡ ok foo
unfolding parse_query_key parse_mask
foo_parsed = refl

foo_located : search_query_xpath default_attribute foo ≡ ok foo_xpath
unfolding search_query_xpath
foo_located = refl

root_printed : to_string true (top root_node) ≡ ok root_xpath
unfolding to_string search_query_xpath
root_printed = refl

generate_child_elements_path-to_string_example :
    (generate_child_elements_path (text (codes "foo*")) (top root_node)
      ≡ ok (below (top root_node) (child_node (top root_node) foo)))
    × (to_string true (below (top root_node) (child_node (top root_node) foo))
        ≡ ok (root_xpath ++ foo_xpath))
generate_child_elements_path-to_string_example =
    generate_child_elements_path-to_string (top root_node) (codes "foo*") foo_word foo_parsed
      foo_located root_printed

two_key : integer_key (text (codes "2")) ≡ some (whole 2)
unfolding integer_key number_text
two_key = refl

five_key : integer_key (number (whole 5)) ≡ some (whole 5)
unfolding integer_key
five_key = refl

-- The attribute name that only the first element has.
abbrev custom_node : Node
custom_node = record root_node { attribute_name = codes "data-id" }

custom_child :
    generate (by_key (text (codes "foo*"))) (top custom_node)
    ≡ ok (below (top custom_node) (child_node (top custom_node) foo))
unfolding generate_child_elements_path parse_query_key parse_mask number_text new_element_path
custom_child = refl

-- ===== src/Batch/Align.antt =====
-- pkg/query/batch_get.go: the items of a response, put in the places of the keys that they match.
use table_theory.Base.{
  ℕ, ◌+◌, Bool, true, false, ◌&&◌, not, Option, none, some, List, [], ◌∷◌, Text, text_eq, Assoc,
  lookup, set, if◌then◌else◌,
}
use table_theory.Expr.{AttributeValue, Attributes, Members}
use table_theory.Batch.Keys.{BatchKeySpec}

abbrev same_texts : List Text → List Text → Bool
same_texts [] [] = true
same_texts (s ∷ ss) (t ∷ ts) = text_eq s t && same_texts ss ts
same_texts _ _ = false

unfoldable mutual
  unfolding text_eq

  -- attributeValuesEqual, and reflect.DeepEqual, which it uses on what is no key's value
  pub attribute_values_equal : AttributeValue → AttributeValue → Bool
  attribute_values_equal (AttributeValue.string_attr s) (AttributeValue.string_attr t) = text_eq s t
  attribute_values_equal (AttributeValue.number_attr s) (AttributeValue.number_attr t) = text_eq s t
  attribute_values_equal (AttributeValue.binary_attr s) (AttributeValue.binary_attr t) = text_eq s t
  attribute_values_equal (AttributeValue.bool_attr true) (AttributeValue.bool_attr b) = b
  attribute_values_equal (AttributeValue.bool_attr false) (AttributeValue.bool_attr b) = not b
  attribute_values_equal AttributeValue.null_attr AttributeValue.null_attr = true
  attribute_values_equal (AttributeValue.list_attr xs) (AttributeValue.list_attr ys) =
      attributes_equal xs ys
  attribute_values_equal (AttributeValue.map_attr xs) (AttributeValue.map_attr ys) =
      members_equal xs ys
  attribute_values_equal (AttributeValue.string_set xs) (AttributeValue.string_set ys) =
      same_texts xs ys
  attribute_values_equal (AttributeValue.number_set xs) (AttributeValue.number_set ys) =
      same_texts xs ys
  attribute_values_equal (AttributeValue.binary_set xs) (AttributeValue.binary_set ys) =
      same_texts xs ys
  attribute_values_equal _ _ = false

  pub attributes_equal : Attributes → Attributes → Bool
  attributes_equal Attributes.no_more Attributes.no_more = true
  attributes_equal (Attributes.also a xs) (Attributes.also b ys) =
      attribute_values_equal a b && attributes_equal xs ys
  attributes_equal _ _ = false

  pub members_equal : Members → Members → Bool
  members_equal Members.closed Members.closed = true
  members_equal (Members.member j a xs) (Members.member k b ys) =
      text_eq j k && attribute_values_equal a b && members_equal xs ys
  members_equal _ _ = false

abbrev pub Item : Type 0
Item = Assoc AttributeValue

abbrev pub equals_found : AttributeValue → Option AttributeValue → Bool
equals_found expected none = false
equals_found expected (some actual) = attribute_values_equal expected actual

-- keyMatchesItem
unfoldable pub key_matches_item : Assoc AttributeValue → Item → Bool
unfolding lookup attribute_values_equal
key_matches_item [] item = true
key_matches_item ((attr, expected) ∷ key) item =
    equals_found expected (lookup attr item) && key_matches_item key item

-- An item of a response, and whether it has been used.
abbrev pub Slot : Type 0
Slot = Item × Bool

abbrev pub further : Slot → Option (Item × List Slot) → Option (Item × List Slot)
further slot none = none
further slot (some (found, slots)) = some (found, slot ∷ slots)

-- findMatchingItem, with the item and the slots after its use in place of the index
unfoldable pub find_matching_item : Assoc AttributeValue → List Slot → Option (Item × List Slot)
unfolding key_matches_item
find_matching_item key [] = none
find_matching_item key ((item, used) ∷ slots) =
    if not used && key_matches_item key item
    then some (item, (item, true) ∷ slots)
    else further (item, used) (find_matching_item key slots)

-- The places of the items, one of each key.
abbrev pub Places : Type 0
Places = List (Option Item)

-- What is found for a key is put in its place.
abbrev pub put : ℕ → Option (Item × List Slot) → List Slot → Places → List Slot × Places × ℕ
put i none slots ordered = (slots, ordered, 0)
put i (some (item, used)) slots ordered = (used, set ordered i (some item), 1)

-- alignChunkResults: its loop, with the number of the items that matched
unfoldable pub align_chunk_results : List BatchKeySpec → List Slot → Places → Places × ℕ
unfolding find_matching_item
align_chunk_results [] slots ordered = (ordered, 0)
align_chunk_results (key ∷ keys) slots ordered =
    let (used, placed, n) = put key.index (find_matching_item key.attrs slots) slots ordered in
    let (filled, matched) = align_chunk_results keys used placed in (filled, n + matched)

-- flattenBatchGetResults
unfoldable pub flatten_batch_get_results : Places → List Item
flatten_batch_get_results [] = []
flatten_batch_get_results (none ∷ ordered) = flatten_batch_get_results ordered
flatten_batch_get_results (some item ∷ ordered) = item ∷ flatten_batch_get_results ordered

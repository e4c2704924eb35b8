-- ===== src/Batch/Cases.antt =====
-- Batch gets of three users, two to a request, and the theorems about batch gets at them.
use table_theory.Base.{
  ℕ, suc, true, false, none, some, List, [], ◌∷◌, map, String, codes, Option, Text, ok, ◌≡◌, refl,
  All, leb, text_eq, text_eq_iff, lookup, and-eq_true, ◌∙◌, sym, if◌then◌else◌, inl, inr, arith,
  length,
}
use mathlib.Core.List.{flatten}
use table_theory.Base.Int.{pos}
use table_theory.Validation.Value.{string_value}
use table_theory.Expr.{string_attr, AttributeValue}
use table_theory.Query.State.{Query, ModelMetadata, new_query}
use table_theory.Query.Sample.{users}
use table_theory.Batch.Options.{normalize_batch_get_options, default_batch_get_options}
use table_theory.Batch.Keys.{Key, key_pair, BatchKeySpec}
use table_theory.Batch.Align.{
  Item, attribute_values_equal, equals_found, key_matches_item, align_chunk_results,
}
use table_theory.Batch.Get.{
  Options, BatchGetChunk, Executor, build_batch_get_chunks, batch_get_with_options,
}
use table_theory.Batch.Get.Chunks.{IsRequest, build_batch_get_chunks-IsPartition}
use table_theory.Batch.Get.Aligned.{RunsOnly, AnswersInOrder, batch_get-AnswersInOrder}
use table_theory.Batch.Get.Complete.{AreApart, FindsAll, align_chunk_results-FindsAll}

abbrev user : String → Item
user id = (codes "id", string_attr (codes id)) ∷ (codes "created", string_attr (codes "1")) ∷ []

abbrev key_of : String → Key
key_of id = key_pair (string_value (codes id)) (string_value (codes "1"))

abbrev three : List Key
three = key_of "a" ∷ key_of "b" ∷ key_of "c" ∷ []

abbrev spec_of : String → ℕ → BatchKeySpec
spec_of id i = record { attrs = user id; original = key_of id; index = i }

abbrev specs : List BatchKeySpec
specs = spec_of "a" 0 ∷ spec_of "b" 1 ∷ spec_of "c" 2 ∷ []

abbrev pairs : Options
pairs = record (unfold default_batch_get_options in default_batch_get_options) {
  chunk_size = pos 2;
}

-- A table that has the first and the third user; its state counts the requests.
abbrev table : Executor ℕ
table request opts n =
    if leb (length request.keys) 1 then (suc n, ok (user "c" ∷ [])) else (suc n, ok (user "a" ∷ []))

-- The second chunk finishes first.
abbrev swapped : List BatchGetChunk → List BatchGetChunk
swapped [] = []
swapped (a ∷ []) = a ∷ []
swapped (a ∷ b ∷ chunks) = b ∷ a ∷ chunks

swapped-RunsOnly : RunsOnly swapped
swapped-RunsOnly P [] h = tt
swapped-RunsOnly P (a ∷ []) h = h
swapped-RunsOnly P (a ∷ b ∷ chunks) h = (h.1.0, (h.0, h.1.1))

abbrev of_users : Query
of_users = new_query none (some users)

build_batch_get_chunks-IsPartition_example :
    let chunks = build_batch_get_chunks (codes "users") specs 2 true ([], []) in
    (flatten (map (λ c. c.keys) chunks) ≡ specs) × All IsRequest chunks
unfolding normalize_batch_get_options
build_batch_get_chunks-IsPartition_example =
    build_batch_get_chunks-IsPartition (codes "users") true ([], []) (some pairs) specs

-- The two chunks in parallel.
abbrev together : Options
together = record pairs { parallel = true; max_concurrency = pos 2 }

batch_get-found :
    batch_get_with_options (some table) swapped of_users three (some together) 0
    ≡ some (2, ok (user "a" ∷ user "c" ∷ []))
unfolding batch_get_with_options new_query
batch_get-found = refl

batch_get-AnswersInOrder_example :
    (m : ModelMetadata) × (of_users.metadata ≡ some m)
    × AnswersInOrder of_users m three (user "a" ∷ user "c" ∷ [])
batch_get-AnswersInOrder_example =
    batch_get-AnswersInOrder swapped swapped-RunsOnly (some table) of_users three (some together) 0
      batch_get-found

-- Only one string is equal to what is found.
same_string :
    (s t : Text) (o : Option AttributeValue)
    → equals_found (string_attr s) o ≡ true
    → equals_found (string_attr t) o ≡ true
    → s ≡ t
unfolding attribute_values_equal
same_string s t (some (string_attr u)) h h' = (text_eq_iff s u).0 h ∙ sym ((text_eq_iff t u).0 h')
same_string s t none h h' = cc
same_string s t (some (AttributeValue.number_attr u)) h h' = cc
same_string s t (some (AttributeValue.binary_attr u)) h h' = cc
same_string s t (some (AttributeValue.bool_attr u)) h h' = cc
same_string s t (some AttributeValue.null_attr) h h' = cc
same_string s t (some (AttributeValue.list_attr u)) h h' = cc
same_string s t (some (AttributeValue.map_attr u)) h h' = cc
same_string s t (some (AttributeValue.string_set u)) h h' = cc
same_string s t (some (AttributeValue.number_set u)) h h' = cc
same_string s t (some (AttributeValue.binary_set u)) h h' = cc

users-AreApart : (j k : String) → text_eq (codes j) (codes k) ≡ false → AreApart (user j) (user k)
unfolding key_matches_item
users-AreApart j k differ item h h' =
    let same =
      same_string (codes j) (codes k) (lookup (codes "id") item) (and-eq_true _ _ h).0
        (and-eq_true _ _ h').0 in
    let equal : text_eq (codes j) (codes k) ≡ true = (text_eq_iff (codes j) (codes k)).1 same in cc

align_chunk_results-FindsAll_example : FindsAll specs (
    align_chunk_results specs
      (map (λ item. (item, false)) (user "c" ∷ user "a" ∷ user "b" ∷ []))
      (none ∷ none ∷ none ∷ []))
align_chunk_results-FindsAll_example =
    align_chunk_results-FindsAll specs (user "c" ∷ user "a" ∷ user "b" ∷ [])
      (none ∷ none ∷ none ∷ [])
      (
        (
          users-AreApart "a" "b" (unfold text_eq in refl),
          (users-AreApart "a" "c" (unfold text_eq in refl), tt),
        ),
        ((users-AreApart "b" "c" (unfold text_eq in refl), tt), (tt, tt)),
      )
      (unfold key_matches_item in (inr (inl refl), (inr (inr (inl refl)), (inl refl, tt))))
      (omega arith, (omega arith, (omega arith, tt)))

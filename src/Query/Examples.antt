-- ===== src/Query/Examples.antt =====
-- Runs and concrete cases of the query parts.
use table_theory.Base.{
  ℕ, suc, none, Assoc, ◌>>=◌, String, ◌≤◌, [], ◌∷◌, Text, codes, ok, err, some, ◌≡◌, refl, arith,
}
use table_theory.Encoding.Base64
use table_theory.Encoding.Base64.{url}
use table_theory.Encoding.Json.{depth, text_lt, max_nesting_depth}
use table_theory.Query.Cursor.{
  Cursor, not_base64, not_json, in_attribute, unknown_format, cursor_json, encode_cursor,
  decode_cursor, to_attribute_values,
}
use table_theory.Query.Cursor.Values.{MembersAreStorable}
use table_theory.Query.Cursor.RoundTrip.{decode_cursor-encode_cursor}
use table_theory.Query.State.{Query, new_query}
use table_theory.Query.Read.{Executor}
use table_theory.Query.Sample.{users}
use table_theory.Query.Pagination.{Page, PaginatedExecutor, all_paginated, paginated}
use table_theory.Query.Pagination.Resume.{IsStorable, StartsNext, all_paginated-StartsNext}
use table_theory.Base.Int.{pos}
use table_theory.Expr.{
  Members, AttributeValue, string_attr, number_attr, binary_attr, map_attr, closed, member,
}

-- The other attributes of a key of three.
abbrev others : Members
others =
    member (codes "meta") (map_attr (member (codes "<x>") (binary_attr (0 ∷ 255 ∷ [])) closed))
      (member (codes "ts") (number_attr (codes "42")) closed)

abbrev id_value : AttributeValue
id_value = string_attr (0x20ac ∷ b'"' ∷ 10 ∷ [])

key-MembersAreStorable : MembersAreStorable (member (codes "id") id_value others)
unfolding MembersAreStorable text_lt
key-MembersAreStorable = search (refl, arith)

key-depth :
    depth (cursor_json (member (codes "id") id_value others) (codes "by-ts") (codes "DESC"))
    ≤ max_nesting_depth
unfolding cursor_json depth
key-depth = omega arith

decode_cursor-encode_cursor_example :
    (c : Cursor) × (decode_cursor
        (encode_cursor (member (codes "id") id_value others) (codes "by-ts") (codes "DESC"))
      ≡ ok (some c))
    × (to_attribute_values (some c) ≡ ok (member (codes "id") id_value others))
    × (c.index_name ≡ codes "by-ts")
    × (c.sort_direction ≡ codes "DESC")
decode_cursor-encode_cursor_example =
    decode_cursor-encode_cursor (codes "id") id_value others (codes "by-ts") (codes "DESC")
      key-MembersAreStorable (refl, (refl, (refl, (refl, (refl, tt)))))
      (refl, (refl, (refl, (refl, tt)))) key-depth

-- A text that is not the one of EncodeCursor.
abbrev of_json : String → Text
of_json s = Base64.encode url (codes s)

decode_test_garbage : decode_cursor (codes "???") ≡ err not_base64
unfolding decode_cursor
decode_test_garbage = refl

decode_test_unfinished : decode_cursor (of_json "{\"lastKey\":") ≡ err not_json
unfolding decode_cursor Base64.encode
decode_test_unfinished = refl

decode_test_escape :
    (decode_cursor (of_json " {\"LASTKEY\" : {\"a\\u0062\":{\"X\":1.5e3}}, \"other\":[null,true]}")
      >>= to_attribute_values)
    ≡ err (in_attribute (codes "ab") unknown_format)
unfolding decode_cursor Base64.encode to_attribute_values
decode_test_escape = refl

-- An executor whose state counts the requests, with one item to a page and more to come.
abbrev counting : Executor ℕ ℕ
counting = record {
  execute_query = λ c n. (suc n, ok (n ∷ []));
  execute_scan = λ c n. (suc n, ok (n ∷ []));
  execute_get_item = none;
}

abbrev last_user : Assoc AttributeValue
last_user = (codes "id", string_attr (codes "7")) ∷ []

abbrev one_user : Page ℕ
one_user = record {
  items = 7 ∷ [];
  count = pos 1;
  scanned_count = pos 1;
  last_evaluated_key = last_user;
}

abbrev by_pages : PaginatedExecutor ℕ ℕ
by_pages = record {
  query_page = λ c n. (suc n, ok one_user);
  scan_page = λ c n. (suc n, ok one_user);
}

abbrev all_users : Query
all_users = new_query none (some users)

one_user-paginated :
    all_paginated counting (some by_pages) all_users 0
    ≡ some (record all_users { limit = pos 100 }, 1, ok (paginated all_users one_user))
unfolding all_paginated new_query
one_user-paginated = refl

last_user-IsStorable : IsStorable all_users.index all_users.order_by.order last_user
unfolding MembersAreStorable text_lt cursor_json depth new_query
last_user-IsStorable = record {
  members = search (refl, arith);
  index_IsScalar = tt;
  order_IsScalar = tt;
  shallow = omega arith;
}

all_paginated-StartsNext_example :
    StartsNext (paginated all_users one_user) (record all_users { limit = pos 10 })
all_paginated-StartsNext_example =
    all_paginated-StartsNext counting (some by_pages) all_users
      (record all_users { limit = pos 10 }) 0 one_user-paginated
      (unfold paginated in last_user-IsStorable)

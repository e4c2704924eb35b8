-- ===== src/Query/Pagination/Resume.antt =====
-- pkg/query/pagination.go: a query that takes the cursor of a page goes on where the page ended.

use table_theory.Query.State.{Error}
use table_theory.Query.Read.{Executor}
use table_theory.Base.{
  Result, sym, err, some, none, Option, map-some, Bool, true, false, not, [], ◌∷◌, ◌≤◌, Text,
  text_eq, text_eq-false, Assoc, ok, ◌≡◌, ◌≢◌, refl, ap, subst, All,
}
use table_theory.Encoding.Utf8.{IsScalar}
use table_theory.Encoding.Json.{depth, max_nesting_depth}
use table_theory.Expr.{AttributeValue, Members, closed, member}
use table_theory.Query.Cursor.{cursor_json, encode_cursor, decode_cursor, to_attribute_values}
use table_theory.Query.Cursor.Values.{MembersAreStorable}
use table_theory.Query.Cursor.RoundTrip.{decode_cursor-encode_cursor}
use table_theory.Query.State.{Query}
use table_theory.Expr
use table_theory.Query.Compile.{CompiledQuery}
use table_theory.Query.Pagination.{
  limit_or_default, PaginatedResult, PaginatedExecutor, answered, page_of, unless_recorded,
  all_paginated, execute_page, members_of, entries_of, Page, start_key, set_cursor, cursor,
  next_cursor_of, paginated,
}

-- A last key of DynamoDB that the text of a cursor keeps: its strings, and those of the query, are of
-- Unicode scalar values, its bytes below 256, its maps in the order of their keys, and it is not
-- nested too deeply.
pub record IsStorable (index order : Text) (key : Assoc AttributeValue) : Type 0 where
  pub members : MembersAreStorable (members_of key)
  pub index_IsScalar : All IsScalar index
  pub order_IsScalar : All IsScalar order
  pub shallow : depth (cursor_json (members_of key) index order) ≤ max_nesting_depth

-- The query that starts after a key, where there is one.
abbrev pub starts_after : Assoc AttributeValue → Query → Query
starts_after [] q = q
starts_after (kv ∷ key) q = record q { exclusive = kv ∷ key }

abbrev pub is_non_empty : Assoc AttributeValue → Bool
is_non_empty [] = false
is_non_empty (kv ∷ key) = true

entries_of-members_of : (key : Assoc AttributeValue) → entries_of (members_of key) ≡ key
entries_of-members_of [] = refl
entries_of-members_of ((k, v) ∷ key) = ap (◌∷◌ (k, v)) (entries_of-members_of key)

start_key-next_cursor :
    (q : Query) (k : Text) (v : AttributeValue) (key : Assoc AttributeValue)
    → IsStorable q.index q.order_by.order ((k, v) ∷ key)
    → start_key (next_cursor_of q ((k, v) ∷ key)) ≡ ok (member k v (members_of key))
unfolding start_key next_cursor_of
start_key-next_cursor q k v key h =
    let (c, decodes, values, _, _) =
      decode_cursor-encode_cursor k v (members_of key) q.index q.order_by.order h.members
        h.index_IsScalar h.order_IsScalar h.shallow in
    rw decodes values

-- The text of a cursor is empty only without a key.
next_cursor-IsNonEmpty :
    (q : Query) (k : Text) (v : AttributeValue) (key : Assoc AttributeValue)
    → IsStorable q.index q.order_by.order ((k, v) ∷ key)
    → next_cursor_of q ((k, v) ∷ key) ≢ []
unfolding start_key decode_cursor to_attribute_values
next_cursor-IsNonEmpty q k v key h e =
    let starts = start_key-next_cursor q k v key h in
    let nowhere : ok closed ≡ ok (member k v (members_of key)) =
      subst (λ text. start_key text ≡ ok (member k v (members_of key))) e starts in
    cc

set_cursor-starts :
    (text : Text) (q : Query) (key : Members)
    → text ≢ []
    → start_key text ≡ ok key
    → set_cursor text q ≡ ok (record q { exclusive = entries_of key })
unfolding set_cursor
set_cursor-starts [] q key n e = elim (n refl) [ ]
set_cursor-starts (c ∷ text) q key n e = rw e refl

cursor-starts :
    (q next : Query) (key : Assoc AttributeValue)
    → IsStorable q.index q.order_by.order key
    → cursor (next_cursor_of q key) next ≡ starts_after key next
unfolding cursor next_cursor_of
cursor-starts q next [] h = unfold encode_cursor set_cursor in refl
cursor-starts q next ((k, v) ∷ key) h =
    rw
      (
        set_cursor-starts (next_cursor_of q ((k, v) ∷ key)) next _
            (next_cursor-IsNonEmpty q k v key h) (start_key-next_cursor q k v key h),
        entries_of-members_of key,
      )
      refl

has_more-eq :
    {Item : Type 0} (q : Query) (page : Page Item)
    → IsStorable q.index q.order_by.order page.last_evaluated_key
    → (paginated q page).has_more ≡ is_non_empty page.last_evaluated_key
unfolding paginated
has_more-eq q page h = has_more-of page.last_evaluated_key h
  where
    has_more-of :
        (key : Assoc AttributeValue)
        → IsStorable q.index q.order_by.order key
        → not (text_eq (next_cursor_of q key) []) ≡ is_non_empty key
    has_more-of [] h = unfold next_cursor_of encode_cursor text_eq in refl
    has_more-of ((k, v) ∷ key) h = rw (text_eq-false _ _ (next_cursor-IsNonEmpty q k v key h)) refl

-- There are more pages where there is a last key, and a query with the cursor starts after it.
abbrev pub StartsNext : {Item : Type 0} → PaginatedResult Item → Query → Type 0
StartsNext result next =
    (result.has_more ≡ is_non_empty result.last_evaluated_key)
    × (cursor result.next_cursor next ≡ starts_after result.last_evaluated_key next)

paginated-StartsNext :
    {Item : Type 0} (q next : Query) (page : Page Item)
    → IsStorable q.index q.order_by.order page.last_evaluated_key
    → StartsNext (paginated q page) next
unfolding paginated
paginated-StartsNext q next page h =
    (has_more-eq q page h, cursor-starts q next page.last_evaluated_key h)

module _ {Store Item : Type 0} where
  -- A result is that of a page.
  answered-paginated :
      (q : Query) (out : Store × Result Error (Page Item)) {q' : Query} {s : Store}
      {result : PaginatedResult Item}
      → answered q out ≡ (q', s, ok result)
      → (page : Page Item) × (result ≡ paginated q page)
  answered-paginated q (s', err e) h = cc
  answered-paginated q (s', ok page) h = (page, cc)

  page_of-paginated :
      (executor : Executor Store Item) (paged : Option (PaginatedExecutor Store Item)) (q : Query)
      (s : Store) (compiled : Result Expr.Error CompiledQuery) {q' : Query} {s' : Store}
      {result : PaginatedResult Item}
      → page_of executor paged q s compiled ≡ (q', s', ok result)
      → (page : Page Item) × (result ≡ paginated q page)
  page_of-paginated executor paged q s (err e) h = cc
  page_of-paginated executor paged q s (ok c) h =
      answered-paginated q (execute_page executor paged c s) h

  unless_recorded-paginated :
      (executor : Executor Store Item) (paged : Option (PaginatedExecutor Store Item)) (q : Query)
      (recorded : Option Error) (s : Store) {q' : Query} {s' : Store}
      {result : PaginatedResult Item}
      → unless_recorded executor paged q recorded s ≡ some (q', s', ok result)
      → (page : Page Item) × (result
          ≡ paginated (record q { limit = limit_or_default q.limit }) page)
  unless_recorded-paginated executor paged q (some e) s h = cc
  unless_recorded-paginated executor paged q none s h =
      let (compiled, e) = map-some _ _ _ h in
      page_of-paginated executor paged (record q { limit = limit_or_default q.limit }) s compiled e

  -- When AllPaginated returns a page, and the cursor's text keeps the last key of the page, then there
  -- are more pages exactly when the page has a last key, and any query that takes the cursor of the
  -- page starts after that key, or is as it was when there is none.
  pub all_paginated-StartsNext :
      (executor : Executor Store Item) (paged : Option (PaginatedExecutor Store Item))
      (q next : Query) (s : Store) {q' : Query} {s' : Store} {result : PaginatedResult Item}
      → all_paginated executor paged q s ≡ some (q', s', ok result)
      → IsStorable q.index q.order_by.order result.last_evaluated_key
      → StartsNext result next
  unfolding all_paginated
  all_paginated-StartsNext executor paged q next s h storable =
      let (page, e) = unless_recorded-paginated executor paged q q.builder_err s h in
      let limited = record q { limit = limit_or_default q.limit } in
      subst (λ r. IsStorable q.index q.order_by.order r.last_evaluated_key → StartsNext r next)
        (sym e) (paginated-StartsNext limited next page) storable

-- ===== src/Query/Pagination.antt =====
-- pkg/query/pagination.go: pages of a query and the cursors between them. An executor that knows
-- pages is a parameter, as the one without.
pub mod Resume
use mathlib.Core.Option
use table_theory.Base.{
  Bool, zero, true, false, not, Option, none, some, List, [], ◌∷◌, Text, codes, text_eq, Assoc,
  Result, ok, err, ◌>>=◌, map_err, if◌then◌else◌,
}
use table_theory.Base.Int.{ℤ, pos}
use table_theory.Expr
use table_theory.Expr.{AttributeValue, Members, closed, member}
use table_theory.Query.Cursor.{encode_cursor, decode_cursor, to_attribute_values}
use table_theory.Query.Cursor
use table_theory.Query.State.{Query, Error, expression, invalid_cursor, record_builder_error}
use table_theory.Query.Compile.{CompiledQuery, compile}
use table_theory.Query.Read
use table_theory.Query.Read.{Executor}

-- A map of attributes for the cursors, and back.
abbrev pub members_of : Assoc AttributeValue → Members
members_of [] = closed
members_of ((k, v) ∷ key) = member k v (members_of key)

abbrev pub entries_of : Members → Assoc AttributeValue
entries_of closed = []
entries_of (member k v ms) = (k, v) ∷ entries_of ms

-- structs QueryResult and ScanResult
pub record Page (Item : Type 0) : Type 0 where
  pub items : List Item
  pub count : ℤ
  pub scanned_count : ℤ
  pub last_evaluated_key : Assoc AttributeValue

-- struct PaginatedResult
pub record PaginatedResult (Item : Type 0) : Type 0 where
  pub items : List Item
  pub last_evaluated_key : Assoc AttributeValue
  pub next_cursor : Text
  pub count : ℤ
  pub scanned_count : ℤ
  pub has_more : Bool

-- interface PaginatedQueryExecutor
pub record PaginatedExecutor (Store Item : Type 0) : Type 0 where
  pub query_page : CompiledQuery → Read.Call Store (Page Item)
  pub scan_page : CompiledQuery → Read.Call Store (Page Item)

-- decodeCursor
unfoldable pub start_key : Text → Result Cursor.Error Members
unfolding decode_cursor to_attribute_values
start_key text = do c ← decode_cursor text; to_attribute_values c

-- SetCursor
unfoldable pub set_cursor : Text → Query → Result Error Query
unfolding start_key
set_cursor [] q = ok q
set_cursor (c ∷ text) q = do
  key ← map_err invalid_cursor (start_key (c ∷ text))
  ok (record q { exclusive = entries_of key })

abbrev pub or_recorded : Query → Result Error Query → Query
or_recorded q (ok next) = next
or_recorded q (err e) = record_builder_error e q

-- Cursor
unfoldable pub cursor : Text → Query → Query
unfolding set_cursor record_builder_error
cursor text q = or_recorded q (set_cursor text q)

-- encodeCursor, of a key that is a map
unfoldable pub next_cursor_of : Query → Assoc AttributeValue → Text
unfolding encode_cursor
next_cursor_of q key = encode_cursor (members_of key) q.index q.order_by.order

-- The result of a page.
unfoldable pub paginated : {Item : Type 0} → Query → Page Item → PaginatedResult Item
unfolding next_cursor_of text_eq
paginated q page = record {
  items = page.items;
  last_evaluated_key = page.last_evaluated_key;
  next_cursor = next_cursor_of q page.last_evaluated_key;
  count = page.count;
  scanned_count = page.scanned_count;
  has_more = not (text_eq (next_cursor_of q page.last_evaluated_key) []);
}

-- The limit that a query without one gets.
abbrev pub limit_or_default : ℤ → ℤ
limit_or_default (pos zero) = pos 100
limit_or_default n = n

-- A query that a call has changed, the state of the executor, and what is returned.
abbrev pub Outcome : Type 0 → Type 0 → Type 0
Outcome Store Item = Query × Store × Result Error (PaginatedResult Item)

module _ {Store Item : Type 0} where
  abbrev unpaged : Store × Result Error (List Item) → Store × Result Error (Page Item)
  unpaged (s, err e) = (s, err e)
  unpaged (s, ok items) = (
    s,
    ok (record { items = items; count = pos 0; scanned_count = pos 0; last_evaluated_key = [] }),
  )

  -- executeWithOptionalPagination, of a query or a scan
  unfoldable pub execute_page :
      Executor Store Item
      → Option (PaginatedExecutor Store Item)
      → CompiledQuery
      → Read.Call Store (Page Item)
  unfolding text_eq
  execute_page executor none c s = unpaged (Read.execute executor c s)
  execute_page executor (some paged) c s =
      if text_eq c.operation (codes "Query") then paged.query_page c s else paged.scan_page c s

  abbrev pub answered : Query → Store × Result Error (Page Item) → Outcome Store Item
  answered q (s, err e) = (q, s, err e)
  answered q (s, ok page) = (q, s, ok (paginated q page))

  abbrev pub page_of :
      Executor Store Item
      → Option (PaginatedExecutor Store Item)
      → Query
      → Store
      → Result Expr.Error CompiledQuery
      → Outcome Store Item
  page_of executor paged q s (err e) = (q, s, err (expression e))
  page_of executor paged q s (ok c) = answered q (execute_page executor paged c s)

  abbrev pub unless_recorded :
      Executor Store Item
      → Option (PaginatedExecutor Store Item)
      → Query
      → Option Error
      → Store
      → Option (Outcome Store Item)
  unless_recorded executor paged q (some e) s = some (q, s, err e)
  unless_recorded executor paged q none s =
      let limited = record q { limit = limit_or_default q.limit } in
      Option.map (page_of executor paged limited s) (compile limited)

  -- AllPaginated; `none` is a panic of Build.
  unfoldable pub all_paginated :
      Executor Store Item
      → Option (PaginatedExecutor Store Item)
      → Query
      → Store
      → Option (Outcome Store Item)
  unfolding compile execute_page paginated
  all_paginated executor paged q s = unless_recorded executor paged q q.builder_err s

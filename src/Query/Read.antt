-- ===== src/Query/Read.antt =====
-- pkg/query/query.go: First, All, Count and Scan. The executor is a parameter; a call of it takes the
-- state behind it to the next one. A compilation is the same in every attempt, so it is made once;
-- `none` is a panic.
use mathlib.Core.Option
use table_theory.Base.{
  Option, none, some, List, [], ◌∷◌, codes, text_eq, Assoc, Result, ok, err, if◌then◌else◌,
}
use table_theory.Base.Int.{pos}
use table_theory.Expr
use table_theory.Expr.{AttributeValue}
use table_theory.Query.State.{
  Query, ModelMetadata, Error, RetryConfig, expression, item_not_found, metadata_required,
}
use table_theory.Query.Compile.{CompiledQuery, compile, compile_scan}
use table_theory.Query.PrimaryKey.{GetItem, compile_get_item}
use table_theory.Query.Retries.{Run, first_with_retry, all_with_retry}

abbrev pub Call : Type 0 → Type 0 → Type 0
Call Store A = Store → Store × Result Error A

-- interface QueryExecutor, and GetItemExecutor where the executor is one
pub record Executor (Store Item : Type 0) : Type 0 where
  pub execute_query : CompiledQuery → Call Store (List Item)
  pub execute_scan : CompiledQuery → Call Store (List Item)
  pub execute_get_item : Option (CompiledQuery → Assoc AttributeValue → Call Store Item)

module _ {Store Item : Type 0} (executor : Executor Store Item) where
  -- The executor's method for a compiled read.
  abbrev pub execute : CompiledQuery → Call Store (List Item)
  execute c =
      if text_eq c.operation (codes "Query")
      then executor.execute_query c
      else executor.execute_scan c

  -- allInternal, of what Compile returned
  unfoldable pub all_internal : Result Expr.Error CompiledQuery → Call Store (List Item)
  unfolding text_eq
  all_internal (err e) s = (s, err (expression e))
  all_internal (ok c) s = execute c s

  abbrev pub once : {A : Type 0} → Call Store A → Store → Run Store A
  once call s = let (s', r) = call s in (s', r, [])

  abbrev pub retried_all :
      Option RetryConfig → Call Store (List Item) → List Item → Store → Run Store (List Item)
  retried_all none call held s = once call s
  retried_all (some config) call held s =
      all_with_retry call held config.max_retries config.initial_delay s

  -- An error that was recorded is returned before anything else is done.
  abbrev pub checked :
      {A : Type 0} → Option Error → (Store → Option (Run Store A)) → Store → Option (Run Store A)
  checked (some e) run s = some (s, err e, [])
  checked none run s = run s

  -- All, into a destination that holds some items
  unfoldable pub all_items : Query → List Item → Store → Option (Run Store (List Item))
  unfolding compile all_internal all_with_retry
  all_items q held = checked q.builder_err λ s.
      Option.map (λ compiled. retried_all q.retry_config (all_internal compiled) held s) (compile q)

  abbrev pub first_of : Result Error (List Item) → Result Error Item
  first_of (err e) = err e
  first_of (ok []) = err item_not_found
  first_of (ok (item ∷ items)) = ok item

  abbrev pub first_item : Call Store (List Item) → Call Store Item
  first_item call s = let (s', r) = call s in (s', first_of r)

  abbrev pub listed : Query → Option (Call Store Item)
  listed q =
      Option.map (λ compiled. first_item (all_internal compiled))
        (compile (record q { limit = pos 1 }))

  -- The reads that GetItem can or cannot serve.
  abbrev pub by_get_item :
      Query
      → (CompiledQuery → Assoc AttributeValue → Call Store Item)
      → Option (Result Error GetItem)
      → Option (Call Store Item)
  by_get_item q get none = none
  by_get_item q get (some (err e)) = some (λ s. (s, err e))
  by_get_item q get (some (ok none)) = listed q
  by_get_item q get (some (ok (some (c, key)))) = some (get c key)

  abbrev pub item_plan : Query → Option ModelMetadata → Option (Result Error GetItem)
  item_plan q none = some (err metadata_required)
  item_plan q (some m) = compile_get_item m (record q { limit = pos 1 })

  abbrev pub first_plan :
      Query
      → Option (CompiledQuery → Assoc AttributeValue → Call Store Item)
      → Option (Call Store Item)
  first_plan q none = listed q
  first_plan q (some get) = by_get_item q get (item_plan q q.metadata)

  -- firstInternal, which asks for one item
  unfoldable pub first_internal : Query → Option (Call Store Item)
  unfolding compile compile_get_item all_internal
  first_internal q = first_plan q executor.execute_get_item

  abbrev pub retried_first : Option RetryConfig → Call Store Item → Store → Run Store Item
  retried_first none call s = once call s
  retried_first (some config) call s =
      first_with_retry call config.max_retries config.initial_delay s

  -- First
  unfoldable pub first : Query → Store → Option (Run Store Item)
  unfolding first_internal first_with_retry
  first q =
      checked q.builder_err
        λ s. Option.map (λ call. retried_first q.retry_config call s) (first_internal q)

  abbrev pub scanned : Result Expr.Error CompiledQuery → Call Store (List Item)
  scanned (err e) s = (s, err (expression e))
  scanned (ok c) s = executor.execute_scan c s

  -- Scan
  unfoldable pub scan : Query → Store → Option (Run Store (List Item))
  unfolding compile_scan
  scan q =
      checked q.builder_err λ s. Option.map (λ compiled. once (scanned compiled) s) (compile_scan q)

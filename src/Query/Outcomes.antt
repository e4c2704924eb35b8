-- ===== src/Query/Outcomes.antt =====
-- pkg/query/query.go: what the methods that read return.
use mathlib.Core.Option
use table_theory.Base.{
  Assoc, Option, none, some, List, [], Result, ok, err, ◌∷◌, ◌⊎◌, inl, inr, ◌∙◌, ◌≡◌, refl, sym, ap,
}
use table_theory.Base.Int.{pos}
use table_theory.Expr
use table_theory.Expr.{AttributeValue}
use table_theory.Query.State.{RetryConfig, Query, item_not_found, Error}
use table_theory.Query.Chain.Groups.{Steps, run_steps}
use table_theory.Query.FirstError.{run_steps-keeps}
use table_theory.Query.Compile.{CompiledQuery, compile}
use table_theory.Query.Retries.{Run}
use table_theory.Query.Read
use table_theory.Query.Read.{
  Executor, all_items, first, scan, all_internal, retried_all, retried_first, first_internal,
  first_of, first_item, first_plan, item_plan, listed, checked,
}

module _ {Store Item : Type 0} (executor : Executor Store Item) where
  checked-err :
      {A : Type 0} (known : Option Error) (e : Error) (run : Store → Option (Run Store A))
      (s : Store)
      → known ≡ some e
      → checked executor known run s ≡ some (s, err e, [])
  checked-err none e run s h = cc
  checked-err (some f) e run s h = let same : f ≡ e = cc in rw same refl

  -- Once a query has recorded an error, First, All and Scan return that error after any further steps
  -- that return, be they calls that chain, the cursor and the groups of filters among them, without a
  -- delay and with the executor's state as it was.
  pub recorded_error-stops :
      (steps : Steps) (q next : Query) (e : Error) (held : List Item) (s : Store)
      → q.builder_err ≡ some e
      → run_steps steps q ≡ some next
      → (all_items executor next held s ≡ some (s, err e, []))
        × (first executor next s ≡ some (s, err e, []))
        × (scan executor next s ≡ some (s, err e, []))
  unfolding all_items first scan
  recorded_error-stops steps q next e held s h ran =
      let kept = run_steps-keeps e steps q next h ran in
      (
        checked-err next.builder_err e _ s kept,
        checked-err next.builder_err e _ s kept,
        checked-err next.builder_err e _ s kept,
      )

  -- The first item of what was read, or that there is none.
  abbrev item_of : Result Error (List Item) → Result Error Item
  item_of (ok (item ∷ items)) = ok item
  item_of (ok []) = err item_not_found
  item_of (err e) = err e

  abbrev pub first_of_run : Run Store (List Item) → Run Store Item
  first_of_run (s, r, delays) = (s, item_of r, delays)

  -- The executor has no GetItem, or the query is one that GetItem cannot serve.
  abbrev pub IsRead : Query → Type 0
  IsRead q = (executor.execute_get_item ≡ none) ⊎ (item_plan executor q q.metadata ≡ some (ok none))

  first_of-item_of : (r : Result Error (List Item)) → first_of executor r ≡ item_of r
  first_of-item_of (ok (item ∷ items)) = refl
  first_of-item_of (ok []) = refl
  first_of-item_of (err e) = refl

  checked-map :
      {A B : Type 0} (g : Run Store A → Run Store B) (known : Option Error)
      (run : Store → Option (Run Store A)) (other : Store → Option (Run Store B)) (s : Store)
      → ((e : Error) → g (s, err e, []) ≡ (s, err e, []))
      → other s ≡ Option.map g (run s)
      → checked executor known other s ≡ Option.map g (checked executor known run s)
  checked-map g none run other s fails h = h
  checked-map g (some e) run other s fails h = ap some (sym (fails e))

  first_plan-listed :
      (q : Query) (get : Option (CompiledQuery → Assoc AttributeValue → Read.Call Store Item))
      → (get ≡ none) ⊎ (item_plan executor q q.metadata ≡ some (ok none))
      → first_plan executor q get ≡ listed executor q
  first_plan-listed q none h = refl
  first_plan-listed q (some get) (inl no_get) = cc
  first_plan-listed q (some get) (inr refused) = rw refused refl

  -- Both run one call, and First takes the first item of it.
  runs_agree :
      (held : List Item) (s : Store) (retries : Option RetryConfig)
      (compiled : Option (Result Expr.Error CompiledQuery))
      → retries ≡ none
      → Option.map
          (λ call. retried_first executor retries call s)
          (Option.map (λ c. first_item executor (all_internal executor c)) compiled)
        ≡ Option.map first_of_run (
            Option.map
              (λ c. retried_all executor retries (all_internal executor c) held s)
              compiled)
  runs_agree held s (some config) compiled plain = cc
  runs_agree held s none none plain = refl
  runs_agree held s none (some c) plain =
      let out = all_internal executor c s in ap (λ r. some (out.0, r, [])) (first_of-item_of out.1)

  -- Without retries, and where no GetItem can serve the query, First is All of the query with a limit
  -- of one, from the same state of the executor: it returns the first item that All reads, that no
  -- item was found where All reads none, the error where All fails, and leaves the executor in the
  -- same state.
  pub first-eq-all :
      (q : Query) (held : List Item) (s : Store)
      → q.retry_config ≡ none
      → IsRead q
      → first executor q s
        ≡ Option.map first_of_run (all_items executor (record q { limit = pos 1 }) held s)
  unfolding first all_items first_internal
  first-eq-all q held s plain read =
      checked-map first_of_run q.builder_err _ _ s (λ e. refl)
        (ap (Option.map (λ call. retried_first executor q.retry_config call s))
            (first_plan-listed q executor.execute_get_item read)
          ∙ runs_agree held s q.retry_config (compile (record q { limit = pos 1 })) plain)

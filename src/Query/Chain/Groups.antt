-- ===== src/Query/Chain/Groups.antt =====
-- pkg/query/query.go: FilterGroup and OrFilterGroup. The function that fills a group is the list of the
-- calls that it makes on the query of the group; it may open groups of its own.
use mathlib.Core.Option
use table_theory.Base.{Option, none, some, Text, codes}
use table_theory.Expr.Filters.{add_group_filter}
use table_theory.Expr.Components.{build}
use table_theory.Query.State.{
  Query, Error, new_query, query_builder, builder_of, record_builder_error,
}
use table_theory.Query.Chain.{Call, call}

mutual
  -- A call that chains, a group among them.
  pub data Step : Type 0 where
    single : Call → Step
    filter_group or_filter_group : Steps → Step

  pub data Steps : Type 0 where
    no_steps : Steps
    then_step : Step → Steps → Steps

-- The query that a group is filled on
unfoldable pub sub_query : Query → Query
unfolding new_query query_builder
sub_query q = record (new_query q.model q.metadata) {
  converter = q.converter;
  builder = some (query_builder q);
}

abbrev pub with_sub_error : Option Error → Query → Query
with_sub_error none q = q
with_sub_error (some e) q = record_builder_error e q

-- addFilterGroup after the function; `none` is a panic of Build.
unfoldable pub add_filter_group : Text → Query → Query → Option Query
unfolding record_builder_error build add_group_filter query_builder
add_filter_group operator q sub =
    Option.map
      (λ components. record (with_sub_error sub.builder_err q) {
        builder = some (add_group_filter operator components (builder_of q q.builder));
      })
      (build (builder_of sub sub.builder))

abbrev pub after : Option Query → (Query → Option Query) → Option Query
after none next = none
after (some q) next = next q

-- A query after steps; a panic stays.
unfoldable mutual
  unfolding call sub_query add_filter_group

  pub run_step : Step → Query → Option Query
  run_step (single c) q = some (call c q)
  run_step (filter_group fn) q =
      after (run_steps fn (sub_query q)) (add_filter_group (codes "AND") q)
  run_step (or_filter_group fn) q =
      after (run_steps fn (sub_query q)) (add_filter_group (codes "OR") q)

  pub run_steps : Steps → Query → Option Query
  run_steps no_steps q = some q
  run_steps (then_step step steps) q = after (run_step step q) (λ next. run_steps steps next)

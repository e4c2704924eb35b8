-- ===== src/Lib.antt =====
-- A verification library for the Go implementation of TableTheory, a typed layer over DynamoDB.
--
-- The program: a query or a write is built from field names, operators and values of the caller.
-- pkg/validation checks each of them; internal/expr turns them into the expressions of DynamoDB with
-- placeholders for names and values; pkg/query collects conditions and groups on such a builder;
-- pkg/index chooses the index that a query uses. pkg/transaction collects writes and commits them
-- together, with retries. Next to that stand pkg/lease, locks by conditional writes on a table, and
-- pkg/protection, limits on the rate of requests.
--
-- Which file models what, with paths from the repository's root:
--   Base            what the modules share: texts by code points, decimal text, association lists for Go
--                   maps, `Result` for a value or an error, integers, tests into Bool.
--   Validation      pkg/validation/field_validator.go. Validation/Field is ValidateFieldName with its
--                   steps, Validation/Operator is ValidateOperator, Validation/Value has the Go values
--                   that the code tells apart and ValidateValue, Validation/Expression has
--                   ValidateExpression, ValidateTableName and ValidateIndexName.
--   Expr            internal/expr/builder.go and converter.go. The builder is the record `Builder`, and a
--                   method on it is an action: a state with a result, so that what was written before an
--                   error stays written. Expr/Names has addNameSecure and addValueSecure,
--                   Expr/Conditions has buildCondition with its operators, Expr/Filters, Expr/Updates
--                   and Expr/Sets have the public methods, Expr/Components has Build, Expr/Convert the
--                   conversion of values, Expr/Reserved the reserved words.
--   Expr/Groups     what a filter group of pkg/query/query.go does on the builders, with AddGroupFilter.
--   Index           pkg/index/selector.go: SelectOptimal and AnalyzeConditions.
--   Lease           pkg/lease/lease.go and errors.go. Lease/Client has the requests and the interface of
--                   the AWS client, which is a parameter, with the documented behaviour of conditional
--                   writes as a record of laws; Lease/Operations has Acquire, Refresh and Release;
--                   Lease/Exclusion runs many holders on one table.
--   Transaction     pkg/transaction/builder.go: the scheduling methods and, in Transaction/Retry,
--                   ExecuteWithContext with executeWithRetry and the translation of errors. The model
--                   registry, the client and the translation of one operation are arguments.
--   Encoding        what the code uses of Go's encoding/base64 and encoding/json and of UTF-8, with the
--                   proofs that what is written reads back.
--   Query           pkg/query. Query/State has the record `Query` and the methods of query.go that change
--                   it, over the interfaces of the metadata and of the model, which are parameters.
--                   Query/Chain has a constructor of `Call` for each method that chains, Cursor among
--                   them, and Query/Chain/Groups the groups of filters, with groups in groups and the
--                   errors that they record. Query/Keys splits the conditions into those on keys and
--                   the others, Query/Compile is Compile with its choice of Query or Scan, for an index
--                   that is named, chosen or absent, and Query/PrimaryKey has the request for one item.
--                   Query/Write has the condition of a write, Query/Read and Query/Retries have First,
--                   All and Scan with their retries over an executor that is a parameter.
--                   Query/Pagination is pagination.go: AllPaginated with the cursors of the pages.
--                   Query/Cursor is cursor.go, where a map is its entries in the order of their keys and
--                   an attribute value is not nil. The other files have the proofs, Query/Sample a table
--                   of users, and Query/Cases and Query/Examples run the code on it.
--   Batch           BatchGetWithOptions and its builder, pkg/query/batch_get.go with the options of pkg/core.
--                   Batch/Keys converts the keys, Batch/Get has the chunks and the runs of them, in
--                   sequence and in parallel, over an executor that is a parameter, Batch/Align puts the
--                   items of a response in the places of their keys.
--   Consistency     pkg/consistency/retry.go: executeWithRetry of a query that is read until it shows a
--                   write.
--   Protection      pkg/protection: SimpleLimiter of simple_rate_limiter.go, and in Protection/Batch
--                   the slots of AcquireBatch and ReleaseBatch of resource_limiter.go, as the steps of
--                   interleaved goroutines.
--
-- How state and operations correspond. A `*Builder` or `*Manager` that a method mutates or reads is a
-- record that the function takes and returns. An error return is `err`, a panic is `none`. A map is an
-- association list in the order of insertion; where the code walks a map in Go's random order, the
-- order here is one that Go may take. Text is ASCII text by its code points, for which the case
-- functions of package strings are the ones in Base/Strings. The placeholder counters and lengths are
-- natural numbers without a bound: a builder would have to hold more than 2^63 entries to meet one.
-- Clock readings are arguments of the calls that make them.
--
-- Loops are structural recursion on the list that they walk, the retries of a transaction on the waits
-- that are left. The chunks of a batch get have fuel for each key, of which a chunk takes
-- one. `format` prints a number with fuel above it, and `scan-format` in Base/Decimal shows that it is
-- enough. The UTF-8 decoder and the reader of a JSON string have fuel for each byte that is
-- left and take one at least in each round; the JSON reader has two units of fuel for each character
-- and two more, of which a call costs one, and `parse-print` in Encoding/Json/RoundTrip shows that this
-- is enough for every text that is written.
--
-- Not modelled: reflection over structs (pkg/model, pkg/marshal, pkg/types), the calls of the AWS
-- control plane and of KMS, the memory monitor, and the SDKs in other languages. The
-- field names and values of a model are parameters, since they come from reflection. Left for later:
-- Create, Update and Delete of pkg/query, the translation of one operation of a transaction, batch
-- writes, the rest of pkg/consistency and the executors.
pub mod Base
pub mod Batch
pub mod Validation
pub mod Encoding
pub mod Expr
pub mod Lease
pub mod Index
pub mod Protection
pub mod Transaction
pub mod Consistency
pub mod Query

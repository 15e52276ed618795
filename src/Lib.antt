-- ===== src/Lib.antt =====
-- Verification library of the Go package github.com/pay-theory/dynamorm.
--
-- DynamORM compiles queries on Go structs into DynamoDB requests. Names, operators and values from
-- the caller pass pkg/validation, then internal/expr turns them into expressions with placeholders.
-- pkg/query collects conditions, chooses an index by pkg/index and compiles them with the builder;
-- it also runs batches, reads pages and makes cursors. pkg/transaction collects operations, whose
-- conditions go through the same builder, and retries them. pkg/naming names the attributes, and
-- pkg/protection bounds the load; its rate limiter is called by the batch limiter and by the body
-- reader.
--
-- Base: native numbers, lists, texts and association lists. A text is a list of code points; `len`
-- is its length in bytes of UTF-8. `Unicode` stands for the case tables of the Go library, with
-- their behaviour on ASCII.
--
-- Validation (pkg/validation/field_validator.go): Patterns has the lists and the regular
-- expressions, Field `ValidateFieldName` and what it calls, Operator `ValidateOperator`, Value
-- `ValidateValue` on the cases of `any` that it tells apart, Names `ValidateExpression`,
-- `ValidateTableName` and `ValidateIndexName`. Field/Part and Field/Grammar describe the accepted
-- names independently of the code.
--
-- Expr (internal/expr/builder.go): Reserved has the reserved words, Builder the state and the
-- placeholders (`addNameSecure`, `addValueSecure`), Builder/Condition `buildCondition`,
-- Builder/Build the methods that add conditions and `Build`, Builder/Update the update expressions.
-- The conversion of values to attributes (internal/expr/converter.go and custom converters) is a
-- parameter. A Go map is an association list; the loops of `addNameSecure` and `Build` over maps
-- meet the entries in its order. Builder/Log lists what calls add to a builder, in their order, and
-- Builder/Applied the conditions that are asked of it one after the other. An index out of range is
-- the result `none`.
--
-- Protection (pkg/protection): Limiter is simple_rate_limiter.go with int64 wrap-around, and a
-- clock that is an argument. Batch is `AcquireBatch` and `ReleaseBatch` of resource_limiter.go as
-- atomic steps of any number of goroutines under a schedule, Request is `SecureBodyReader` with the
-- bytes of the body and a failure of reading them as arguments, Request/Many its calls one after the
-- other, and Monitor is the life cycle of the memory monitor as a step relation.
--
-- Index (pkg/index/selector.go): `AnalyzeConditions` and `SelectOptimal`. `strings.EqualFold` is a
-- parameter, here and in Query.
--
-- Naming (pkg/naming/naming.go): `DefaultAttrName`, `ToSnakeCase`, `ValidateAttrName` and what joins
-- them; a struct field is its name and its `dynamorm` tag.
--
-- Query (pkg/query): State is `Query` of query.go with the methods that add to it, a filter group
-- given as the calls its function makes; Keys is which conditions are on the keys of an index and
-- `selectBestIndex`; Compile is `Compile` and `compileScan`, where `none` is a panic. GetItem is
-- `compileGetItem`, and Writes `buildConditionExpression` with the calls that add write conditions.
-- What reflection finds in the model's key fields is a parameter. Cursor is
-- cursor.go on attribute values and JSON values, with encoding/base64 and encoding/json as a
-- parameter that round-trips. BatchGet is `normalizeBatchGetOptions` and `buildBatchGetChunks` of
-- batch_get.go, over any type of keys, and BatchGet/Align the alignment of the items with the keys.
-- BatchWrite is `BatchWriteWithOptions` of batch_operations.go with its retries; the executor is a
-- step on any state, whose answers account for every request. Paging is `executePagedItems` of
-- executor.go over any pager.
--
-- Transaction (pkg/transaction/builder.go): the builder's calls over a registry that is a parameter,
-- Conditions the conditions of an operation and `mergeRawConditions`, Retry `executeWithRetry` and
-- `translateError`; the client is the answer to each attempt.
--
-- Loops are structural recursion. Fuel is used in four places: `decimal` takes one more than the
-- number that is printed, and each step uses up a digit; the loops of the chunks and of the batches
-- take the number of keys or requests, and each chunk uses up one at least; the loop of the pages
-- takes the number of pages. The retries of a batch write count down the 5 attempts of the source,
-- those of a transaction the waits of its schedule.
--
-- Not modelled: the items and update expressions of writes, batch updates, concurrent batches,
-- the update builder, aggregates and the optimizer of pkg/query; the items of a transaction; the
-- model registry, marshalling, schema and encryption packages, which go by reflection or the AWS
-- SDK; and in the builder `Clone`, `AddAdvancedFunction`, `AddUpdateDelete` and its conversion to
-- sets. Metadata is never nil. Sleeps and progress callbacks are left out, but for the waits of a
-- transaction. Error texts are kept where the code makes them from constants.
pub mod Base
pub mod Protection
pub mod Validation
pub mod Expr
pub mod Index
pub mod Naming
pub mod Query
pub mod Transaction
pub mod Tests

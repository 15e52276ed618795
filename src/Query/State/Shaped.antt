-- ===== src/Query/State/Shaped.antt =====
-- pkg/query/query.go: the builder of a query stays one that `Build` can read.
use dynamorm.Base.{◌≡◌, refl, Option, none, some, List, [], ◌∷◌, Option-cases, inl, inr}
use dynamorm.Base.Text.{Text, Unicode}
use dynamorm.Expr.Builder.{Builder, Converter, Result, ok, err}
use dynamorm.Expr.Builder.Build.{add_group_filter}
use dynamorm.Expr.Builder.Shape.{IsShaped, filter_condition, group_filter, call, call-IsShaped}
use dynamorm.Expr.Builder.Built.{build-IsBuilt, new_builder-IsShaped}
use dynamorm.Validation.Value.{Value}
use dynamorm.Query.State.{
  ModelMetadata, QueryError, builder_failure, Query, new_query, record_builder_error,
  reject_encrypted, resolve_attribute_name, FilterCall, filter, group, FilterCalls, done,
  call as then_call, builder_of, record_failure, record_sub_error, add_filter, close_group,
  continue_with, sub_query, apply_call, apply_calls, add_where, QueryCall, where_, filtered,
  selected, indexed, ordered, limited, offset_by, segmented, started_at, consistent, query_call,
  query_calls, select,
}

-- The operators and conditions in the builder of the query are in step.
abbrev pub IsReady : {A : Type 0} → Query A → Type 0
IsReady q = IsShaped (builder_of q.builder)

-- A step that returned a query which is ready.
abbrev pub Readies : {A : Type 0} → Option (Query A) → Type 0
Readies {A} o = (q : Query A) × (o ≡ some q) × IsReady q

pub new_query-IsReady : {A : Type 0} → IsReady {A = A} new_query
unfolding new_query
new_query-IsReady = new_builder-IsShaped

record_builder_error-builder :
    {A : Type 0} (e : QueryError) (q : Query A) → (record_builder_error e q).builder ≡ q.builder
unfolding record_builder_error
record_builder_error-builder e q = elim (Option-cases q.builder_err) [
  | inl fresh ↦ rw (fresh, record_builder_error) refl
  | inr (first, kept) ↦ rw (kept, record_builder_error) refl
]

recorded-IsReady :
    {A : Type 0} (e : QueryError) (q : Query A) → IsReady q → IsReady (record_builder_error e q)
recorded-IsReady e q v = rw (record_builder_error-builder e q) v

record_failure-IsReady :
    {A : Type 0} (r : Builder A × Result (Unit {0})) (q : Query A)
    → IsShaped r.0
    → IsReady (record_failure r q)
record_failure-IsReady (b, ok x) q v = v
record_failure-IsReady (b, err e) q v =
    recorded-IsReady (builder_failure e) (record q { builder = some b }) v

record_sub_error-IsReady :
    {A : Type 0} (o : Option QueryError) (q : Query A) → IsReady q → IsReady (record_sub_error o q)
record_sub_error-IsReady none q v = v
record_sub_error-IsReady (some e) q v = recorded-IsReady e q v

module _ {A : Type 0} (u : Unicode) (c : Converter A) (metadata : ModelMetadata) where
  add_filter-IsReady :
      (logical_op field op : Text) (value : Value) (q : Query A)
      → IsReady q
      → IsReady (add_filter u c metadata logical_op field op value q)
  unfolding add_filter call
  add_filter-IsReady logical_op field op value q v =
      elim (Option-cases (reject_encrypted metadata field)) [
        | inr (e, refused) ↦ rw (refused, add_filter) (recorded-IsReady e q v)
        | inl fine ↦
            rw (fine, add_filter)
              (record_failure-IsReady _ q (
                call-IsShaped u c
                  (filter_condition logical_op (resolve_attribute_name metadata field) op value)
                  (builder_of q.builder) v))
      ]

  close_group-Readies :
      (logical_op : Text) (sub q : Query A)
      → IsReady sub
      → IsReady q
      → Readies (close_group u c metadata logical_op (some sub) q)
  unfolding call
  close_group-Readies logical_op sub q w v =
      let built = build-IsBuilt (builder_of sub.builder) w in
      let q' = record_sub_error sub.builder_err q in
      (
        record q' {
          builder = some (add_group_filter logical_op built.components (builder_of q'.builder));
        },
        rw built.returned refl,
        call-IsShaped u c (group_filter logical_op built.components) (builder_of q'.builder)
            (record_sub_error-IsReady sub.builder_err q v),
      )

  close-Readies :
      (logical_op : Text) (o : Option (Query A)) (q : Query A)
      → Readies o
      → IsReady q
      → Readies (close_group u c metadata logical_op o q)
  close-Readies logical_op o q (sub, e, w) v = rw e (close_group-Readies logical_op sub q w v)

  continue-Readies :
      (o : Option (Query A)) (k : Query A → Option (Query A))
      → Readies o
      → ((q : Query A) → IsReady q → Readies (k q))
      → Readies (continue_with o k)
  continue-Readies o k (q, e, w) h = rw e (h q w)

  mutual
    unfolding apply_call apply_calls

    apply_call-Readies :
        (f : FilterCall) (q : Query A) → IsReady q → Readies (apply_call u c metadata f q)
    apply_call-Readies (filter logical_op field op value) q v =
        (_, refl, add_filter-IsReady logical_op field op value q v)
    apply_call-Readies (group logical_op calls) q v =
        close-Readies logical_op _ q (apply_calls-Readies calls sub_query new_builder-IsShaped) v

    apply_calls-Readies :
        (calls : FilterCalls) (q : Query A) → IsReady q → Readies (apply_calls u c metadata calls q)
    apply_calls-Readies done q v = (q, refl, v)
    apply_calls-Readies (then_call f calls) q v =
        continue-Readies _ _ (apply_call-Readies f q v) (apply_calls-Readies calls)

  query_call-Readies :
      (m : QueryCall A) (q : Query A) → IsReady q → Readies (query_call u c metadata m q)
  unfolding query_call add_where select
  query_call-Readies (where_ cond) q v = (add_where metadata cond q, refl, where_ready)
    where
      where_ready : IsReady (add_where metadata cond q)
      where_ready = elim (Option-cases (reject_encrypted metadata cond.field)) [
        | inl fine ↦ rw (fine, add_where) v
        | inr (e, refused) ↦ rw (refused, add_where) (recorded-IsReady e q v)
      ]
  query_call-Readies (filtered f) q v = apply_call-Readies f q v
  query_call-Readies (selected fields) q v = (_, refl, v)
  query_call-Readies (indexed name) q v = (_, refl, v)
  query_call-Readies (ordered order) q v = (_, refl, v)
  query_call-Readies (limited n) q v = (_, refl, v)
  query_call-Readies (offset_by n) q v = (_, refl, v)
  query_call-Readies (segmented segment total) q v = (_, refl, v)
  query_call-Readies (started_at key) q v = (_, refl, v)
  query_call-Readies consistent q v = (_, refl, v)

  pub query_calls-Readies :
      (ms : List (QueryCall A)) (q : Query A) → IsReady q → Readies (query_calls u c metadata ms q)
  unfolding query_calls
  query_calls-Readies [] q v = (q, refl, v)
  query_calls-Readies (m ∷ ms) q v =
      continue-Readies _ _ (query_call-Readies m q v) (query_calls-Readies ms)

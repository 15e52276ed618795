-- ===== src/Tests/Queries.antt =====
-- pkg/query: queries of orders by customer and date, their keys, compilation and cursor.
use dynamorm.Base.{ℕ, refl, true, false, Option, none, some, List, [], ◌∷◌}
use dynamorm.Base.Int.{pos}
use dynamorm.Base.Text.{codes, text_eq}
use dynamorm.Expr.Builder.{Converter, ok}
use dynamorm.Query.Compile.Returns.{Compiles, query_calls-Compiles}
use dynamorm.Query.Cursor.{
  AttributeMap, no_attributes, attribute, s, ss, null, bool, l, value, no_values, Cursor, Codec,
}
use dynamorm.Query.Cursor.RoundTrip.{
  IsCodec, reread_cursor, map_known, is_known, all_known, IsRoundTrip, encode_cursor-IsRoundTrip,
}
use dynamorm.Query.GetItem.{compile_get_item}
use dynamorm.Query.GetItem.Faithful.{Gets, compile_get_item-Gets}
use dynamorm.Query.Keys.{
  KeyNames, normalize_condition, index_condition, partition_conditions_for_keys, select_best_index,
}
use dynamorm.Query.Keys.Choice.{IsChosen, select_best_index-IsChosen}
use dynamorm.Query.Keys.Partition.{IsPartitioned, partition_conditions_for_keys-IsPartitioned}
use dynamorm.Query.State.{
  Query, ModelMetadata, Condition, QueryCall, where_, filtered, filter, group, done, call, limited,
  consistent, query_calls, new_query,
}
use dynamorm.Query.Writes.{
  Writes, no_writes, if_not_exists, with_condition_expression, write_call, Asked,
}
use dynamorm.Tests.Index.{equal_fold, by_customer}
use dynamorm.Tests.Text.{ascii, texts_differ}
use dynamorm.Validation.Value.{str}

abbrev orders : ModelMetadata
orders = record {
  table_name = codes "orders";
  partition_key = codes "ID";
  sort_key = [];
  indexes = by_customer ∷ [];
  attribute_metadata = λ name. none;
}

abbrev customer_is : Condition
customer_is = record { field = codes "Customer"; operator = codes "="; value = str (codes "ann") }

abbrev date_contains : Condition
date_contains = record {
  field = codes "Date";
  operator = codes "contains";
  value = str (codes "2024");
}

abbrev date_keys : KeyNames
date_keys = record {
  pk_go = codes "Customer";
  pk_attr = codes "Customer";
  sk_go = codes "Date";
  sk_attr = codes "Date";
}

partition_conditions_for_keys-IsPartitioned_example :
    IsPartitioned ascii equal_fold orders date_keys
      ([], [])
      (customer_is ∷ date_contains ∷ [])
      (partition_conditions_for_keys ascii equal_fold orders date_keys
        (customer_is ∷ date_contains ∷ []))
partition_conditions_for_keys-IsPartitioned_example =
    partition_conditions_for_keys-IsPartitioned ascii equal_fold orders date_keys
      (customer_is ∷ date_contains ∷ [])

select_best_index-IsChosen_example :
    IsChosen ascii equal_fold orders
      (customer_is ∷ date_contains ∷ [])
      (select_best_index ascii equal_fold orders (customer_is ∷ date_contains ∷ []))
unfolding index_condition normalize_condition text_eq
select_best_index-IsChosen_example =
    select_best_index-IsChosen ascii equal_fold orders (customer_is ∷ date_contains ∷ [])
      (texts_differ (codes "Customer") [] refl, (texts_differ (codes "Date") [] refl, tt))

abbrev constant : Converter ℕ
constant = record { custom = λ v. none; convert = λ v. ok 0 }

abbrev grouped : List (QueryCall ℕ)
grouped =
    where_ customer_is
    ∷ filtered (filter (codes "AND") (codes "status") (codes "=") (str (codes "open")))
    ∷ filtered (
        group (codes "OR")
          (call (filter (codes "AND") (codes "total") (codes "=") (str (codes "1"))) done))
    ∷ limited (pos 10)
    ∷ consistent
    ∷ []

query_calls-Compiles_example :
    Compiles ascii equal_fold constant orders (query_calls ascii constant orders grouped new_query)
query_calls-Compiles_example = query_calls-Compiles ascii equal_fold constant orders grouped

-- Codecs whose bytes are the cursor itself.
abbrev decoded : Option Cursor → Option Cursor
decoded none = none
decoded (some c) = some c

abbrev plain : Codec Cursor (Option Cursor)
plain = record {
  std_encode = λ t. t;
  std_decode = λ t. some t;
  url_encode = λ c. some c;
  url_decode = decoded;
  marshal = λ c. some c;
  unmarshal = λ c. some (reread_cursor c);
  blank = none;
  is_blank = λ e. elim e [ none ↦ true | some c ↦ false ];
}

plain-IsCodec : IsCodec plain
plain-IsCodec = record {
  std = λ t. refl;
  json = λ c. (c, refl, refl, refl);
  url = λ c. refl;
  blank_is = refl;
}

abbrev last_key : AttributeMap
last_key = attribute (codes "ID") (s (codes "7")) (
    attribute (codes "tags") (ss (some (codes "a" ∷ []))) (
      attribute (codes "more") (l (value (null false) (value (bool true) no_values)))
        no_attributes))

encode_cursor-IsRoundTrip_example :
    IsRoundTrip plain plain-IsCodec last_key (codes "by-customer") (codes "desc")
unfolding map_known is_known all_known
encode_cursor-IsRoundTrip_example =
    encode_cursor-IsRoundTrip plain plain-IsCodec last_key (codes "by-customer") (codes "desc") refl

-- A create that must not replace an item, with a raw expression.
abbrev guarded_write : Writes
guarded_write =
    write_call orders
      (with_condition_expression (codes "total > :t") ((codes ":t", str (codes "1")) ∷ []))
      (write_call orders if_not_exists no_writes)

abbrev create_asks : Asked ascii equal_fold constant constant.convert orders
create_asks = record { include_where = true; skip_keys = true; default_if_empty = true }

abbrev by_id : Query ℕ
by_id = record new_query {
  conditions = record { field = codes "ID"; operator = codes "="; value = str (codes "7") } ∷ [];
}

compile_get_item-Gets_example :
    Gets ascii equal_fold
      (λ name. none)
      constant.convert
      orders
      by_id
      (compile_get_item ascii equal_fold (λ name. none) constant.convert orders by_id)
compile_get_item-Gets_example =
    compile_get_item-Gets ascii equal_fold (λ name. none) constant.convert orders by_id

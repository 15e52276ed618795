-- ===== src/Tests/Index.antt =====
-- pkg/index: an index for the orders of a customer by date.
use dynamorm.Base.{◌≡◌, refl, Bool, some, List, [], ◌∷◌}
use dynamorm.Base.Text.{Text, codes, text_eq, lower}
use dynamorm.Index.{
  IndexSchema, RequiredKeys, Condition, select_optimal, analyze_conditions, score_index,
}
use dynamorm.Index.Best.{IsSelected, select_optimal-IsSelected}
use dynamorm.Index.Analyze.{keys_of, analyze_conditions-keys_of}
use dynamorm.Tests.Text.{ascii, texts_differ}

abbrev pub equal_fold : Text → Text → Bool
equal_fold s t = text_eq (lower ascii s) (lower ascii t)

abbrev pub by_customer : IndexSchema
by_customer = record {
  name = codes "by-customer";
  kind = codes "GSI";
  partition_key = codes "Customer";
  sort_key = codes "Date";
  projection_type = codes "ALL";
  projected_fields = [];
}

abbrev by_id : IndexSchema
by_id = record {
  name = [];
  kind = codes "PRIMARY";
  partition_key = codes "ID";
  sort_key = [];
  projection_type = [];
  projected_fields = [];
}

abbrev customer_dates : RequiredKeys
customer_dates = record {
  partition_key = codes "Customer";
  sort_key = codes "Date";
  sort_key_op = codes "begins_with";
}

customer_selected : select_optimal (by_id ∷ by_customer ∷ []) customer_dates ≡ some by_customer
unfolding select_optimal score_index text_eq
customer_selected = refl

select_optimal-IsSelected_example :
    IsSelected customer_dates
      (by_id ∷ by_customer ∷ [])
      (select_optimal (by_id ∷ by_customer ∷ []) customer_dates)
unfolding text_eq
select_optimal-IsSelected_example =
    select_optimal-IsSelected (by_id ∷ by_customer ∷ []) customer_dates
      (texts_differ (codes "Customer") [] refl)

abbrev date_of_customer : List Condition
date_of_customer =
    record { field = codes "Date"; operator = codes ">" }
    ∷ record { field = codes "Customer"; operator = codes "=" }
    ∷ []

analyze_conditions-keys_of_example :
    analyze_conditions ascii equal_fold date_of_customer
    ≡ keys_of ascii equal_fold [] date_of_customer
unfolding text_eq
analyze_conditions-keys_of_example =
    analyze_conditions-keys_of ascii equal_fold date_of_customer
      (texts_differ (codes "Date") [] refl, (texts_differ (codes "Customer") [] refl, tt))

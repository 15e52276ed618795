-- ===== src/Query/BatchGet/Align.antt =====
-- pkg/query/batch_get.go: the items of a batch get in the order of its keys. The executor is a
-- parameter; chunks are read one after the other.
pub mod Found
pub mod Matched
use dynamorm.Base.{
  ℕ, zero, suc, ◌+◌, Bool, true, false, not, ◌&&◌, ◌⊎◌, inl, inr, Option, none, some, List, [], ◌∷◌,
  ◌++◌, set, length, ltb, replicate, if◌then◌else◌,
}
use dynamorm.Base.Assoc.{lookup}
use dynamorm.Base.Text.{Text, text_eq}
use dynamorm.Query.BatchGet.{BatchKeySpec, BatchGetChunk}
use dynamorm.Query.Cursor.{AttributeValue, s, n, b, Bytes}

abbrev pub AttributeItem : Type 0
AttributeItem = List (Text × AttributeValue)

abbrev one_more :
    Option (List (Option AttributeItem) × ℕ) → Option (List (Option AttributeItem) × ℕ)
one_more none = none
one_more (some (ordered, matched)) = some (ordered, suc matched)

-- `none` is the panic of an index out of range.
abbrev align_found :
    Option (AttributeItem × List (AttributeItem × Bool))
    → ℕ
    → List (AttributeItem × Bool)
    → List (Option AttributeItem)
    → (List (AttributeItem × Bool)
        → List (Option AttributeItem)
        → Option (List (Option AttributeItem) × ℕ))
    → Option (List (Option AttributeItem) × ℕ)
align_found none index slots ordered next = next slots ordered
align_found (some (item, slots')) index slots ordered next =
    if ltb index (length ordered)
    then one_more (next slots' (set ordered index (some item)))
    else none

pub unused : List AttributeItem → List (AttributeItem × Bool)
unused [] = []
unused (item ∷ items) = (item, false) ∷ unused items

-- `flattenBatchGetResults`
unfoldable pub flatten_results : List (Option AttributeItem) → List AttributeItem
flatten_results [] = []
flatten_results (none ∷ ordered) = flatten_results ordered
flatten_results (some item ∷ ordered) = item ∷ flatten_results ordered

module _ (deep_equal : AttributeValue → AttributeValue → Bool) where
  -- `attributeValuesEqual`, over `reflect.DeepEqual`; bytes are compared like the codes of a text.
  unfoldable pub attribute_values_equal : AttributeValue → AttributeValue → Bool
  attribute_values_equal (s t) (s t') = text_eq t t'
  attribute_values_equal (s t) _ = false
  attribute_values_equal (n t) (n t') = text_eq t t'
  attribute_values_equal (n t) _ = false
  attribute_values_equal (b t) (b t') = text_eq t t'
  attribute_values_equal (b t) _ = false
  attribute_values_equal v w = deep_equal v w

  abbrev has_value : AttributeValue → Option AttributeValue → Bool
  has_value expected none = false
  has_value expected (some actual) = attribute_values_equal expected actual

  -- `keyMatchesItem`
  unfoldable pub key_matches_item : AttributeItem → AttributeItem → Bool
  key_matches_item [] item = true
  key_matches_item ((attr, expected) ∷ key) item =
      has_value expected (lookup attr item) && key_matches_item key item

  -- `findMatchingItem`: the first item that is not used yet and matches, and the items with it used.
  unfoldable pub find_matching_item :
      AttributeItem
      → List (AttributeItem × Bool)
      → Option (AttributeItem × List (AttributeItem × Bool))
  find_matching_item key [] = none
  find_matching_item key ((item, used) ∷ slots) =
      let rest = find_matching_item key slots in
      if not used && key_matches_item key item
      then some (item, (item, true) ∷ slots)
      else elim rest [ none ↦ none | some r ↦ some (r.0, (item, used) ∷ r.1) ]

  module _ {O : Type 0} where
    -- The loop of `alignChunkResults`, with the number of keys that are matched.
    unfoldable pub align_loop :
        List (BatchKeySpec AttributeItem O)
        → List (AttributeItem × Bool)
        → List (Option AttributeItem)
        → Option (List (Option AttributeItem) × ℕ)
    align_loop [] slots ordered = some (ordered, 0)
    align_loop (key ∷ keys) slots ordered =
        align_found (find_matching_item key.attrs slots) key.index slots ordered (align_loop keys)

    -- `alignChunkResults`
    unfoldable pub align_chunk_results :
        List (BatchKeySpec AttributeItem O)
        → List AttributeItem
        → List (Option AttributeItem)
        → Option (List (Option AttributeItem) × ℕ)
    unfolding unused
    align_chunk_results keys [] ordered = some (ordered, 0)
    align_chunk_results keys (item ∷ items) ordered =
        align_loop keys (unused (item ∷ items)) ordered

    module _ {E : Type 0} (fetch : BatchGetChunk AttributeItem O → E ⊎ List AttributeItem)
        (on_chunk_error : Option (List O → E → Option E)) where
      -- The error of a chunk, by the handler if there is one.
      abbrev chunk_error : BatchGetChunk AttributeItem O → E → Option E
      chunk_error chunk e = elim on_chunk_error [
        | none ↦ some e
        | some handler ↦ handler chunk.originals e
      ]

      abbrev next_chunk :
          Option E
          → List (Option AttributeItem)
          → (List (Option AttributeItem) → Option (E ⊎ List (Option AttributeItem)))
          → Option (E ⊎ List (Option AttributeItem))
      next_chunk (some e) ordered next = some (inl e)
      next_chunk none ordered next = next ordered

      abbrev after_align :
          Option (List (Option AttributeItem) × ℕ)
          → (List (Option AttributeItem) → Option (E ⊎ List (Option AttributeItem)))
          → Option (E ⊎ List (Option AttributeItem))
      after_align none next = none
      after_align (some (ordered, matched)) next = next ordered

      abbrev after_fetch :
          BatchGetChunk AttributeItem O
          → E ⊎ List AttributeItem
          → List (Option AttributeItem)
          → (List (Option AttributeItem) → Option (E ⊎ List (Option AttributeItem)))
          → Option (E ⊎ List (Option AttributeItem))
      after_fetch chunk (inl e) ordered next = next_chunk (chunk_error chunk e) ordered next
      after_fetch chunk (inr items) ordered next =
          after_align (align_chunk_results chunk.keys items ordered) next

      -- The loop of `executeBatchGetChunks` over the chunks.
      unfoldable pub chunks_loop :
          List (BatchGetChunk AttributeItem O)
          → List (Option AttributeItem)
          → Option (E ⊎ List (Option AttributeItem))
      chunks_loop [] ordered = some (inr ordered)
      chunks_loop (chunk ∷ chunks) ordered =
          after_fetch chunk (fetch chunk) ordered (chunks_loop chunks)

      abbrev flattened : Option (E ⊎ List (Option AttributeItem)) → Option (E ⊎ List AttributeItem)
      flattened none = none
      flattened (some (inl e)) = some (inl e)
      flattened (some (inr ordered)) = some (inr (flatten_results ordered))

      -- `executeBatchGetChunks` without concurrency, for a number of keys.
      unfoldable pub execute_batch_get_chunks :
          List (BatchGetChunk AttributeItem O) → ℕ → Option (E ⊎ List AttributeItem)
      execute_batch_get_chunks chunks count = flattened (chunks_loop chunks (replicate count none))

-- ===== src/Query/BatchGet/Align/Found.antt =====
-- pkg/query/batch_get.go: a free item that is found matches its key, and is used up.
use dynamorm.Base.{
  ℕ, suc, ◌≡◌, refl, ap, inl, inr, Bool, true, false, Option, none, some, List, [], ◌∷◌, length,
  Bool-cases, if◌then◌else◌,
}
use dynamorm.Query.BatchGet.Align.{AttributeItem, key_matches_item, find_matching_item, unused}
use dynamorm.Query.Cursor.{AttributeValue}

-- The number of items that are not used yet.
abbrev pub free : List (AttributeItem × Bool) → ℕ
free [] = 0
free ((item, true) ∷ slots) = free slots
free ((item, false) ∷ slots) = suc (free slots)

pub free-unused : (items : List AttributeItem) → free (unused items) ≡ length items
unfolding unused
free-unused [] = refl
free-unused (item ∷ items) = ap suc (free-unused items)

module _ (deep_equal : AttributeValue → AttributeValue → Bool) where
  -- An item that is found matches the key, and is one of those that were free.
  abbrev pub Finds :
      AttributeItem → ℕ → Option (AttributeItem × List (AttributeItem × Bool)) → Type 0
  Finds key count none = Unit
  Finds key count (some r) = (key_matches_item deep_equal key r.0 ≡ true) × (suc (free r.1) ≡ count)

  skip-Finds :
      (key item : AttributeItem) (used : Bool) (count : ℕ)
      (o : Option (AttributeItem × List (AttributeItem × Bool)))
      → Finds key count o
      → Finds key
          (if used then count else suc count)
          (elim o [ none ↦ none | some r ↦ some (r.0, (item, used) ∷ r.1) ])
  skip-Finds key item used count none h = tt
  skip-Finds key item true count (some r) h = h
  skip-Finds key item false count (some r) h = (h.0, ap suc h.1)

  pub find_matching_item-Finds :
      (key : AttributeItem) (slots : List (AttributeItem × Bool))
      → Finds key (free slots) (find_matching_item deep_equal key slots)
  unfolding find_matching_item
  find_matching_item-Finds key [] = tt
  find_matching_item-Finds key ((item, true) ∷ slots) =
      skip-Finds key item true (free slots) _ (find_matching_item-Finds key slots)
  find_matching_item-Finds key ((item, false) ∷ slots) =
      elim (Bool-cases (key_matches_item deep_equal key item)) [
        | inl same ↦ rw (same, find_matching_item) (same, refl)
        | inr other ↦
            rw (other, find_matching_item)
              (skip-Finds key item false (free slots) _ (find_matching_item-Finds key slots))
      ]

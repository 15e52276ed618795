-- ===== src/Tests/Batches.antt =====
-- pkg/query: batch writes, the items of a batch get, and pages.
use mathlib.Core.List.{Perm, append-nil}
use mathlib.Core.List.Perm
use mathlib.Core.Path.{subst}
use dynamorm.Base.{
  ℕ, suc, ◌≡◌, refl, ◌&&◌, not, Bool, false, Option, none, some, List, [], ◌∷◌, ◌++◌, ◌⊎◌, inr,
  take, drop, take-append-drop, arith,
}
use dynamorm.Base.Int.{pos}
use dynamorm.Base.Text.{Text, codes, text_eq, contains}
use dynamorm.Query.BatchGet.{BatchGetChunk}
use dynamorm.Query.BatchGet.Align.{AttributeItem, execute_batch_get_chunks}
use dynamorm.Query.BatchGet.Align.Matched.{
  Returned, IsAskedFor, IsOutOfRange, execute_batch_get_chunks-Returned,
}
use dynamorm.Query.BatchWrite.{
  Answer, refused, nil_result, processed, flatten, max_attempts, execute_batch_write_with_retries,
  batch_write_with_options, write_loop, write_batches, make_requests, build_batch_write_requests,
  split_write_requests, split_loop, batch_size_of, contains_text,
}
use dynamorm.Query.BatchWrite.Search.{contains_text-contains}
use dynamorm.Query.BatchWrite.Complete.{IsComplete, batch_write_with_options-IsComplete}
use dynamorm.Query.BatchWrite.Written.{
  IsExecutor, IsWritten, execute_batch_write_with_retries-IsWritten,
}
use dynamorm.Query.Cursor.{AttributeValue, s}
use dynamorm.Query.Paging.{IsRead, execute_paged_items, execute_paged_items-IsRead}

-- An executor that processes two requests at a time.
abbrev by_two : ℕ → List ℕ → ℕ × Answer ℕ ℕ
by_two calls rs = (suc calls, processed (take 2 rs) (drop 2 rs ∷ []))

abbrev Accounts : List ℕ → Answer ℕ ℕ → Type 0
Accounts rs (refused e) = Unit
Accounts rs nil_result = Unit
Accounts rs (processed written unprocessed) = Perm (written ++ flatten unprocessed) rs

two_account : (rs : List ℕ) → Accounts rs (processed (take 2 rs) (drop 2 rs ∷ []))
two_account rs = rw (append-nil (drop 2 rs), take-append-drop 2 rs) (Perm.refl rs)

by_two-IsExecutor : IsExecutor by_two
by_two-IsExecutor calls rs written unprocessed e = subst (Accounts rs) e (two_account rs)

abbrev five : List ℕ
five = 1 ∷ 2 ∷ 3 ∷ 4 ∷ 5 ∷ []

five_written : (execute_batch_write_with_retries by_two 0 five).calls ≡ 3
unfolding execute_batch_write_with_retries write_loop
five_written = refl

execute_batch_write_with_retries-IsWritten_example :
    IsWritten by_two max_attempts five (execute_batch_write_with_retries by_two 0 five)
execute_batch_write_with_retries-IsWritten_example =
    execute_batch_write_with_retries-IsWritten by_two by_two-IsExecutor 0 five

abbrev request_of : ℕ → ℕ ⊎ ℕ
request_of x = inr x

batch_write_with_options-IsComplete_example :
    IsComplete by_two request_of request_of by_two-IsExecutor five
      (6 ∷ [])
      (batch_write_with_options by_two request_of request_of none (pos 4) 0 five (6 ∷ []))
unfolding batch_write_with_options build_batch_write_requests make_requests write_batches
    execute_batch_write_with_retries write_loop split_write_requests split_loop batch_size_of
batch_write_with_options-IsComplete_example =
    batch_write_with_options-IsComplete by_two request_of request_of by_two-IsExecutor (pos 4) 0
      five (6 ∷ []) refl

contains_text-contains_example :
    contains_text (codes "rate: ThrottlingException") (codes "Throttling") ≡ (
      not (text_eq (codes "Throttling") [])
      && contains (codes "Throttling") (codes "rate: ThrottlingException"))
contains_text-contains_example =
    contains_text-contains (codes "rate: ThrottlingException") (codes "Throttling")

abbrev item_of : Text → AttributeItem
item_of id = (codes "ID", s id) ∷ (codes "name", s (codes "x")) ∷ []

abbrev key_of : Text → AttributeItem
key_of id = (codes "ID", s id) ∷ []

abbrev two_keys : BatchGetChunk AttributeItem ℕ
two_keys = record {
  request_keys = key_of (codes "a") ∷ key_of (codes "b") ∷ [];
  keys =
      record { original = 1; attrs = key_of (codes "a"); index = 0 }
      ∷ record { original = 2; attrs = key_of (codes "b"); index = 1 }
      ∷ [];
  originals = 1 ∷ 2 ∷ [];
}

-- The items come in another order, with one that was not asked for.
abbrev answer : BatchGetChunk AttributeItem ℕ → ℕ ⊎ List AttributeItem
answer chunk = inr (item_of (codes "c") ∷ item_of (codes "b") ∷ item_of (codes "a") ∷ [])

abbrev never : AttributeValue → AttributeValue → Bool
never v w = false

execute_batch_get_chunks-Returned_example :
    Returned never
      (IsAskedFor never (two_keys ∷ []))
      (IsOutOfRange never (two_keys ∷ []) 2)
      2
      answer
      none
      (execute_batch_get_chunks never answer none (two_keys ∷ []) 2)
execute_batch_get_chunks-Returned_example =
    execute_batch_get_chunks-Returned never answer none (two_keys ∷ []) 2

-- Two pages of items, behind no key and the key 0.
abbrev pages : Option ℕ → ℕ ⊎ (List ℕ × Option ℕ)
pages none = inr (1 ∷ [], some 0)
pages (some k) = inr (2 ∷ 3 ∷ [], none)

execute_paged_items-IsRead_example :
    IsRead
      (some (pos 2))
      pages
      []
      ((1 ∷ []) ∷ (2 ∷ 3 ∷ []) ∷ [])
      (execute_paged_items (some (pos 2)) pages 2 none)
execute_paged_items-IsRead_example =
    execute_paged_items-IsRead (some (pos 2)) pages 2 none ((1 ∷ []) ∷ (2 ∷ 3 ∷ []) ∷ [])
      (omega arith) (0, refl, refl)

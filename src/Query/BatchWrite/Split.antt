-- ===== src/Query/BatchWrite/Split.antt =====
-- pkg/query/batch_operations.go: the batches that requests are split into.
use dynamorm.Base.{
  ℕ, zero, suc, ◌≤◌, ◌<◌, ◌≡◌, refl, ap, ◌∙◌, List, [], ◌∷◌, ◌++◌, arith, length, length-take,
  length-drop, take, drop, take-append-drop, All,
}
use dynamorm.Base.Int.{ℤ, pos, negsuc}
use dynamorm.Query.BatchWrite.{flatten, batch_size_of, split_loop, split_write_requests}

pub batch_size_of_range : (size : ℤ) → (0 < batch_size_of size) × (batch_size_of size ≤ 25)
unfolding batch_size_of
batch_size_of_range (negsuc n) = (omega arith, omega arith)
batch_size_of_range (pos n) = (ground arith, ground arith)

module _ {ℓ} {A : Type ℓ} where
  -- A batch that DynamoDB takes.
  abbrev pub IsBatch : List A → Type 0
  IsBatch batch = (0 < length batch) × (length batch ≤ 25)

  flatten-split_loop :
      (f size : ℕ) (rs : List A) → 0 < size → length rs ≤ f → flatten (split_loop f size rs) ≡ rs
  unfolding split_loop
  flatten-split_loop zero size [] h k = refl
  flatten-split_loop zero size (r ∷ rs) h k = absurd (omega (arith, k))
  flatten-split_loop (suc f) size [] h k = refl
  flatten-split_loop (suc f) size (r ∷ rs) h k =
      ap (λ l. take size (r ∷ rs) ++ l)
        (flatten-split_loop f size (drop size (r ∷ rs)) h
          (omega (arith, h, k, length-drop size (r ∷ rs))))
      ∙ take-append-drop size (r ∷ rs)

  split_loop-IsBatch :
      (f size : ℕ) (rs : List A) → 0 < size → size ≤ 25 → All IsBatch (split_loop f size rs)
  unfolding split_loop
  split_loop-IsBatch zero size rs h k = tt
  split_loop-IsBatch (suc f) size [] h k = tt
  split_loop-IsBatch (suc f) size (r ∷ rs) h k =
      let l = length-take size (r ∷ rs) in
      (
        (omega (arith, l, h), omega (arith, l, k)),
        split_loop-IsBatch f size (drop size (r ∷ rs)) h k,
      )

  -- Whatever size is asked for, `splitWriteRequests` loses no request and keeps their order, and each
  -- batch has at least 1 and at most 25 of them.
  pub split_write_requests-IsBatch :
      (rs : List A) (size : ℤ)
      → (flatten (split_write_requests rs size) ≡ rs) × All IsBatch (split_write_requests rs size)
  unfolding split_write_requests
  split_write_requests-IsBatch rs size =
      let r = batch_size_of_range size in
      (
        flatten-split_loop (length rs) (batch_size_of size) rs r.0 (omega arith),
        split_loop-IsBatch (length rs) (batch_size_of size) rs r.0 r.1,
      )

-- ===== src/Query/BatchGet/Align/Matched.antt =====
-- pkg/query/batch_get.go: the items that a batch get returns are of keys that were asked for.
use mathlib.Core.List.{Mem, mem-cons_self, mem-cons_of_mem}
use dynamorm.Base.{
  ℕ, zero, suc, ◌≤◌, ◌≡◌, refl, ap, ◌∙◌, ◌⊎◌, inl, inr, Bool, true, Option, none, some, List, [],
  ◌∷◌, arith, set, length, length-set, ltb, replicate, All, All-set, Bool-cases,
}
use mathlib.Core.Path.{subst}
use dynamorm.Query.BatchGet.{BatchKeySpec, BatchGetChunk}
use dynamorm.Query.BatchGet.Align.{
  AttributeItem, key_matches_item, find_matching_item, one_more, align_found, align_loop, unused,
  align_chunk_results, flatten_results, chunk_error, next_chunk, after_align, after_fetch,
  chunks_loop, flattened, execute_batch_get_chunks,
}
use dynamorm.Query.BatchGet.Align.Found.{free, free-unused, Finds, find_matching_item-Finds}
use dynamorm.Query.Cursor.{AttributeValue}

module _ (P : AttributeItem → Type 0) where
  abbrev Holds : Option AttributeItem → Type 0
  Holds none = Unit
  Holds (some item) = P item

  -- The places that are aligned hold good items, as many places as before, and no more matches
  -- than free items.
  record IsAligned (size count : ℕ) (r : List (Option AttributeItem) × ℕ) : Type 0 where
    good : All Holds r.0
    sized : length r.0 ≡ size
    matches : r.1 ≤ count

  flatten-All :
      (ordered : List (Option AttributeItem))
      → All Holds ordered
      → All P (flatten_results ordered) × (length (flatten_results ordered) ≤ length ordered)
  unfolding flatten_results
  flatten-All [] a = (tt, omega arith)
  flatten-All (none ∷ ordered) a = let r = flatten-All ordered a.1 in (r.0, omega (arith, r.1))
  flatten-All (some item ∷ ordered) a =
      let r = flatten-All ordered a.1 in ((a.0, r.0), omega (arith, r.1))

  replicate-Holds :
      (n : ℕ)
      → All Holds (replicate n none) × (length (replicate {A = Option AttributeItem} n none) ≡ n)
  replicate-Holds zero = (tt, refl)
  replicate-Holds (suc n) = let r = replicate-Holds n in ((tt, r.0), ap suc r.1)

module _ (P : AttributeItem → Type 0) (B : Type 0) (size : ℕ) where
  -- Places that are aligned, or a panic with its reason.
  abbrev Aligns : ℕ → Option (List (Option AttributeItem) × ℕ) → Type 0
  Aligns count none = B
  Aligns count (some r) = IsAligned P size count r

  one_more-Aligns :
      (n m : ℕ) (o : Option (List (Option AttributeItem) × ℕ))
      → suc n ≡ m
      → Aligns n o
      → Aligns m (one_more o)
  one_more-Aligns n m none e v = v
  one_more-Aligns n m (some r) e v = record {
    good = v.good;
    sized = v.sized;
    matches = omega (arith, v.matches, e);
  }

module _ (deep_equal : AttributeValue → AttributeValue → Bool) {O : Type 0} where
  -- An item that matches some key of a chunk, attribute by attribute.
  abbrev pub IsAskedFor : List (BatchGetChunk AttributeItem O) → AttributeItem → Type 0
  IsAskedFor chunks item =
      (chunk : BatchGetChunk AttributeItem O) × Mem chunk chunks
      × ((key : BatchKeySpec AttributeItem O) × Mem key chunk.keys
          × (key_matches_item deep_equal key.attrs item ≡ true))

  -- A key of a chunk whose place is behind the last one.
  abbrev pub IsOutOfRange : List (BatchGetChunk AttributeItem O) → ℕ → Type 0
  IsOutOfRange chunks count =
      (chunk : BatchGetChunk AttributeItem O) × Mem chunk chunks
      × ((key : BatchKeySpec AttributeItem O) × Mem key chunk.keys × (count ≤ key.index))

  module _ (P : AttributeItem → Type 0) (B : Type 0) (size : ℕ) where
    -- What is good of the items of a key, and bad of a key without a place.
    abbrev Judges : BatchKeySpec AttributeItem O → Type 0
    Judges key =
        ((item : AttributeItem) → key_matches_item deep_equal key.attrs item ≡ true → P item)
        × (size ≤ key.index → B)

    found-Aligns :
        (key : BatchKeySpec AttributeItem O) (slots : List (AttributeItem × Bool))
        (ordered : List (Option AttributeItem))
        (next : List (AttributeItem × Bool)
          → List (Option AttributeItem)
          → Option (List (Option AttributeItem) × ℕ))
        (o : Option (AttributeItem × List (AttributeItem × Bool)))
        → Judges key
        → Finds deep_equal key.attrs (free slots) o
        → All (Holds P) ordered
        → length ordered ≡ size
        → ((slots' : List (AttributeItem × Bool)) (ordered' : List (Option AttributeItem))
            → All (Holds P) ordered'
            → length ordered' ≡ size
            → Aligns P B size (free slots') (next slots' ordered'))
        → Aligns P B size (free slots) (align_found o key.index slots ordered next)
    found-Aligns key slots ordered next none p f a s h = h slots ordered a s
    found-Aligns key slots ordered next (some (item, slots')) p f a s h =
        elim (Bool-cases (ltb key.index (length ordered))) [
          | inl inside ↦ rw inside (
              one_more-Aligns P B size (free slots') (free slots) _ f.1 (
                h slots' (set ordered key.index (some item))
                  (All-set (Holds P) ordered key.index (some item) a (p.0 item f.0))
                  (length-set ordered key.index (some item) ∙ s)))
          | inr outside ↦ rw outside (p.1 (ground (arith, s)))
        ]

    align_loop-Aligns :
        (keys : List (BatchKeySpec AttributeItem O)) (slots : List (AttributeItem × Bool))
        (ordered : List (Option AttributeItem))
        → ((key : BatchKeySpec AttributeItem O) → Mem key keys → Judges key)
        → All (Holds P) ordered
        → length ordered ≡ size
        → Aligns P B size (free slots) (align_loop deep_equal keys slots ordered)
    unfolding align_loop
    align_loop-Aligns [] slots ordered p a s = record { good = a; sized = s; matches = omega arith }
    align_loop-Aligns (key ∷ keys) slots ordered p a s =
        found-Aligns key slots ordered (align_loop deep_equal keys)
          (find_matching_item deep_equal key.attrs slots) (p key mem-cons_self)
          (find_matching_item-Finds deep_equal key.attrs slots) a s
          (λ slots' ordered' a' s'.
            align_loop-Aligns keys slots' ordered' (λ k m. p k (mem-cons_of_mem key m)) a' s')

    align_chunk-Aligns :
        (keys : List (BatchKeySpec AttributeItem O)) (items : List AttributeItem)
        (ordered : List (Option AttributeItem))
        → ((key : BatchKeySpec AttributeItem O) → Mem key keys → Judges key)
        → All (Holds P) ordered
        → length ordered ≡ size
        → Aligns P B size (length items) (align_chunk_results deep_equal keys items ordered)
    unfolding align_chunk_results
    align_chunk-Aligns keys [] ordered p a s = record { good = a; sized = s; matches = omega arith }
    align_chunk-Aligns keys (item ∷ items) ordered p a s =
        subst (λ n. Aligns P B size n (align_loop deep_equal keys (unused (item ∷ items)) ordered))
          (free-unused (item ∷ items))
          (align_loop-Aligns keys (unused (item ∷ items)) ordered p a s)

    module _ {E : Type 0} (fetch : BatchGetChunk AttributeItem O → E ⊎ List AttributeItem)
        (on_chunk_error : Option (List O → E → Option E)) where
      abbrev Fills : Option (E ⊎ List (Option AttributeItem)) → Type 0
      Fills none = B
      Fills (some (inl e)) = Unit
      Fills (some (inr ordered)) = All (Holds P) ordered × (length ordered ≡ size)

      next-Fills :
          (o : Option E) (ordered : List (Option AttributeItem))
          (next : List (Option AttributeItem) → Option (E ⊎ List (Option AttributeItem)))
          → Fills (next ordered)
          → Fills (next_chunk deep_equal fetch on_chunk_error o ordered next)
      next-Fills (some e) ordered next h = tt
      next-Fills none ordered next h = h

      align-Fills :
          (o : Option (List (Option AttributeItem) × ℕ)) (count : ℕ)
          (next : List (Option AttributeItem) → Option (E ⊎ List (Option AttributeItem)))
          → Aligns P B size count o
          → ((ordered : List (Option AttributeItem))
              → All (Holds P) ordered
              → length ordered ≡ size
              → Fills (next ordered))
          → Fills (after_align deep_equal fetch on_chunk_error o next)
      align-Fills none count next v h = v
      align-Fills (some r) count next v h = h r.0 v.good v.sized

      fetch-Fills :
          (chunk : BatchGetChunk AttributeItem O) (r : E ⊎ List AttributeItem)
          (ordered : List (Option AttributeItem))
          (next : List (Option AttributeItem) → Option (E ⊎ List (Option AttributeItem)))
          → ((key : BatchKeySpec AttributeItem O) → Mem key chunk.keys → Judges key)
          → All (Holds P) ordered
          → length ordered ≡ size
          → ((ordered' : List (Option AttributeItem))
              → All (Holds P) ordered'
              → length ordered' ≡ size
              → Fills (next ordered'))
          → Fills (after_fetch deep_equal fetch on_chunk_error chunk r ordered next)
      fetch-Fills chunk (inl e) ordered next p a s h =
          next-Fills (chunk_error deep_equal fetch on_chunk_error chunk e) ordered next
            (h ordered a s)
      fetch-Fills chunk (inr items) ordered next p a s h =
          align-Fills (align_chunk_results deep_equal chunk.keys items ordered) (length items) next
            (align_chunk-Aligns chunk.keys items ordered p a s) h

      chunks-Fills :
          (chunks : List (BatchGetChunk AttributeItem O)) (ordered : List (Option AttributeItem))
          → ((item : AttributeItem) → IsAskedFor chunks item → P item)
          → (IsOutOfRange chunks size → B)
          → All (Holds P) ordered
          → length ordered ≡ size
          → Fills (chunks_loop deep_equal fetch on_chunk_error chunks ordered)
      unfolding chunks_loop
      chunks-Fills [] ordered p bad a s = (a, s)
      chunks-Fills (chunk ∷ chunks) ordered p bad a s =
          fetch-Fills chunk (fetch chunk) ordered
            (chunks_loop deep_equal fetch on_chunk_error chunks)
            (λ key m. (
              λ item e. p item (chunk, mem-cons_self, (key, m, e)),
              λ le. bad (chunk, mem-cons_self, (key, m, le)),
            ))
            a s
            (λ ordered' a' s'.
              chunks-Fills chunks ordered' (λ item r. p item (r.0, mem-cons_of_mem chunk r.1, r.2))
                (λ r. bad (r.0, mem-cons_of_mem chunk r.1, r.2)) a' s')

      abbrev pub Returned : Option (E ⊎ List AttributeItem) → Type 0
      Returned none = B
      Returned (some (inl e)) = Unit
      Returned (some (inr items)) = All P items × (length items ≤ size)

      flattened-Returned :
          (r : Option (E ⊎ List (Option AttributeItem)))
          → Fills r
          → Returned (flattened deep_equal fetch on_chunk_error r)
      flattened-Returned none h = h
      flattened-Returned (some (inl e)) h = tt
      flattened-Returned (some (inr ordered)) h =
          let f = flatten-All P ordered h.0 in (f.0, omega (arith, f.1, h.1))

  -- Whatever items the executor answers with, a batch get panics only if the index of some key is not
  -- below the number of keys. If it returns no error, it returns at most as many items as there are
  -- keys, and each matches a key of one of its chunks: it has every attribute of that key with an
  -- equal value.
  pub execute_batch_get_chunks-Returned :
      {E : Type 0} (fetch : BatchGetChunk AttributeItem O → E ⊎ List AttributeItem)
      (on_chunk_error : Option (List O → E → Option E))
      (chunks : List (BatchGetChunk AttributeItem O)) (count : ℕ)
      → Returned
          (IsAskedFor chunks)
          (IsOutOfRange chunks count)
          count
          fetch
          on_chunk_error
          (execute_batch_get_chunks deep_equal fetch on_chunk_error chunks count)
  unfolding execute_batch_get_chunks
  execute_batch_get_chunks-Returned fetch on_chunk_error chunks count =
      let start = replicate-Holds (IsAskedFor chunks) count in
      flattened-Returned (IsAskedFor chunks) (IsOutOfRange chunks count) count fetch on_chunk_error
        (chunks_loop deep_equal fetch on_chunk_error chunks (replicate count none))
        (chunks-Fills (IsAskedFor chunks) (IsOutOfRange chunks count) count fetch on_chunk_error
          chunks (replicate count none) (λ item h. h) (λ h. h) start.0 start.1)

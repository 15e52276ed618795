-- ===== src/Query/BatchGet/Chunks.antt =====
-- pkg/query/batch_get.go: the chunks of a batch get hold every key once, within DynamoDB's limit.
use mathlib.Core.List.{append-nil}
use dynamorm.Base.{
  ℕ, zero, suc, ◌+◌, ◌-◌, ◌≤◌, ◌<◌, ◌≡◌, sym, ◌∙◌, inl, inr, not, ◌||◌, Option, none, some, List,
  [], ◌∷◌, ◌++◌, arith, Bool-cases, if◌then◌else◌, length, take, drop, ltb, All, take-append-drop,
  length-take, length-drop, take_self, drop_all, drop-drop, length-map,
}
use dynamorm.Base.Int.{ℤ, pos, negsuc}
use dynamorm.Query.BatchGet.{
  BatchGetOptions, default_batch_get_options, chunk_size_of, normalized,
  normalize_batch_get_options, BatchKeySpec, BatchGetChunk, chunk_of, chunk_loop,
  build_batch_get_chunks,
}

module _ {K O : Type 0} where
  -- The keys of all chunks, in order.
  abbrev pub keys_of : List (BatchGetChunk K O) → List (BatchKeySpec K O)
  keys_of [] = []
  keys_of (c ∷ cs) = c.keys ++ keys_of cs

  -- A request that DynamoDB takes: from 1 to `size` keys.
  abbrev pub AreWithin : ℕ → List (BatchGetChunk K O) → Type 0
  AreWithin size =
      All (λ c.
        (1 ≤ length c.keys) × (length c.keys ≤ size) × (length c.request_keys ≡ length c.keys))

  window_is :
      (size i : ℕ) (specs : List (BatchKeySpec K O))
      → i < length specs
      → take ((if ltb (length specs) (i + size) then length specs else i + size) - i) (drop i specs)
          ++ drop (i + size) specs
        ≡ drop i specs
  window_is size i specs h = elim (Bool-cases (ltb (length specs) (i + size))) [
    | inl last ↦
        rw
          (
            last,
            drop_all (i + size) specs (ground arith),
            take_self (length specs - i) (drop i specs) (omega (arith, length-drop i specs)),
          )
          (append-nil (drop i specs))
    | inr full ↦
        let width : i + size - i ≡ size = omega arith in
        rw (full, width, ← (drop-drop size i specs)) (take-append-drop size (drop i specs))
  ]

  joined :
      (f size i : ℕ) (specs : List (BatchKeySpec K O))
      → 1 ≤ size
      → length specs ≤ i + f
      → keys_of (chunk_loop f size i specs) ≡ drop i specs
  unfolding chunk_loop chunk_of
  joined zero size i specs h k = sym (drop_all i specs (omega arith))
  joined (suc f) size i specs h k = elim (Bool-cases (ltb i (length specs))) [
    | inl more ↦
        rw (more, chunk_loop, joined f size (i + size) specs h (omega arith))
          (window_is size i specs (ground arith))
    | inr done ↦ rw (done, chunk_loop) (sym (drop_all i specs (ground arith)))
  ]

  window-length :
      (size i : ℕ) (specs : List (BatchKeySpec K O))
      → 1 ≤ size
      → i < length specs
      → let n = length (
          take
            ((if ltb (length specs) (i + size) then length specs else i + size) - i)
            (drop i specs)) in
        (1 ≤ n) × (n ≤ size)
  window-length size i specs h k =
      let e =
        length-take ((if ltb (length specs) (i + size) then length specs else i + size) - i)
          (drop i specs) in
      let d = length-drop i specs in ground (arith, e, d)

  within :
      (f size i : ℕ) (specs : List (BatchKeySpec K O))
      → 1 ≤ size
      → AreWithin size (chunk_loop f size i specs)
  unfolding chunk_loop chunk_of
  within zero size i specs h = tt
  within (suc f) size i specs h = elim (Bool-cases (ltb i (length specs))) [
    | inl more ↦
        let w = window-length size i specs h (ground arith) in
        rw (more, chunk_loop) ((w.0, w.1, length-map _ _), within f size (i + size) specs h)
    | inr done ↦ rw (done, chunk_loop) tt
  ]

normalized_size : (n : ℤ) → (size : ℕ) × (chunk_size_of n ≡ pos size) × (1 ≤ size) × (size ≤ 100)
normalized_size (negsuc n) = (100, ground arith, omega arith, omega arith)
normalized_size (pos n) = elim (Bool-cases (not (ltb 0 n) || ltb 100 n)) [
  | inl outside ↦ (100, ground arith, omega arith, omega arith)
  | inr inside ↦ (n, ground arith, ground arith, ground arith)
]

normalized-chunk_size :
    {R : Type 0} (o : BatchGetOptions R) → (normalized o).chunk_size ≡ chunk_size_of o.chunk_size
unfolding normalized
normalized-chunk_size o = ground arith

chunks_of :
    {R K O : Type 0} (o : BatchGetOptions R) (specs : List (BatchKeySpec K O))
    → (size : ℕ) × ((normalized o).chunk_size ≡ pos size)
      × (size ≤ 100)
      × (keys_of (build_batch_get_chunks specs size) ≡ specs)
      × AreWithin size (build_batch_get_chunks specs size)
unfolding build_batch_get_chunks
chunks_of o specs =
    let (size, is, above, below) = normalized_size o.chunk_size in
    (
      size,
      normalized-chunk_size o ∙ is,
      below,
      joined (length specs) size 0 specs above (omega arith),
      within (length specs) size 0 specs above,
    )

-- For any options, or none: the chunk size that they are normalized to is from 1 to 100, and the
-- chunks of that size hold the keys in order, each once; every chunk has from 1 to that many keys,
-- and its request as many.
pub build_batch_get_chunks_lem :
    {R K O : Type 0} (policy : R) (options : Option (BatchGetOptions R))
    (specs : List (BatchKeySpec K O))
    → (size : ℕ) × ((normalize_batch_get_options policy options).chunk_size ≡ pos size)
      × (size ≤ 100)
      × (keys_of (build_batch_get_chunks specs size) ≡ specs)
      × AreWithin size (build_batch_get_chunks specs size)
unfolding normalize_batch_get_options
build_batch_get_chunks_lem policy none specs = chunks_of (default_batch_get_options policy) specs
build_batch_get_chunks_lem policy (some o) specs = chunks_of o specs

-- ===== src/Query/BatchGet.antt =====
-- pkg/query/batch_get.go: `normalizeBatchGetOptions` and `buildBatchGetChunks`. The retry policy, the
-- keys and their attributes are of any type; the callbacks of the options are left out.
pub mod Chunks
pub mod Align
use dynamorm.Base.{
  ℕ, zero, suc, ◌+◌, ◌-◌, Bool, true, false, not, ◌&&◌, ◌||◌, Option, none, some, List, [], ◌∷◌,
  map, length, take, drop, ltb, if◌then◌else◌,
}
use dynamorm.Base.Int.{ℤ, pos, ltb_ℤ}

pub record BatchGetOptions (R : Type 0) : Type 0 where
  pub retry_policy : Option R
  pub chunk_size : ℤ
  pub max_concurrency : ℤ
  pub consistent_read : Bool
  pub parallel : Bool

-- `DefaultBatchGetOptions`, given the default retry policy.
unfoldable pub default_batch_get_options : {R : Type 0} → R → BatchGetOptions R
default_batch_get_options policy = record {
  retry_policy = some policy;
  chunk_size = pos 100;
  max_concurrency = pos 4;
  consistent_read = false;
  parallel = false;
}

-- A size that is out of range becomes 100.
abbrev pub chunk_size_of : ℤ → ℤ
chunk_size_of n = if not (ltb_ℤ (pos 0) n) || ltb_ℤ (pos 100) n then pos 100 else n

abbrev positive : ℤ → ℤ
positive n = if ltb_ℤ (pos 0) n then n else pos 1

sequential : {R : Type 0} → BatchGetOptions R → Bool
sequential o =
    not o.parallel
    || (not (ltb_ℤ (positive o.max_concurrency) (pos 1))
        && not (ltb_ℤ (pos 1) (positive o.max_concurrency)))

-- The checks behind the choice between the defaults and a copy of the given options.
normalized : {R : Type 0} → BatchGetOptions R → BatchGetOptions R
unfolding sequential
normalized o =
    if sequential o
    then record o {
      chunk_size = chunk_size_of o.chunk_size;
      max_concurrency = pos 1;
      parallel = false;
    }
    else record o {
      chunk_size = chunk_size_of o.chunk_size;
      max_concurrency = positive o.max_concurrency;
    }

-- `normalizeBatchGetOptions`; the default options already have the default retry policy.
unfoldable pub normalize_batch_get_options :
    {R : Type 0} → R → Option (BatchGetOptions R) → BatchGetOptions R
unfolding normalized
normalize_batch_get_options policy none = normalized (default_batch_get_options policy)
normalize_batch_get_options policy (some o) = normalized o

pub record BatchKeySpec (K O : Type 0) : Type 0 where
  pub original : O
  pub attrs : K
  pub index : ℕ

pub record BatchGetChunk (K O : Type 0) : Type 0 where
  pub request_keys : List K
  pub keys : List (BatchKeySpec K O)
  pub originals : List O

module _ {K O : Type 0} where
  chunk_of : List (BatchKeySpec K O) → BatchGetChunk K O
  chunk_of window = record {
    request_keys = map (λ spec. spec.attrs) window;
    keys = window;
    originals = map (λ spec. spec.original) window;
  }

  -- The loop from index `i` on; a fuel of the number of keys is enough for a size above 0.
  unfoldable pub chunk_loop : ℕ → ℕ → ℕ → List (BatchKeySpec K O) → List (BatchGetChunk K O)
  unfolding chunk_of
  chunk_loop zero size i specs = []
  chunk_loop (suc f) size i specs =
      let rest = chunk_loop f size (i + size) specs in
      let end = if ltb (length specs) (i + size) then length specs else i + size in
      if ltb i (length specs) then chunk_of (take (end - i) (drop i specs)) ∷ rest else []

  -- `buildBatchGetChunks` for a chunk size that is not negative.
  unfoldable pub build_batch_get_chunks : List (BatchKeySpec K O) → ℕ → List (BatchGetChunk K O)
  build_batch_get_chunks specs size = chunk_loop (length specs) size 0 specs

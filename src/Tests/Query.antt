-- ===== src/Tests/Query.antt =====
-- pkg/query: a batch get of three keys.
use dynamorm.Base.{ℕ, ◌≤◌, ◌≡◌, Option, some, List, [], ◌∷◌, false}
use dynamorm.Base.Int.{pos}
use dynamorm.Query.BatchGet.{
  BatchGetOptions, normalize_batch_get_options, BatchKeySpec, build_batch_get_chunks,
}
use dynamorm.Query.BatchGet.Chunks.{keys_of, AreWithin, build_batch_get_chunks_lem}

abbrev three_keys : List (BatchKeySpec ℕ ℕ)
three_keys =
    record { original = 7; attrs = 7; index = 0 }
    ∷ record { original = 8; attrs = 8; index = 1 }
    ∷ record { original = 9; attrs = 9; index = 2 }
    ∷ []

abbrev by_two : Option (BatchGetOptions ℕ)
by_two = some (record {
  retry_policy = some 1;
  chunk_size = pos 2;
  max_concurrency = pos 1;
  consistent_read = false;
  parallel = false;
})

build_batch_get_chunks_lem_example :
    (size : ℕ) × ((normalize_batch_get_options 0 by_two).chunk_size ≡ pos size)
    × (size ≤ 100)
    × (keys_of (build_batch_get_chunks three_keys size) ≡ three_keys)
    × AreWithin size (build_batch_get_chunks three_keys size)
build_batch_get_chunks_lem_example = build_batch_get_chunks_lem 0 by_two three_keys

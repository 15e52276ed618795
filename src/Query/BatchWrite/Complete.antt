-- ===== src/Query/BatchWrite/Complete.antt =====
-- pkg/query/batch_operations.go: the requests that a whole batch write has processed.
use mathlib.Core.List.{append-nil, Perm}
use mathlib.Core.List.Perm
use mathlib.Core.Path.{subst}
use dynamorm.Base.{
  ◌≡◌, refl, sym, ap, ◌∙◌, ◌⊎◌, inl, inr, Option, none, some, List, [], ◌∷◌, ◌++◌, map,
}
use dynamorm.Base.Int.{ℤ}
use dynamorm.Query.BatchWrite.{
  Answer, WriteError, WriteRun, flatten, max_attempts, execute_batch_write_with_retries,
  handle_batch_update_error, handled, unless_stopped, write_batches, make_requests, prefixed,
  or_stop, request_failed, both_requests, write_all, split_write_requests,
  build_batch_write_requests, batch_write_with_options,
}
use dynamorm.Query.BatchWrite.Split.{split_write_requests-IsBatch}
use dynamorm.Query.BatchWrite.Written.{
  IsExecutor, IsWritten, execute_batch_write_with_retries-IsWritten,
}

module _ {S E R : Type 0} (execute : S → List R → S × Answer E R) where
  module _ (law : IsExecutor execute) where
    -- A run without an error that processed everything.
    abbrev pub Completes : List R → WriteRun S E R → Type 0
    Completes requests w = w.result ≡ none → Perm w.written requests

    written-Perm :
        (batch : List R) (w : WriteRun S E R)
        → IsWritten execute max_attempts batch w
        → w.result ≡ none
        → Perm w.written batch
    written-Perm batch w v h = rw (← (append-nil w.written), ← (v.succeeded h)) v.all

    stopped-Completes :
        (batch more : List R) (w rest : WriteRun S E R) (o : Option (WriteError E))
        → w.result ≡ o
        → IsWritten execute max_attempts batch w
        → Completes more rest
        → Completes (batch ++ more) (unless_stopped execute (handled execute none o) w rest)
    unfolding handle_batch_update_error
    stopped-Completes batch more w rest none e v c h = Perm.append (written-Perm batch w v e) (c h)
    stopped-Completes batch more w rest (some f) e v c h = cc

    batches-Completes :
        (s : S) (batches : List (List R))
        → Completes (flatten batches) (write_batches execute none s batches)
    unfolding write_batches
    batches-Completes s [] = λ h. Perm.refl []
    batches-Completes s (batch ∷ batches) =
        let w = execute_batch_write_with_retries execute s batch in
        stopped-Completes batch (flatten batches) w (write_batches execute none w.state batches)
          w.result refl (execute_batch_write_with_retries-IsWritten execute law s batch)
          (batches-Completes w.state batches)

  -- An error, or the requests of all that requests are to be made of.
  abbrev AreMade : List (E ⊎ R) → WriteError E ⊎ List R → Type 0
  AreMade made (inl e) = Unit
  AreMade made (inr rs) = made ≡ map inr rs

  prefixed-AreMade :
      (made : List (E ⊎ R)) (r : R) (o : WriteError E ⊎ List R)
      → AreMade made o
      → AreMade (inr r ∷ made) (prefixed execute r o)
  prefixed-AreMade made r (inl e) h = tt
  prefixed-AreMade made r (inr rs) h = ap (◌∷◌ (inr r)) h

  make_requests-AreMade :
      {X : Type 0} (make : X → E ⊎ R) (xs : List X)
      → AreMade (map make xs) (make_requests execute none make xs)
  unfolding make_requests handle_batch_update_error
  make_requests-AreMade make [] = refl
  make_requests-AreMade make (x ∷ xs) = step (make x) (make_requests-AreMade make xs)
    where
      step :
          (m : E ⊎ R)
          → AreMade (map make xs) (make_requests execute none make xs)
          → AreMade (m ∷ map make xs) (elim m [
            | inl e ↦
                or_stop execute
                  (handle_batch_update_error execute none (request_failed e))
                  (make_requests execute none make xs)
            | inr r ↦ prefixed execute r (make_requests execute none make xs)
          ])
      step (inl e) h = tt
      step (inr r) h = prefixed-AreMade (map make xs) r (make_requests execute none make xs) h

  map-append : {X Y : Type 0} (f : X → Y) (xs ys : List X) → map f (xs ++ ys) ≡ map f xs ++ map f ys
  map-append f [] ys = refl
  map-append f (x ∷ xs) ys = ap (◌∷◌ (f x)) (map-append f xs ys)

  both_requests-AreMade :
      (some_made more_made : List (E ⊎ R)) (o p : WriteError E ⊎ List R)
      → AreMade some_made o
      → AreMade more_made p
      → AreMade (some_made ++ more_made) (both_requests execute o p)
  both_requests-AreMade some_made more_made (inl e) p h k = tt
  both_requests-AreMade some_made more_made (inr rs) (inl e) h k = tt
  both_requests-AreMade some_made more_made (inr rs) (inr qs) h k =
      ap (λ l. l ++ more_made) h ∙ ap (λ l. map inr rs ++ l) k ∙ sym (map-append inr rs qs)

  module _ {Item Key : Type 0} (put_request : Item → E ⊎ R) (delete_request : Key → E ⊎ R)
      (law : IsExecutor execute) where
    -- What a batch write without an error has done.
    pub record IsComplete (puts : List Item) (deletes : List Key) (w : WriteRun S E R)
        : Type 0 where
      pub requests : List R
      pub made : map put_request puts ++ map delete_request deletes ≡ map inr requests
      pub all : Perm w.written requests

    write_all-IsComplete :
        (size : ℤ) (s : S) (puts : List Item) (deletes : List Key) (o : WriteError E ⊎ List R)
        → AreMade (map put_request puts ++ map delete_request deletes) o
        → (write_all execute put_request delete_request none s size o).result ≡ none
        → IsComplete puts deletes (write_all execute put_request delete_request none s size o)
    write_all-IsComplete size s puts deletes (inl e) m h = cc
    write_all-IsComplete size s puts deletes (inr rs) m h = record {
      requests = rs;
      made = m;
      all =
          subst (Perm (write_batches execute none s (split_write_requests rs size)).written)
            (split_write_requests-IsBatch rs size).0
            (batches-Completes law s (split_write_requests rs size) h);
    }

    -- With an executor whose answers account for every request, and no error handler, a batch write
    -- that returns no error has made a request of every item and of every key, and each of these
    -- requests was processed exactly once, whatever the batch size.
    pub batch_write_with_options-IsComplete :
        (size : ℤ) (s : S) (puts : List Item) (deletes : List Key)
        → (batch_write_with_options execute put_request delete_request none size s puts
            deletes).result
          ≡ none
        → IsComplete puts deletes
            (batch_write_with_options execute put_request delete_request none size s puts deletes)
    unfolding batch_write_with_options build_batch_write_requests
    batch_write_with_options-IsComplete size s puts deletes =
        write_all-IsComplete size s puts deletes _ (
          both_requests-AreMade _ _ _ _ (make_requests-AreMade put_request puts)
            (make_requests-AreMade delete_request deletes))

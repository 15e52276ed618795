-- ===== src/Query/Paging.antt =====
-- pkg/query/executor.go: `executePagedItems`. The pager is a parameter: from a start key, or none, an
-- error or the items of a page and the key of the next one.
use dynamorm.Base.{
  ℕ, zero, suc, ◌≤◌, ◌≡◌, refl, sym, ap, ◌∙◌, ◌⊎◌, inl, inr, Bool, true, false, not, Option, none,
  some, List, [], ◌∷◌, ◌++◌, length, arith, Bool-cases, if◌then◌else◌,
}
use dynamorm.Base.Int.{ℤ, pos, ltb_ℤ}
use dynamorm.Query.BatchWrite.{flatten}
use mathlib.Core.List.{append_assoc, append-nil}

module _ {E K I : Type 0} (limit : Option ℤ) (fetch : Option K → E ⊎ (List I × Option K)) where
  -- Whether there are as many items as the limit asks for.
  unfoldable pub is_reached : List I → Bool
  is_reached items = elim limit [ none ↦ false | some n ↦ not (ltb_ℤ (pos (length items)) n) ]

  abbrev after_page :
      E ⊎ (List I × Option K)
      → List I
      → (Option K → List I → Option (E ⊎ List I))
      → Option (E ⊎ List I)
  after_page (inl e) all_items next = some (inl e)
  after_page (inr (items, none)) all_items next = some (inr (all_items ++ items))
  after_page (inr (items, some key)) all_items next =
      if is_reached (all_items ++ items)
      then some (inr (all_items ++ items))
      else next (some key) (all_items ++ items)

  -- The loop; `none` is to be out of fuel, which bounds the number of pages.
  unfoldable pub page_loop : ℕ → Option K → List I → Option (E ⊎ List I)
  page_loop zero key all_items = none
  page_loop (suc f) key all_items = after_page (fetch key) all_items (page_loop f)

  -- `executePagedItems`
  unfoldable pub execute_paged_items : ℕ → Option K → Option (E ⊎ List I)
  execute_paged_items fuel start = page_loop fuel start []

  -- A pager that has these pages from a key on, and ends.
  abbrev pub Serves : Option K → List (List I) → Type 0
  Serves key [] = ⊥
  Serves key (page ∷ []) = fetch key ≡ inr (page, none)
  Serves key (page ∷ next ∷ pages) =
      (k : K) × (fetch key ≡ inr (page, some k)) × Serves (some k) (next ∷ pages)

  -- None of the first pages but the last, behind these items, reaches the limit.
  abbrev pub AreNeeded : List I → List (List I) → Type 0
  AreNeeded seen [] = Unit
  AreNeeded seen (page ∷ []) = Unit
  AreNeeded seen (page ∷ next ∷ pages) =
      (is_reached (seen ++ page) ≡ false) × AreNeeded (seen ++ page) (next ∷ pages)

  -- The pages that are read behind these items: one at least, all of them or as many as reach the
  -- limit, and no more than that.
  pub record IsRead (seen : List I) (pages : List (List I)) (result : Option (E ⊎ List I))
      : Type 0 where
    pub first : List I
    pub read : List (List I)
    pub rest : List (List I)
    pub split : (first ∷ read) ++ rest ≡ pages
    pub returned : result ≡ some (inr (seen ++ flatten (first ∷ read)))
    pub stops : (rest ≡ []) ⊎ (is_reached (seen ++ flatten (first ∷ read)) ≡ true)
    pub needed : AreNeeded seen (first ∷ read)

  one_page-IsRead :
      (seen page : List I) (pages : List (List I)) (result : Option (E ⊎ List I))
      → is_reached (seen ++ page) ≡ false
      → IsRead (seen ++ page) pages result
      → IsRead seen (page ∷ pages) result
  one_page-IsRead seen page pages result more v =
      let same = append_assoc seen page (flatten (v.first ∷ v.read)) in
      record {
        first = page;
        read = v.first ∷ v.read;
        rest = v.rest;
        split = ap (λ l. page ∷ l) v.split;
        returned = v.returned ∙ ap (λ l. some (inr l)) same;
        stops = elim v.stops [ inl done ↦ inl done | inr full ↦ inr (rw (← same) full) ];
        needed = (more, v.needed);
      }

  page_loop-IsRead :
      (f : ℕ) (key : Option K) (pages : List (List I)) (seen : List I)
      → length pages ≤ f
      → Serves key pages
      → IsRead seen pages (page_loop f key seen)
  unfolding page_loop
  page_loop-IsRead f key [] seen h s = absurd s
  page_loop-IsRead zero key (page ∷ pages) seen h s = absurd (omega (arith, h))
  page_loop-IsRead (suc f) key (page ∷ []) seen h s =
      rw (s, after_page)
        (record {
          first = page;
          read = [];
          rest = [];
          split = refl;
          returned = ap (λ l. some (inr (seen ++ l))) (sym (append-nil page));
          stops = inl refl;
          needed = tt;
        })
  page_loop-IsRead (suc f) key (page ∷ next ∷ pages) seen h (k, e, s) =
      elim (Bool-cases (is_reached (seen ++ page))) [
        | inl full ↦
            rw (e, after_page, full)
              (record {
                first = page;
                read = [];
                rest = next ∷ pages;
                split = refl;
                returned = ap (λ l. some (inr (seen ++ l))) (sym (append-nil page));
                stops = inr (ap (λ l. is_reached (seen ++ l)) (append-nil page) ∙ full);
                needed = tt;
              })
        | inr more ↦
            rw (e, after_page, more)
              (one_page-IsRead seen page (next ∷ pages) _ more
                (page_loop-IsRead f (some k) (next ∷ pages) (seen ++ page) (omega (arith, h)) s))
      ]

  -- From a pager that ends, `executePagedItems` returns after at most as many calls as there are
  -- pages: the items, in order, of the first pages, one at least, where it stops behind the last page
  -- or behind the first page with which there are as many items as the limit asks for, or more.
  pub execute_paged_items-IsRead :
      (fuel : ℕ) (start : Option K) (pages : List (List I))
      → length pages ≤ fuel
      → Serves start pages
      → IsRead [] pages (execute_paged_items fuel start)
  unfolding execute_paged_items
  execute_paged_items-IsRead fuel start pages h s = page_loop-IsRead fuel start pages [] h s

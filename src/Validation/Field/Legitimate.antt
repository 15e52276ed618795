-- ===== src/Validation/Field/Legitimate.antt =====
-- The names that `legitimateFieldPatterns` let through have no dot.
use dynamorm.Base.{
  ◌≡◌, refl, sym, ap, ◌∙◌, inl, inr, Bool, true, false, not, some, List, [], ◌∷◌, any, all, arith,
  Option-cases, Bool-cases, ◌==◌, ==_iff,
}
use dynamorm.Base.Text.{Text, has_char}
use dynamorm.Validation.Patterns.{
  folds, strip_folded, match_group, match_groups, is_legitimate_field_name,
  legitimate_field_patterns,
}

-- The expressions for legitimate names have no character that folds to a dot.
abbrev undotted : Text → Bool
undotted a = all (λ p. not (folds p b'.')) a

strip-undotted :
    (a t t' : Text)
    → undotted a ≡ true
    → strip_folded a t ≡ some t'
    → has_char b'.' t ≡ has_char b'.' t'
unfolding strip_folded has_char
strip-undotted [] t t' h e = ground arith
strip-undotted (p ∷ a) [] t' h e = cc
strip-undotted (p ∷ a) (c ∷ t) t' h e = elim (Bool-cases (b'.' == c)) [
  | inl dot ↦
      let same : folds p c ≡ folds p b'.' = ap (folds p) (sym ((==_iff b'.' c).0 dot)) in
      ground (arith, same)
  | inr other ↦ ground (arith, strip-undotted a t t')
]

group-undotted :
    (rest : Text → Bool) (as_ : List Text) (t : Text)
    → all undotted as_ ≡ true
    → ((t' : Text) → rest t' ≡ true → has_char b'.' t' ≡ false)
    → match_group rest as_ t ≡ true
    → has_char b'.' t ≡ false
unfolding match_group
group-undotted rest [] t h k e = cc
group-undotted rest (a ∷ as_) t h k e = elim (Option-cases (strip_folded a t)) [
  | inl fails ↦ group-undotted rest as_ t (ground arith) k (ground arith)
  | inr (t', strips) ↦ elim (Bool-cases (rest t')) [
    | inl fits ↦ strip-undotted a t t' (ground arith) strips ∙ k t' fits
    | inr no_fit ↦ group-undotted rest as_ t (ground arith) k (ground arith)
  ]
]

groups-undotted :
    (gs : List (List Text)) (t : Text)
    → all (all undotted) gs ≡ true
    → match_groups gs t ≡ true
    → has_char b'.' t ≡ false
unfolding match_groups
groups-undotted [] [] h e = unfold has_char in refl
groups-undotted [] (c ∷ t) h e = cc
groups-undotted (g ∷ gs) t h e =
    group-undotted (match_groups gs) g t (ground arith)
      (λ t' fits. groups-undotted gs t' (ground arith) fits) e

any-undotted :
    (ps : List (List (List Text))) (t : Text)
    → all (all (all undotted)) ps ≡ true
    → any (λ p. match_groups p t) ps ≡ true
    → has_char b'.' t ≡ false
any-undotted [] t h e = cc
any-undotted (p ∷ ps) t h e = elim (Bool-cases (match_groups p t)) [
  | inl fits ↦ groups-undotted p t (ground arith) fits
  | inr no_fit ↦ any-undotted ps t (ground arith) (ground arith)
]

pub legitimate-undotted :
    (field : Text) → has_char b'.' field ≡ true → is_legitimate_field_name field ≡ false
unfolding is_legitimate_field_name
legitimate-undotted field h = elim (Bool-cases (is_legitimate_field_name field)) [
  | inl fits ↦
      let d : has_char b'.' field ≡ false =
        any-undotted legitimate_field_patterns field (unfold folds in refl) fits in
      cc (d, h)
  | inr other ↦ other
]

-- ===== src/Expr/Builder/Bindings.antt =====
-- internal/expr/builder.go: the two kinds of placeholders of names, and what binding one more name
-- keeps.
use dynamorm.Base.{
  ℕ, ◌+◌, ◌≤◌, ◌≡◌, ◌≢◌, refl, sym, ap, ◌∙◌, ◌⊎◌, inl, inr, Bool, true, false, not, none, some,
  List, [], ◌∷◌, any, all, arith, Bool-cases, All, ◌==◌,
}
use Prim.Native.String.{String}
use dynamorm.Base.Assoc.{lookup, insert, lookup-insert, lookup-insert_ne}
use dynamorm.Base.Decimal.{decimal, decimal-injective}
use dynamorm.Base.Text.{Text, Unicode, codes, text_eq, upper}
use dynamorm.Base.Text.Search.{text_eq_iff}
use dynamorm.Expr.Builder.{
  Builder, new_builder, numbered_name, reserved_name, find_placeholder, bind_name,
}
use dynamorm.Expr.Reserved.{reserved_words, is_reserved_word}

starts_small_n : Text → Bool
starts_small_n [] = false
starts_small_n (c ∷ t) = c == b'n'

capital_table : all (λ w. not (starts_small_n (codes w))) reserved_words ≡ true
unfolding reserved_words starts_small_n
capital_table = refl

any_word :
    (ws : List String) (t : Text)
    → any (λ w. text_eq (codes w) t) ws ≡ true
    → all (λ w. not (starts_small_n (codes w))) ws ≡ true
    → starts_small_n t ≡ false
any_word [] t h k = cc
any_word (w ∷ ws) t h k = elim (Bool-cases (text_eq (codes w) t)) [
  | inl same ↦ let e : codes w ≡ t = (text_eq_iff (codes w) t).0 same in rw (← e) (ground arith)
  | inr other ↦ any_word ws t (ground arith) (ground arith)
]

-- A reserved word in upper case is no numbered placeholder.
reserved-ne-numbered :
    (u : Unicode) (word : Text) (k : ℕ)
    → is_reserved_word u word ≡ true
    → reserved_name u word ≢ numbered_name k
unfolding is_reserved_word
reserved-ne-numbered u word k h e =
    let tail : upper u word ≡ b'n' ∷ decimal k = ground (arith, e) in
    let small = any_word reserved_words (upper u word) h capital_table in
    let big : starts_small_n (upper u word) ≡ true = rw tail (unfold starts_small_n in refl) in
    cc (small, big)

numbered-injective : (j k : ℕ) → numbered_name j ≡ numbered_name k → j ≡ k
numbered-injective j k e = decimal-injective j k (ground (arith, e))

-- Each binding is of one of the two kinds, and the numbers are those already given out.
abbrev pub IsBinding : Unicode → ℕ → Text × Text → Type 0
IsBinding u n (placeholder, name) =
    ((k : ℕ) × (k ≤ n) × (placeholder ≡ numbered_name k))
    ⊎ ((is_reserved_word u name ≡ true) × (placeholder ≡ reserved_name u name))

abbrev pub AreUnique : List (Text × Text) → Type 0
AreUnique [] = Unit
AreUnique ((placeholder, name) ∷ m) = (lookup placeholder m ≡ none) × AreUnique m

pub record Inv {A : Type 0} (u : Unicode) (b : Builder A) : Type 0 where
  pub bindings : All (IsBinding u b.name_counter) b.names
  pub unique : AreUnique b.names

IsBinding-weaken : (u : Unicode) (n : ℕ) (e : Text × Text) → IsBinding u n e → IsBinding u (n + 1) e
IsBinding-weaken u n (p, x) (inl (k, le, is)) = inl (k, omega arith, is)
IsBinding-weaken u n (p, x) (inr r) = inr r

bindings_insert :
    (u : Unicode) (n : ℕ) (m : List (Text × Text)) (p x : Text)
    → IsBinding u (n + 1) (p, x)
    → All (IsBinding u n) m
    → All (IsBinding u (n + 1)) (insert p x m)
unfolding insert
bindings_insert u n [] p x h a = (h, tt)
bindings_insert u n ((q, y) ∷ m) p x h a = elim (Bool-cases (text_eq q p)) [
  | inl same ↦ rw same (h, weaken_all u n m a.1)
  | inr other ↦ rw other (IsBinding-weaken u n (q, y) a.0, bindings_insert u n m p x h a.1)
]
  where
    weaken_all :
        (u : Unicode) (n : ℕ) (m : List (Text × Text))
        → All (IsBinding u n) m
        → All (IsBinding u (n + 1)) m
    weaken_all u n [] a = tt
    weaken_all u n (e ∷ m) a = (IsBinding-weaken u n e a.0, weaken_all u n m a.1)

unique_insert : (m : List (Text × Text)) (p x : Text) → AreUnique m → AreUnique (insert p x m)
unfolding insert
unique_insert [] p x a = (unfold lookup in refl, tt)
unique_insert ((q, y) ∷ m) p x a = elim (Bool-cases (text_eq q p)) [
  | inl same ↦ rw same (rw ((text_eq_iff q p).0 same) at a.0, a.1)
  | inr other ↦ rw other (
    lookup-insert_ne p q x m (λ e. cc ((text_eq_iff q p).1 (sym e), other)) ∙ a.0,
    unique_insert m p x a.1,
  )
]

lookup-IsBinding :
    (u : Unicode) (n : ℕ) (m : List (Text × Text)) (q y : Text)
    → All (IsBinding u n) m
    → lookup q m ≡ some y
    → IsBinding u n (q, y)
unfolding lookup
lookup-IsBinding u n [] q y a e = cc
lookup-IsBinding u n ((p, x) ∷ m) q y a e = elim (Bool-cases (text_eq p q)) [
  | inl same ↦ let ey : x ≡ y = ground arith in rw (← ey) (rw ((text_eq_iff p q).0 same) at a.0)
  | inr other ↦ lookup-IsBinding u n m q y a.1 (ground arith)
]

pub find_sound :
    (m : List (Text × Text)) (name p : Text)
    → AreUnique m
    → find_placeholder name m ≡ some p
    → lookup p m ≡ some name
unfolding find_placeholder lookup
find_sound [] name p a e = cc
find_sound ((q, y) ∷ m) name p a e = elim (Bool-cases (text_eq y name)) [
  | inl same ↦ ground (arith, text_eq_iff q p, text_eq_iff y name)
  | inr other ↦ ground (arith, find_sound m name p a.1, text_eq_iff q p, a.0)
]

module _ {A : Type 0} (u : Unicode) where
  pub new_builder-Inv : Inv {A = A} u new_builder
  unfolding new_builder
  new_builder-Inv = record { bindings = tt; unique = tt }

  fresh_number :
      (b : Builder A) (y : Text)
      → Inv u b
      → lookup (numbered_name (b.name_counter + 1)) b.names ≡ some y
      → ⊥
  fresh_number b y v e = elim (lookup-IsBinding u b.name_counter b.names _ y v.bindings e) [
    | inl (k, le, is) ↦ absurd (omega (arith, numbered-injective (b.name_counter + 1) k is))
    | inr (r, is) ↦ reserved-ne-numbered u y (b.name_counter + 1) r (sym is)
  ]

  pub bind_name-Inv : (b : Builder A) (name : Text) → Inv u b → Inv u (bind_name u b name).0
  unfolding bind_name
  bind_name-Inv b name v = elim (Bool-cases (is_reserved_word u name)) [
    | inl reserved ↦ record {
      bindings =
          rw reserved
            (bindings_insert u b.name_counter b.names _ name (inr (reserved, refl)) v.bindings);
      unique = unique_insert b.names _ name v.unique;
    }
    | inr other ↦ record {
      bindings = rw other (
          bindings_insert u b.name_counter b.names _ name
            (inl (b.name_counter + 1, omega arith, refl)) v.bindings);
      unique = unique_insert b.names _ name v.unique;
    }
  ]

  same_word :
      (b : Builder A) (name q y : Text)
      → Inv u b
      → lookup q b.names ≡ some y
      → is_reserved_word u name ≡ true
      → reserved_name u name ≡ q
      → upper u y ≡ upper u name
  same_word b name q y v e reserved is =
      elim (lookup-IsBinding u b.name_counter b.names q y v.bindings e) [
        | inl (k, le, numbered) ↦ absurd (reserved-ne-numbered u name k reserved (is ∙ numbered))
        | inr (r, other) ↦
            let both : reserved_name u name ≡ reserved_name u y = is ∙ other in ground (arith, both)
      ]

  -- Of the bindings there are, only one of a reserved word of another spelling is lost.
  pub bind_name_keeps :
      (b : Builder A) (name q y : Text)
      → Inv u b
      → lookup q b.names ≡ some y
      → (is_reserved_word u name ≡ true → upper u y ≡ upper u name → y ≡ name)
      → lookup q (bind_name u b name).0.names ≡ some y
  unfolding bind_name
  bind_name_keeps b name q y v e spelled = elim (Bool-cases (is_reserved_word u name)) [
    | inl reserved ↦ rw reserved (elim (Bool-cases (text_eq (reserved_name u name) q)) [
      | inl same ↦
          rw (lookup-insert (reserved_name u name) q name b.names, same)
            (ap some (
              sym
                (spelled reserved (same_word b name q y v e reserved ((text_eq_iff _ q).0 same)))))
      | inr differs ↦ rw (lookup-insert (reserved_name u name) q name b.names, differs) e
    ])
    | inr other ↦ rw other (elim (Bool-cases (text_eq (numbered_name (b.name_counter + 1)) q)) [
      | inl same ↦ absurd (fresh_number b y v (rw ((text_eq_iff _ q).0 same) e))
      | inr differs ↦
          rw (lookup-insert (numbered_name (b.name_counter + 1)) q name b.names, differs) e
    ])
  ]

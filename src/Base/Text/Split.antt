-- ===== src/Base/Text/Split.antt =====
-- The parts of strings.Split at one character, and searches under a change of case.
use Prim.Native.Nat.{ℕ, ◌≤◌}
use mathlib.Core.Path.{◌≡◌, refl}
use mathlib.Core.Logic.{◌⊎◌, inl, inr, ◌≢◌}
use mathlib.Core.Bool.{Bool, true, false}
use mathlib.Core.List.{List, [], ◌∷◌, ◌++◌}
use native.Mathlib.Omega.{arith}
use dynamorm.Base.Lists.{all}
use dynamorm.Base.Sums.{All}
use dynamorm.Base.Tests.{◌==◌, Bool-cases}
use dynamorm.Base.Text.{Text, len, has_prefix, contains, has_char, split, push_head}

-- The split as its first part and the others.
pub record Parts (c : ℕ) (t : Text) : Type 0 where
  pub head : Text
  pub tail : List Text
  pub split_is : split c t ≡ head ∷ tail

pub Parts-of : (c : ℕ) (t : Text) → Parts c t
unfolding split push_head
Parts-of c [] = record { head = []; tail = []; split_is = refl }
Parts-of c (d ∷ t) = elim (Bool-cases (c == d)) [
  | inl same ↦ record { head = []; tail = split c t; split_is = rw same }
  | inr other ↦ record {
    head = d ∷ (Parts-of c t).head;
    tail = (Parts-of c t).tail;
    split_is = rw (other, (Parts-of c t).split_is, push_head);
  }
]

pub split_alone : (c : ℕ) (t : Text) → has_char c t ≡ false → split c t ≡ t ∷ []
unfolding split push_head has_char
split_alone c [] h = refl
split_alone c (d ∷ t) h = ground (arith, split_alone c t)

push_all :
    (q : ℕ → Bool) (d : ℕ) (ps : List Text)
    → ps ≢ []
    → All (λ p. all q p ≡ true) (push_head d ps)
    → (q d ≡ true) × All (λ p. all q p ≡ true) ps
unfolding push_head
push_all q d [] ne h = absurd (ne refl)
push_all q d (p ∷ ps) ne h = ground arith

split-ne-nil : (c : ℕ) (t : Text) → split c t ≢ []
split-ne-nil c t e = cc ((Parts-of c t).split_is, e)

-- A text has only allowed characters if its parts and the separator do.
pub split-all :
    (q : ℕ → Bool) (c : ℕ) (t : Text)
    → q c ≡ true
    → All (λ p. all q p ≡ true) (split c t)
    → all q t ≡ true
unfolding split
split-all q c [] k h = refl
split-all q c (d ∷ t) k h = elim (Bool-cases (c == d)) [
  | inl same ↦ ground (arith, split-all q c t k)
  | inr other ↦
      let (first, others) = push_all q d (split c t) (split-ne-nil c t) (rw (other, split) at h) in
      ground (arith, split-all q c t k others)
]

pub has_prefix_self : (t : Text) → has_prefix t t ≡ true
unfolding has_prefix
has_prefix_self [] = refl
has_prefix_self (c ∷ t) = ground (arith, has_prefix_self t)

-- The first part is a prefix, and so is the first part with the separator if there is one.
record HeadAt (c : ℕ) (t head : Text) : Type 0 where
  starts : has_prefix head t ≡ true
  closed : has_char c t ≡ true → has_prefix (head ++ c ∷ []) t ≡ true

split_head : (c : ℕ) (t head : Text) (tail : List Text) → split c t ≡ head ∷ tail → HeadAt c t head
unfolding split push_head has_char has_prefix
split_head c [] head tail e = ground arith
split_head c (d ∷ t) head tail e = elim (Bool-cases (c == d)) [
  | inl same ↦ ground arith
  | inr other ↦
      let p = Parts-of c t in
      let at_tail = split_head c t p.head p.tail p.split_is in
      let e' : d ∷ p.head ≡ head = ground (arith, p.split_is) in
      record {
        starts = rw (← e') (ground (arith, at_tail.starts));
        closed = λ h. rw (← e') (ground (arith, at_tail.closed));
      }
]

-- Every part but the first stands behind a separator.
contains-cons : (s : Text) (d : ℕ) (t : Text) → contains s t ≡ true → contains s (d ∷ t) ≡ true
unfolding contains
contains-cons s d t h = ground arith

All-contains-cons :
    (c d : ℕ) (t : Text) (ps : List Text)
    → All (λ p. contains (c ∷ p) t ≡ true) ps
    → All (λ p. contains (c ∷ p) (d ∷ t) ≡ true) ps
All-contains-cons c d t [] h = tt
All-contains-cons c d t (p ∷ ps) h = (contains-cons (c ∷ p) d t h.0, All-contains-cons c d t ps h.1)

split_tail :
    (c : ℕ) (t head : Text) (tail : List Text)
    → split c t ≡ head ∷ tail
    → All (λ p. contains (c ∷ p) t ≡ true) tail
split_tail c [] head tail e = let te : [] ≡ tail = unfold split in ground arith in rw (← te) tt
split_tail c (d ∷ t) head tail e =
    let p = Parts-of c t in
    let later = All-contains-cons c d t p.tail (split_tail c t p.head p.tail p.split_is) in
    elim (Bool-cases (c == d)) [
      | inl same ↦
          let te : p.head ∷ p.tail ≡ tail = unfold split in ground (arith, p.split_is) in
          rw (← te) (
            unfold contains has_prefix in
                ground (arith, (split_head c t p.head p.tail p.split_is).starts),
            later,
          )
      | inr other ↦
          let te : p.tail ≡ tail = unfold split push_head in ground (arith, p.split_is) in
          rw (← te) later
    ]

has_prefix-contains : (s t : Text) → has_prefix s t ≡ true → contains s t ≡ true
unfolding contains
has_prefix-contains s [] h = h
has_prefix-contains s (d ∷ t) h = ground arith

width_pos : (d : ℕ) (t : Text) → len t ≤ len (d ∷ t)
unfolding len
width_pos d t = omega arith

-- A part of a text that has the separator stands next to one.
abbrev pub Beside : ℕ → Text → Text → Type 0
Beside c t p = (contains (p ++ c ∷ []) t ≡ true) ⊎ (contains (c ∷ p) t ≡ true)

All-Beside :
    (c : ℕ) (t : Text) (ps : List Text)
    → All (λ p. contains (c ∷ p) t ≡ true) ps
    → All (Beside c t) ps
All-Beside c t [] h = tt
All-Beside c t (p ∷ ps) h = (inr h.0, All-Beside c t ps h.1)

pub split-Beside : (c : ℕ) (t : Text) → has_char c t ≡ true → All (Beside c t) (split c t)
split-Beside c t h =
    let p = Parts-of c t in
    rw p.split_is (
      inl (has_prefix-contains _ t ((split_head c t p.head p.tail p.split_is).closed h)),
      All-Beside c t p.tail (split_tail c t p.head p.tail p.split_is),
    )

-- No part has the separator.
push-has_char :
    (c d : ℕ) (ps : List Text)
    → (c == d) ≡ false
    → All (λ p. has_char c p ≡ false) ps
    → All (λ p. has_char c p ≡ false) (push_head d ps)
unfolding push_head has_char
push-has_char c d [] e h = ground arith
push-has_char c d (p ∷ ps) e h = ground arith

pub split-has_char : (c : ℕ) (t : Text) → All (λ p. has_char c p ≡ false) (split c t)
unfolding split
split-has_char c [] = (unfold has_char in refl, tt)
split-has_char c (d ∷ t) = elim (Bool-cases (c == d)) [
  | inl same ↦ rw same (unfold has_char in refl, split-has_char c t)
  | inr other ↦ rw other (push-has_char c d (split c t) other (split-has_char c t))
]

len-has_prefix : (s t : Text) → has_prefix s t ≡ true → len s ≤ len t
unfolding has_prefix len
len-has_prefix [] t h = omega arith
len-has_prefix (c ∷ s) [] h = cc
len-has_prefix (c ∷ s) (d ∷ t) h = ground (arith, len-has_prefix s t)

pub len-contains : (s t : Text) → contains s t ≡ true → len s ≤ len t
unfolding contains
len-contains s [] h = len-has_prefix s [] h
len-contains s (d ∷ t) h = ground (arith, len-has_prefix s (d ∷ t), len-contains s t, width_pos d t)

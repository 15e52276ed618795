-- ===== src/Expr/Builder/Group.antt =====
-- internal/expr/builder.go: where one placeholder comes to stand for another name. A filter group
-- of pkg/query/query.go is built by a builder of its own, `addFilterGroup`, and then added.
use dynamorm.Base.{
  ◌+◌, ◌≡◌, ◌≢◌, refl, ◌∙◌, inl, inr, true, false, none, some, List, [], ◌∷◌, arith, Bool-cases,
}
use dynamorm.Base.Assoc.{lookup, insert, merge, lookup-insert_self}
use dynamorm.Base.Text.{Text, Unicode, text_eq, has_char, upper}
use dynamorm.Base.Text.Search.{text_eq_iff}
use dynamorm.Expr.Builder.{
  Builder, new_builder, numbered_name, reserved_name, find_placeholder, bind_name, add_new_name,
  add_name_secure,
}
use dynamorm.Expr.Builder.Build.{Components, push_filter, add_group_filter}
use dynamorm.Expr.Reserved.{is_reserved_word}
use dynamorm.Validation.Field.{validate_field_name}

-- A name that `addNameSecure` accepts and takes whole.
pub record IsWhole (u : Unicode) (name : Text) : Type 0 where
  pub accepted : validate_field_name u name ≡ none
  pub undotted : has_char b'.' name ≡ false

find_placeholder-insert_ne :
    (m : List (Text × Text)) (p x y : Text)
    → x ≢ y
    → find_placeholder y m ≡ none
    → find_placeholder y (insert p x m) ≡ none
unfolding find_placeholder insert
find_placeholder-insert_ne [] p x y ne e = ground (arith, text_eq_iff x y)
find_placeholder-insert_ne ((q, z) ∷ m) p x y ne e =
    ground (arith, text_eq_iff x y, find_placeholder-insert_ne m p x y ne)

module _ {A : Type 0} (u : Unicode) where
  add_whole :
      (b : Builder A) (name : Text)
      → IsWhole u name
      → find_placeholder name b.names ≡ none
      → add_name_secure u b name ≡ bind_name u b name
  unfolding add_name_secure add_new_name
  add_whole b name w absent =
      rw (w.accepted, add_name_secure) (rw (absent, add_new_name, w.undotted) refl)

  first_numbered :
      (name : Text)
      → IsWhole u name
      → is_reserved_word u name ≡ false
      → add_name_secure {A = A} u new_builder name ≡ (
        record new_builder { name_counter = 1; names = (numbered_name 1, name) ∷ [] },
        numbered_name 1,
      )
  unfolding find_placeholder new_builder bind_name insert
  first_numbered name w other = add_whole new_builder name w refl ∙ rw (other, bind_name) refl

  names-add_group_filter :
      (op : Text) (k : Components A) (b : Builder A)
      → (add_group_filter op k b).names ≡ merge k.expression_attribute_names b.names
  unfolding add_group_filter push_filter
  names-add_group_filter op k b = elim (Bool-cases (text_eq k.filter_expression [])) [
    | inl empty ↦ rw (empty, add_group_filter) refl
    | inr other ↦ rw (other, add_group_filter) refl
  ]

  -- Two accepted names without dots that are no reserved words, one added first to the builder and
  -- one added first to the builder of a group: once the group is added, the placeholder of the
  -- first name stands for the second one.
  pub add_group_filter_rebinds :
      (op x y : Text) (k : Components A)
      → IsWhole u x
      → IsWhole u y
      → is_reserved_word u x ≡ false
      → is_reserved_word u y ≡ false
      → k.expression_attribute_names ≡ (add_name_secure {A = A} u new_builder y).0.names
      → lookup
          (add_name_secure {A = A} u new_builder x).1
          (add_group_filter op k (add_name_secure {A = A} u new_builder x).0).names
        ≡ some y
  unfolding merge
  add_group_filter_rebinds op x y k v w ox oy is =
      rw
        (
          names-add_group_filter op k (add_name_secure {A = A} u new_builder x).0,
          is,
          first_numbered y w oy,
          first_numbered x v ox,
        )
        (lookup-insert_self (numbered_name 1) y _)

  bind_reserved :
      (b : Builder A) (x : Text)
      → is_reserved_word u x ≡ true
      → bind_name u b x ≡ (
        record b {
          name_counter = b.name_counter + 1;
          names = insert (reserved_name u x) x b.names;
        },
        reserved_name u x,
      )
  unfolding bind_name
  bind_reserved b x reserved = rw (reserved, bind_name) refl

  -- Two different accepted reserved words with the same upper case, neither of them in the builder,
  -- added one after the other: they get one placeholder, and it stands for the second one.
  pub reserved_word_rebinds :
      (b : Builder A) (x y : Text)
      → IsWhole u x
      → IsWhole u y
      → is_reserved_word u x ≡ true
      → is_reserved_word u y ≡ true
      → upper u x ≡ upper u y
      → x ≢ y
      → find_placeholder x b.names ≡ none
      → find_placeholder y b.names ≡ none
      → let first = add_name_secure u b x in
        let second = add_name_secure u first.0 y in
        (second.1 ≡ first.1) × (lookup first.1 second.0.names ≡ some y)
  reserved_word_rebinds b x y v w rx ry same differ absent_x absent_y =
      let first = add_whole b x v absent_x ∙ bind_reserved b x rx in
      let b' = record b {
        name_counter = b.name_counter + 1;
        names = insert (reserved_name u x) x b.names;
      } in
      let second =
        add_whole b' y w
          (find_placeholder-insert_ne b.names (reserved_name u x) x y differ absent_y)
        ∙ bind_reserved b' y ry in
      rw (first, second, same) (refl, lookup-insert_self (reserved_name u y) y _)

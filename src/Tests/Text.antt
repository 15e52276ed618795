-- ===== src/Tests/Text.antt =====
-- The letter cases of a text in ASCII.
use dynamorm.Base.{refl, false, ◌≡◌, ◌≢◌}
use dynamorm.Base.Text.{Text, Unicode, ascii_lower, ascii_upper, within, text_eq}
use dynamorm.Base.Text.Search.{text_eq_iff}

abbrev pub ascii : Unicode
ascii = record {
  to_lower = ascii_lower;
  to_upper = ascii_upper;
  is_upper = within b'A' b'Z';
  is_lower = within b'a' b'z';
  is_decimal = within b'0' b'9';
  to_lower-ascii = λ c h. refl;
  to_upper-ascii = λ c h. refl;
  is_upper-ascii = λ c h. refl;
  is_lower-ascii = λ c h. refl;
  is_decimal-ascii = λ c h. refl;
}

pub texts_differ : (s t : Text) → text_eq s t ≡ false → s ≢ t
texts_differ s t h e = cc ((text_eq_iff s t).1 e, h)

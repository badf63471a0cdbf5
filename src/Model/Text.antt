-- ===== src/Model/Text.antt =====
-- Text as its sequence of Unicode scalar values, and what the program asks of it. Case is that of
-- the ASCII letters, the only letters of a validated DevEUI and of the query keywords.
use Prim.Native.Char.{code}
use Prim.Native.String.{String}
use lo_ra_db.Prelude.{
  ℕ, ◌+◌, ◌≡◌, refl, Bool, true, false, ◌&&◌, ◌||◌, List, [], ◌∷◌, map, arith, ltb, leb,
  if◌then◌else◌, Ordering, ◌++◌, ◌==◌, drop, length, ==→≡, ap,
}
use lo_ra_db.Prelude.Order.{Ord, cmp_list, list_ord, nat_ord}

abbrev pub Text : Type 0
Text = List ℕ

-- Scalar values compare as the bytes of UTF-8 do.
instance abbrev pub text_ord : Ord Text
text_ord = list_ord

-- A literal of the source.
abbrev pub text : String → Text
text String.[] = []
text (String.◌∷◌ c s) = code c ∷ text s

-- `s == t`
unfoldable pub eq_text : Text → Text → Bool
unfolding cmp_list
eq_text s t = elim (cmp_list s t) [ Ordering.eq ↦ true | _ ↦ false ]

-- `char::len_utf8`
unfoldable pub len_utf8 : ℕ → ℕ
len_utf8 c = if ltb c 0x80 then 1 else if ltb c 0x800 then 2 else if ltb c 0x10000 then 3 else 4

-- `str::len`, in bytes.
unfoldable pub byte_len : Text → ℕ
unfolding len_utf8
byte_len [] = 0
byte_len (c ∷ s) = len_utf8 c + byte_len s

-- `char::is_ascii_hexdigit`
unfoldable pub is_ascii_hexdigit : ℕ → Bool
is_ascii_hexdigit c =
    (leb b'0' c && leb c b'9') || (leb b'a' c && leb c b'f') || (leb b'A' c && leb c b'F')

unfoldable pub to_ascii_lowercase : ℕ → ℕ
to_ascii_lowercase c = if leb b'A' c && leb c b'Z' then c + 32 else c

unfoldable pub to_lowercase : Text → Text
unfolding to_ascii_lowercase
to_lowercase = map to_ascii_lowercase

unfoldable pub eq_ignore_ascii_case : Text → Text → Bool
unfolding to_lowercase eq_text
eq_ignore_ascii_case s t = eq_text (to_lowercase s) (to_lowercase t)

pub eq_text_self : (s : Text) → eq_text s s ≡ true
unfolding eq_text
eq_text_self s = ground (arith, text_ord.cmp_refl s)

pub eq_of_eq_text : (s t : Text) → eq_text s t ≡ true → s ≡ t
unfolding eq_text
eq_of_eq_text s t h = ground (arith, text_ord.eq_of_cmp s t)

to_ascii_lowercase_idem : (c : ℕ) → to_ascii_lowercase (to_ascii_lowercase c) ≡ to_ascii_lowercase c
unfolding to_ascii_lowercase
to_ascii_lowercase_idem c = ground arith

pub to_lowercase_idem : (s : Text) → to_lowercase (to_lowercase s) ≡ to_lowercase s
unfolding to_lowercase
to_lowercase_idem [] = refl
to_lowercase_idem (c ∷ s) = cc (to_ascii_lowercase_idem c, to_lowercase_idem s)

-- `str::starts_with`
unfoldable pub starts_with : Text → Text → Bool
starts_with s [] = true
starts_with [] (p ∷ ps) = false
starts_with (c ∷ s) (p ∷ ps) = c == p && starts_with s ps

pub starts_with-append : (p s : Text) → starts_with (p ++ s) p ≡ true
unfolding starts_with
starts_with-append [] s = refl
starts_with-append (c ∷ p) s = ground (arith, starts_with-append p s)

pub drop-starts_with : (s p : Text) → starts_with s p ≡ true → s ≡ p ++ drop (length p) s
unfolding starts_with
drop-starts_with s [] h = refl
drop-starts_with [] (c ∷ p) h = cc
drop-starts_with (a ∷ s) (c ∷ p) h =
    let same : a ≡ c = ==→≡ a c (ground (arith, h)) in
    rw same (ap (◌∷◌ c) (drop-starts_with s p (ground (arith, h))))

-- `str::ends_with`
unfoldable pub ends_with : Text → Text → Bool
unfolding eq_text
ends_with [] part = eq_text [] part
ends_with (c ∷ s) part = if eq_text (c ∷ s) part then true else ends_with s part

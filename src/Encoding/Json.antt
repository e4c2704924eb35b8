-- ===== src/Encoding/Json.antt =====
-- encoding/json: the values of `any`, Marshal's text and Unmarshal's reading of it. A text is a list
-- of code points. A number keeps its text. A parser gives a value and the input that is left.
pub mod Strings
pub mod RoundTrip
pub mod Scalars
use Prim.Native.Nat.{max}
use table_theory.Base.{
  ℕ, zero, suc, ◌+◌, ◌-◌, ◌*◌, ◌/◌, ◌%◌, ◌≡◌, Bool, true, false, ◌&&◌, ◌||◌, not, ◌==◌, ltb, leb,
  if◌then◌else◌, Option, none, some, [], ◌∷◌, ◌++◌, Text, codes, starts_with, length, drop, text_eq,
}

mutual
  pub data Json : Type 0 where
    null : Json
    bool : Bool → Json
    number : Text → Json
    string : Text → Json
    array : Items → Json
    object : Fields → Json

  pub data Items : Type 0 where
    no_items : Items
    item : Json → Items → Items

  pub data Fields : Type 0 where
    no_fields : Fields
    field : Text → Json → Fields → Fields

-- Printing

abbrev pub hex_digit : ℕ → ℕ
hex_digit d = if ltb d 10 then b'0' + d else b'a' + (d - 10)

abbrev pub unicode_escape : ℕ → Text
unicode_escape c =
    b'\\'
    ∷ b'u'
    ∷ hex_digit (c / 4096)
    ∷ hex_digit (c / 256 % 16)
    ∷ hex_digit (c / 16 % 16)
    ∷ hex_digit (c % 16)
    ∷ []

-- The characters that Marshal writes as an escape of two characters, and that escape's second one.
abbrev pub short_escape : ℕ → Option ℕ
short_escape c =
    if c == b'"' || c == b'\\'
    then some c
    else if c == 8
    then some b'b'
    else if c == 12
    then some b'f'
    else if c == 10
    then some b'n'
    else if c == 13
    then some b'r'
    else if c == 9
    then some b't'
    else none

-- Control characters, those that HTML treats alike, and the two line separators of JavaScript.
abbrev pub is_escaped : ℕ → Bool
is_escaped c =
    ltb c 0x20 || (c == b'<' || (c == b'>' || (c == b'&' || (c == 0x2028 || c == 0x2029))))

abbrev escaped_as : ℕ → Option ℕ → Text
escaped_as c (some e) = b'\\' ∷ e ∷ []
escaped_as c none = if is_escaped c then unicode_escape c else c ∷ []

unfoldable pub escape_char : ℕ → Text
escape_char c = escaped_as c (short_escape c)

unfoldable pub escape_text : Text → Text
escape_text [] = []
escape_text (c ∷ s) = escape_char c ++ escape_text s

-- A string with its quotes.
unfoldable pub quote : Text → Text
quote s = b'"' ∷ (escape_text s ++ b'"' ∷ [])

abbrev pub sep : Bool → Text
sep first = if first then [] else b',' ∷ []

unfoldable mutual
  pub print : Json → Text
  print null = codes "null"
  print (bool true) = codes "true"
  print (bool false) = codes "false"
  print (number digits) = digits
  print (string s) = quote s
  print (array xs) = b'[' ∷ print_items xs true
  print (object fs) = b'{' ∷ print_fields fs true

  pub print_items : Items → Bool → Text
  print_items no_items first = b']' ∷ []
  print_items (item v xs) first = sep first ++ (print v ++ print_items xs false)

  pub print_fields : Fields → Bool → Text
  print_fields no_fields first = b'}' ∷ []
  print_fields (field k v fs) first =
      sep first ++ (quote k ++ b':' ∷ (print v ++ print_fields fs false))

-- Reading

abbrev pub Parser : Type 0 → Type 0
Parser A = Text → Option (A × Text)

infixl 5 ◌>>=◌ ◌>>◌
abbrev pub ◌>>=◌ : {A B : Type 0} → Option A → (A → Option B) → Option B
some a >>= f = f a
none >>= f = none

abbrev ◌>>◌ : {A B : Type 0} → Option A → Option B → Option B
m >> k = m >>= λ _. k

abbrev is_space : ℕ → Bool
is_space c = c == 32 || (c == 9 || (c == 10 || c == 13))

unfoldable pub skip_space : Text → Text
skip_space [] = []
skip_space (c ∷ s) = let rest = skip_space s in if is_space c then rest else c ∷ s

unfoldable pub hex_value : ℕ → Option ℕ
hex_value c =
    if leb b'0' c && leb c b'9'
    then some (c - b'0')
    else if leb b'a' c && leb c b'f'
    then some (c - b'a' + 10)
    else if leb b'A' c && leb c b'F'
    then some (c - b'A' + 10)
    else none

-- The four digits of `\u`.
unfoldable pub hex4 : Parser ℕ
unfolding hex_value
hex4 (a ∷ b ∷ c ∷ d ∷ rest) = do
  p ← hex_value a
  q ← hex_value b
  r ← hex_value c
  s ← hex_value d
  some (((p * 16 + q) * 16 + r) * 16 + s, rest)
hex4 _ = none

abbrev is_surrogate : ℕ → Bool
is_surrogate u = leb 0xd800 u && ltb u 0xe000

-- A second escape that makes a surrogate pair with the value before it.
abbrev paired : ℕ → Text → Option (ℕ × Text) → ℕ × Text
paired u rest (some (v, after)) =
    if ltb u 0xdc00 && (leb 0xdc00 v && ltb v 0xe000)
    then ((u - 0xd800) * 1024 + (v - 0xdc00) + 0x10000, after)
    else (0xfffd, rest)
paired u rest none = (0xfffd, rest)

abbrev second_unit : Text → Option (ℕ × Text)
second_unit s = if starts_with (b'\\' ∷ b'u' ∷ []) s then hex4 (drop 2 s) else none

abbrev pub code_unit : ℕ × Text → ℕ × Text
code_unit (u, rest) = if is_surrogate u then paired u rest (second_unit rest) else (u, rest)

-- What follows a backslash.
unfoldable pub unescape : Parser ℕ
unfolding hex4 starts_with
unescape [] = none
unescape (e ∷ s) =
    if e == b'"' || (e == b'\\' || e == b'/')
    then some (e, s)
    else if e == b'b'
    then some (8, s)
    else if e == b'f'
    then some (12, s)
    else if e == b'n'
    then some (10, s)
    else if e == b'r'
    then some (13, s)
    else if e == b't'
    then some (9, s)
    else if e == b'u'
    then (hex4 s >>= λ unit. some (code_unit unit))
    else none

abbrev pub onto : ℕ → Option (Text × Text) → Option (Text × Text)
onto c (some (s, rest)) = some (c ∷ s, rest)
onto c none = none

-- The string that is left up to its closing quote. Each round takes a character at least.
unfoldable pub string_body : ℕ → Parser Text
unfolding unescape
string_body zero ts = none
string_body (suc fuel) [] = none
string_body (suc fuel) (c ∷ s) =
    let escaped = unescape s >>= λ (r, rest). onto r (string_body fuel rest) in
    let plain = onto c (string_body fuel s) in
    if c == b'"'
    then some ([], s)
    else if c == b'\\'
    then escaped
    else if ltb c 0x20
    then none
    else plain

unfoldable pub read_string : Parser Text
unfolding string_body
read_string [] = none
read_string (c ∷ s) = if c == b'"' then string_body (suc (length s)) s else none

abbrev is_digit : ℕ → Bool
is_digit c = leb b'0' c && leb c b'9'

-- The digits in front, and what follows them.
unfoldable pub digits : Text → Text × Text
digits [] = ([], [])
digits (c ∷ s) = let (ds, rest) = digits s in if is_digit c then (c ∷ ds, rest) else ([], c ∷ s)

abbrev at_least_one : Text → Text × Text → Option (Text × Text)
at_least_one front ([], rest) = none
at_least_one front (d ∷ ds, rest) = some (front ++ (d ∷ ds), rest)

-- `0`, or digits that do not start with it
abbrev no_leading_zero : Text → Text × Text → Option (Text × Text)
no_leading_zero front ([], rest) = none
no_leading_zero front (d ∷ [], rest) = some (front ++ (d ∷ []), rest)
no_leading_zero front (d ∷ e ∷ ds, rest) =
    if d == b'0'
    then some (front ++ (d ∷ []), (e ∷ ds) ++ rest)
    else some (front ++ (d ∷ e ∷ ds), rest)

abbrev starts : ℕ → Text → Bool
starts c [] = false
starts c (d ∷ s) = d == c

abbrev fraction : Text × Text → Option (Text × Text)
fraction (front, rest) =
    if starts b'.' rest
    then at_least_one (front ++ b'.' ∷ []) (digits (drop 1 rest))
    else some (front, rest)

abbrev exponent_digits : Text → Text → Option (Text × Text)
exponent_digits front [] = none
exponent_digits front (c ∷ s) =
    if c == b'+' || c == b'-'
    then at_least_one (front ++ c ∷ []) (digits s)
    else at_least_one front (digits (c ∷ s))

abbrev exponent : Text × Text → Option (Text × Text)
exponent (front, []) = some (front, [])
exponent (front, c ∷ s) =
    if c == b'e' || c == b'E' then exponent_digits (front ++ c ∷ []) s else some (front, c ∷ s)

unfoldable pub read_number : Parser Text
unfolding digits
read_number [] = none
read_number (c ∷ s) =
    let whole =
      if c == b'-'
      then no_leading_zero (c ∷ []) (digits s)
      else no_leading_zero [] (digits (c ∷ s)) in
    whole >>= fraction >>= exponent

-- A value that `read` gives, as a tree.
abbrev read_as : {A : Type 0} → (A → Json) → Option (A × Text) → Option (Json × Text)
read_as make (some (a, rest)) = some (make a, rest)
read_as make none = none

abbrev literal : Text → Json → Parser Json
literal word v s = if starts_with word s then some (v, drop (length word) s) else none

unfoldable pub expect : ℕ → Parser (Unit {0})
expect c ts = let s = skip_space ts in if starts c s then some (tt, drop 1 s) else none

unfoldable pub expect_sep : Bool → Parser (Unit {0})
unfolding expect
expect_sep first ts = if first then some (tt, ts) else expect b',' ts

abbrev pub closes : ℕ → Text → Bool
closes c ts = starts c (skip_space ts)

-- A value that starts with the character `c`.
abbrev pub scalar_at : ℕ → Parser Json
scalar_at c ts =
    if c == b'"'
    then read_as string (read_string ts)
    else if c == b'n'
    then literal (codes "null") null ts
    else if c == b't'
    then literal (codes "true") (bool true) ts
    else if c == b'f'
    then literal (codes "false") (bool false) ts
    else read_as number (read_number ts)

-- A value, with the readers of what follows an opening bracket.
abbrev pub value_at : Parser Items → Parser Fields → Parser Json
value_at items fields [] = none
value_at items fields (c ∷ s) =
    if c == b'['
    then read_as array (items s)
    else if c == b'{'
    then read_as object (fields s)
    else scalar_at c (c ∷ s)

-- What a call leaves of the input is not a structural part of it, so each call costs a unit of fuel.
unfoldable mutual
  unfolding read_string read_number skip_space expect_sep expect starts_with

  pub parse_value : ℕ → Parser Json
  parse_value zero ts = none
  parse_value (suc f) ts = value_at (parse_items f true) (parse_fields f true) (skip_space ts)

  pub parse_items : ℕ → Bool → Parser Items
  parse_items zero first ts = none
  parse_items (suc f) first ts =
      let more = do
        (_, s) ← expect_sep first ts
        (v, s') ← parse_value f s
        (xs, rest) ← parse_items f false s'
        some (item v xs, rest)
      in if closes b']' ts then some (no_items, drop 1 (skip_space ts)) else more

  pub parse_fields : ℕ → Bool → Parser Fields
  parse_fields zero first ts = none
  parse_fields (suc f) first ts =
      let more = do
        (_, s) ← expect_sep first ts
        (k, s1) ← read_string (skip_space s)
        (_, s2) ← expect b':' s1
        (v, s3) ← parse_value f s2
        (fs, rest) ← parse_fields f false s3
        some (field k v fs, rest)
      in if closes b'}' ts then some (no_fields, drop 1 (skip_space ts)) else more

abbrev pub finish : Json × Text → Option Json
finish (v, rest) = elim (skip_space rest) [ [] ↦ some v | c ∷ s ↦ none ]

unfoldable pub parse : Text → Option Json
unfolding parse_value
parse ts = parse_value (2 * length ts + 2) ts >>= finish

-- Maps

-- The order of Go strings: that of their bytes, which is that of their code points.
unfoldable pub text_lt : Text → Text → Bool
text_lt s [] = false
text_lt [] (d ∷ t) = true
text_lt (c ∷ s) (d ∷ t) = ltb c d || (c == d && text_lt s t)

-- A `map[string]any` has its entries in the order of their keys, the order that Marshal writes them
-- in. An entry more, which does not replace one that is there.
unfoldable pub add_field : Text → Json → Fields → Fields
unfolding text_lt
add_field k v no_fields = field k v no_fields
add_field k v (field j w fs) =
    let later = field j w (add_field k v fs) in
    if text_lt k j then field k v (field j w fs) else if text_eq k j then field j w fs else later

-- Unmarshal into `any`: of two entries with one key the later one stays.
unfoldable mutual
  unfolding add_field

  pub to_any : Json → Json
  to_any null = null
  to_any (bool b) = bool b
  to_any (number digits) = number digits
  to_any (string s) = string s
  to_any (array xs) = array (to_slice xs)
  to_any (object fs) = object (to_map fs)

  pub to_slice : Items → Items
  to_slice no_items = no_items
  to_slice (item v xs) = item (to_any v) (to_slice xs)

  pub to_map : Fields → Fields
  to_map no_fields = no_fields
  to_map (field k v fs) = add_field k (to_any v) (to_map fs)

-- The brackets that are open at once. Unmarshal refuses a text with more than ten thousand.
unfoldable mutual
  pub depth : Json → ℕ
  depth (array xs) = suc (depth_items xs)
  depth (object fs) = suc (depth_fields fs)
  depth _ = 0

  pub depth_items : Items → ℕ
  depth_items no_items = 0
  depth_items (item v xs) = max (depth v) (depth_items xs)

  pub depth_fields : Fields → ℕ
  depth_fields no_fields = 0
  depth_fields (field k v fs) = max (depth v) (depth_fields fs)

abbrev pub max_nesting_depth : ℕ
max_nesting_depth = 10000

abbrev pub within_depth : Json → Option Json
within_depth v = if leb (depth v) max_nesting_depth then some v else none

-- The tree of a text that json.Unmarshal accepts, before it is stored anywhere.
unfoldable pub read : Text → Option Json
unfolding parse depth
read ts = parse ts >>= within_depth

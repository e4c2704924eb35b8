-- ===== src/Encoding/Base64.antt =====
-- encoding/base64 with padding: StdEncoding and URLEncoding, which differ in two characters.
use table_theory.Base.{
  ℕ, ◌+◌, ◌-◌, ◌*◌, ◌/◌, ◌%◌, ◌<◌, false, ◌&&◌, ◌||◌, ◌==◌, ltb, leb, if◌then◌else◌, Option, none,
  some, List, [], ◌∷◌, Text, codes, IsNonEmpty, All, ◌≡◌, refl, arith,
}

pub data Alphabet : Type 0 where
  std url : Alphabet

abbrev pad : ℕ
pad = b'='

abbrev char_62 : Alphabet → ℕ
char_62 std = b'+'
char_62 url = b'-'

abbrev char_63 : Alphabet → ℕ
char_63 std = b'/'
char_63 url = b'_'

char_of : Alphabet → ℕ → ℕ
char_of abc v =
    if ltb v 26
    then b'A' + v
    else if ltb v 52
    then b'a' + (v - 26)
    else if ltb v 62
    then b'0' + (v - 52)
    else if v == 62
    then char_62 abc
    else char_63 abc

value_of : Alphabet → ℕ → Option ℕ
value_of abc c =
    if leb b'A' c && leb c b'Z'
    then some (c - b'A')
    else if leb b'a' c && leb c b'z'
    then some (c - b'a' + 26)
    else if leb b'0' c && leb c b'9'
    then some (c - b'0' + 52)
    else if c == char_62 abc
    then some 62
    else if c == char_63 abc
    then some 63
    else none

-- EncodeToString
unfoldable pub encode : Alphabet → List ℕ → Text
unfolding char_of
encode abc [] = []
encode abc (a ∷ []) = char_of abc (a / 4) ∷ char_of abc (a % 4 * 16) ∷ pad ∷ pad ∷ []
encode abc (a ∷ b ∷ []) =
    char_of abc (a / 4) ∷ char_of abc (a % 4 * 16 + b / 16) ∷ char_of abc (b % 16 * 4) ∷ pad ∷ []
encode abc (a ∷ b ∷ c ∷ rest) =
    char_of abc (a / 4)
    ∷ char_of abc (a % 4 * 16 + b / 16)
    ∷ char_of abc (b % 16 * 4 + c / 64)
    ∷ char_of abc (c % 64)
    ∷ encode abc rest

-- The bytes that two, three or four values stand for; the bits left over are not looked at.
abbrev one_byte : Option ℕ → Option ℕ → Option (List ℕ)
one_byte (some v) (some w) = some ((v * 4 + w / 16) ∷ [])
one_byte (some v) none = none
one_byte none w = none

abbrev two_bytes : Option ℕ → Option ℕ → Option ℕ → Option (List ℕ)
two_bytes (some v) (some w) (some x) = some ((v * 4 + w / 16) ∷ (w % 16 * 16 + x / 4) ∷ [])
two_bytes (some v) (some w) none = none
two_bytes (some v) none x = none
two_bytes none w x = none

abbrev three_bytes : Option ℕ → Option ℕ → Option ℕ → Option ℕ → Option (List ℕ) → Option (List ℕ)
three_bytes (some v) (some w) (some x) (some y) (some rest) =
    some ((v * 4 + w / 16) ∷ (w % 16 * 16 + x / 4) ∷ (x % 4 * 64 + y) ∷ rest)
three_bytes (some v) (some w) (some x) (some y) none = none
three_bytes (some v) (some w) (some x) none rest = none
three_bytes (some v) (some w) none y rest = none
three_bytes (some v) none x y rest = none
three_bytes none w x y rest = none

-- Nothing may follow the padding.
abbrev at_end : Text → Option (List ℕ) → Option (List ℕ)
at_end [] r = r
at_end (c ∷ s) r = none

quads : Alphabet → Text → Option (List ℕ)
unfolding value_of
quads abc [] = some []
quads abc (a ∷ b ∷ c ∷ d ∷ rest) =
    let more = quads abc rest in
    if c == pad && d == pad
    then at_end rest (one_byte (value_of abc a) (value_of abc b))
    else if d == pad
    then at_end rest (two_bytes (value_of abc a) (value_of abc b) (value_of abc c))
    else three_bytes (value_of abc a) (value_of abc b) (value_of abc c) (value_of abc d) more
quads abc _ = none

-- The decoder passes over line ends, wherever they stand.
drop_line_ends : Text → Text
drop_line_ends [] = []
drop_line_ends (c ∷ s) =
    let rest = drop_line_ends s in if c == 10 || c == 13 then rest else c ∷ rest

-- DecodeString; `none` is a CorruptInputError.
unfoldable pub decode : Alphabet → Text → Option (List ℕ)
unfolding quads drop_line_ends
decode abc s = quads abc (drop_line_ends s)

abbrev pub IsByte : ℕ → Type 0
IsByte b = b < 256

value_of-char_of : (abc : Alphabet) (v : ℕ) → v < 64 → value_of abc (char_of abc v) ≡ some v
unfolding value_of char_of
value_of-char_of std v h = ground arith
value_of-char_of url v h = ground arith

char_of-ne-pad : (abc : Alphabet) (v : ℕ) → (char_of abc v == pad) ≡ false
unfolding char_of
char_of-ne-pad std v = ground arith
char_of-ne-pad url v = ground arith

char_of-line_end : (abc : Alphabet) (v : ℕ) → (char_of abc v == 10 || char_of abc v == 13) ≡ false
unfolding char_of
char_of-line_end std v = ground arith
char_of-line_end url v = ground arith

drop_line_ends-encode :
    (abc : Alphabet) (bs : List ℕ) → drop_line_ends (encode abc bs) ≡ encode abc bs
unfolding drop_line_ends encode
drop_line_ends-encode abc [] = refl
drop_line_ends-encode abc (a ∷ []) = simp (char_of-line_end)
drop_line_ends-encode abc (a ∷ b ∷ []) = simp (char_of-line_end)
drop_line_ends-encode abc (a ∷ b ∷ c ∷ rest) =
    simp (char_of-line_end, drop_line_ends-encode abc rest)

one_back : (a : ℕ) → a < 256 → one_byte (some (a / 4)) (some (a % 4 * 16)) ≡ some (a ∷ [])
one_back a h = ground arith

two_back :
    (a b : ℕ)
    → a < 256
    → b < 256
    → two_bytes (some (a / 4)) (some (a % 4 * 16 + b / 16)) (some (b % 16 * 4)) ≡ some (a ∷ b ∷ [])
two_back a b ha hb = ground arith

three_back :
    (a b c : ℕ) (rest : List ℕ)
    → a < 256
    → b < 256
    → c < 256
    → three_bytes
        (some (a / 4))
        (some (a % 4 * 16 + b / 16))
        (some (b % 16 * 4 + c / 64))
        (some (c % 64))
        (some rest)
      ≡ some (a ∷ b ∷ c ∷ rest)
three_back a b c rest ha hb hc = ground arith

quads-encode : (abc : Alphabet) (bs : List ℕ) → All IsByte bs → quads abc (encode abc bs) ≡ some bs
unfolding quads encode
quads-encode abc [] h = refl
quads-encode abc (a ∷ []) h =
    rw (value_of-char_of abc (a / 4) (omega arith), value_of-char_of abc (a % 4 * 16) (omega arith))
      (one_back a (omega arith))
quads-encode abc (a ∷ b ∷ []) h =
    rw
      (
        char_of-ne-pad abc (b % 16 * 4),
        value_of-char_of abc (a / 4) (omega arith),
        value_of-char_of abc (a % 4 * 16 + b / 16) (omega arith),
        value_of-char_of abc (b % 16 * 4) (omega arith),
      )
      (two_back a b (omega arith) (omega arith))
quads-encode abc (a ∷ b ∷ c ∷ rest) h =
    rw
      (
        char_of-ne-pad abc (b % 16 * 4 + c / 64),
        char_of-ne-pad abc (c % 64),
        value_of-char_of abc (a / 4) (omega arith),
        value_of-char_of abc (a % 4 * 16 + b / 16) (omega arith),
        value_of-char_of abc (b % 16 * 4 + c / 64) (omega arith),
        value_of-char_of abc (c % 64) (omega arith),
        quads-encode abc rest h.1.1.1,
      )
      (three_back a b c rest (omega arith) (omega arith) (omega arith))

-- What was encoded decodes to the bytes.
pub decode-encode :
    (abc : Alphabet) (bs : List ℕ) → All IsByte bs → decode abc (encode abc bs) ≡ some bs
unfolding decode
decode-encode abc bs h = rw (drop_line_ends-encode abc bs) (quads-encode abc bs h)

pub encode-IsNonEmpty : (abc : Alphabet) (b : ℕ) (bs : List ℕ) → IsNonEmpty (encode abc (b ∷ bs))
unfolding encode
encode-IsNonEmpty abc b [] = tt
encode-IsNonEmpty abc b (c ∷ []) = tt
encode-IsNonEmpty abc b (c ∷ d ∷ rest) = tt

abbrev pub IsAscii : ℕ → Type 0
IsAscii c = c < 128

char_of-IsAscii : (abc : Alphabet) (v : ℕ) → IsAscii (char_of abc v)
unfolding char_of
char_of-IsAscii std v = ground arith
char_of-IsAscii url v = ground arith

pub encode-IsAscii : (abc : Alphabet) (bs : List ℕ) → All IsAscii (encode abc bs)
unfolding encode
encode-IsAscii abc [] = tt
encode-IsAscii abc (a ∷ []) = (
  char_of-IsAscii abc (a / 4),
  (char_of-IsAscii abc (a % 4 * 16), (omega arith, (omega arith, tt))),
)
encode-IsAscii abc (a ∷ b ∷ []) = (
  char_of-IsAscii abc (a / 4),
  (
    char_of-IsAscii abc (a % 4 * 16 + b / 16),
    (char_of-IsAscii abc (b % 16 * 4), (omega arith, tt)),
  ),
)
encode-IsAscii abc (a ∷ b ∷ c ∷ rest) = (
  char_of-IsAscii abc (a / 4),
  (
    char_of-IsAscii abc (a % 4 * 16 + b / 16),
    (
      char_of-IsAscii abc (b % 16 * 4 + c / 64),
      (char_of-IsAscii abc (c % 64), encode-IsAscii abc rest),
    ),
  ),
)

decode_test :
    decode url (encode url (codes "any carnal pleasure")) ≡ some (codes "any carnal pleasure")
unfolding decode encode
decode_test = refl

encode_test : encode std (codes "Man") ≡ codes "TWFu"
unfolding encode
encode_test = refl

-- ===== src/Lease/Sample.antt =====
-- A table that writes as Lease/Client asks: the latest entry of a key gives its item.
use table_theory.Base.{
  ℕ, suc, ◌-◌, Bool, true, false, not, Option, none, some, List, [], ◌∷◌, ◌&&◌, ◌||◌, ◌==◌, Text,
  codes, Assoc, lookup, ◌≡◌, refl, sym, ap, ◌∙◌, ◌⊎◌, inl, inr, Result, ok, err, if◌then◌else◌,
  text_eq, text_eq_refl, text_eq_iff, Bool-cases, arith, ◌≤◌,
}
use table_theory.Base.Decimal.{scan, scan-format, format-first}
use table_theory.Base.Int.{ℤ, pos, negsuc, ltb_ℤ, leb_ℤ}
use table_theory.Expr.{AttributeValue, string_attr, number_attr}
use table_theory.Expr.Convert.{format_int}
use table_theory.Lease.Client.{
  ClientError, IsWrite, conditional_check_failed, other_failure, Item, acquire_condition,
  refresh_condition,
}

abbrev pub pk_attr : Text
pk_attr = codes "pk"

abbrev pub sk_attr : Text
sk_attr = codes "sk"

abbrev pub Entry : Type 0
Entry = Text × Text × Item

abbrev pub Table : Type 0
Table = List Entry

-- The string of an attribute.
unfoldable pub key_text : Option AttributeValue → Text
key_text (some (string_attr t)) = t
key_text other = []

unfoldable pub has_key : Option AttributeValue → Text → Bool
has_key (some (string_attr t)) pk = text_eq t pk
has_key other pk = false

pub has_key-eq :
    (o : Option AttributeValue) (pk : Text) → has_key o pk ≡ true → o ≡ some (string_attr pk)
unfolding has_key
has_key-eq (some (string_attr t)) pk h = cc ((text_eq_iff t pk).0 h)
has_key-eq other pk h = absurd cc

-- An item may stand at a key that it names.
fits : Text → Item → Bool
unfolding has_key
fits pk [] = true
fits pk (a ∷ item) = has_key (lookup pk_attr (a ∷ item)) pk

fits-key :
    (pk : Text) (item : Item)
    → fits pk item ≡ true
    → (item ≡ []) ⊎ (lookup pk_attr item ≡ some (string_attr pk))
unfolding fits
fits-key pk [] h = inl refl
fits-key pk (a ∷ item) h = inr (has_key-eq _ pk h)

checked : Text → Item → Item
unfolding fits
checked pk item = if fits pk item then item else []

unfoldable pub read : Table → Text → Text → Item
unfolding checked
read [] pk sk = []
read ((p, q, item) ∷ s) pk sk =
    let rest = read s pk sk in if text_eq p pk && text_eq q sk then checked pk item else rest

checked-key :
    (pk : Text) (item : Item)
    → (checked pk item ≡ []) ⊎ (lookup pk_attr (checked pk item) ≡ some (string_attr pk))
unfolding checked
checked-key pk item = elim (Bool-cases (fits pk item)) [
  | inl fit ↦ rw fit (fits-key pk item fit)
  | inr unfit ↦ rw unfit (inl refl)
]

pub read-key :
    (s : Table) (pk sk : Text)
    → (read s pk sk ≡ []) ⊎ (lookup pk_attr (read s pk sk) ≡ some (string_attr pk))
unfolding read
read-key [] pk sk = inl refl
read-key ((p, q, item) ∷ s) pk sk = elim (Bool-cases (text_eq p pk && text_eq q sk)) [
  | inl same ↦ rw same (checked-key pk item)
  | inr other ↦ rw other (read-key s pk sk)
]

unfoldable pub write : Text → Text → Bool → Item → Table → Table × Result ClientError (Unit {0})
unfolding fits
write pk sk condition new s =
    if condition
    then (if fits pk new then ((pk, sk, new) ∷ s, ok tt) else (s, err (other_failure [])))
    else (s, err conditional_check_failed)

pub write-IsWrite :
    (pk sk : Text) (condition : Bool) (new : Item) (s : Table)
    → IsWrite read pk sk condition new s (write pk sk condition new s)
unfolding write IsWrite read checked
write-IsWrite pk sk false new s = (refl, λ p q. refl)
write-IsWrite pk sk true new s = elim (Bool-cases (fits pk new)) [
  | inl fit ↦
      rw fit (refl, (rw (text_eq_refl pk, text_eq_refl sk, fit) refl, λ p q other. rw other refl))
  | inr unfit ↦ rw unfit (inl λ p q. refl)
]

-- Numbers are read back from their digits.
unfoldable pub parse_int : Text → ℤ
unfolding scan
parse_int [] = pos 0
parse_int (c ∷ s) = if c == b'-' then negsuc (scan 0 s - 1) else pos (scan 0 (c ∷ s))

parse_digits : (c : ℕ) (s : Text) → b'0' ≤ c → parse_int (c ∷ s) ≡ pos (scan 0 (c ∷ s))
unfolding parse_int
parse_digits c s h = ground arith

pub parse_int-format_int : (n : ℤ) → parse_int (format_int n) ≡ n
unfolding parse_int format_int
parse_int-format_int (pos n) =
    let (c, s, e, digit) = format-first n in
    rw e (rw (parse_digits c s digit) (cc (sym (ap (scan 0) e) ∙ scan-format n)))
parse_int-format_int (negsuc n) = rw (scan-format (suc n)) (ap negsuc (omega arith))

unfoldable pub attribute : Option Text → Item → Option AttributeValue
unfolding lookup
attribute none item = none
attribute (some a) item = lookup a item

unfoldable pub at_name : Text → Assoc Text → Item → Option AttributeValue
unfolding lookup attribute
at_name placeholder names item = attribute (lookup placeholder names) item

unfoldable pub is_some : Option AttributeValue → Bool
is_some none = false
is_some (some v) = true

unfoldable pub number_of : Option AttributeValue → Option ℤ
unfolding parse_int
number_of (some (number_attr t)) = some (parse_int t)
number_of other = none

unfoldable pub compares : (ℤ → ℤ → Bool) → Option ℤ → Option ℤ → Bool
compares test (some a) (some b) = test a b
compares test a b = false

unfoldable pub same_strings : Option AttributeValue → Option AttributeValue → Bool
same_strings (some (string_attr a)) (some (string_attr b)) = text_eq a b
same_strings a b = false

pub same_strings_self :
    (v : Text) → same_strings (some (string_attr v)) (some (string_attr v)) ≡ true
unfolding same_strings
same_strings_self v = text_eq_refl v

pub same_strings-eq :
    (o : Option AttributeValue) (v : Text)
    → same_strings o (some (string_attr v)) ≡ true
    → o ≡ some (string_attr v)
unfolding same_strings
same_strings-eq (some (string_attr a)) v h = cc ((text_eq_iff a v).0 h)
same_strings-eq other v h = absurd cc

unfoldable pub owned : Assoc Text → Item → Item → Bool
unfolding at_name same_strings
owned names values item =
    same_strings (at_name (codes "#lease_token") names item) (lookup (codes ":token") values)

unfoldable pub holds : Text → Assoc Text → Item → Item → Bool
unfolding at_name is_some number_of compares owned
holds condition names values item =
    let expiry = number_of (at_name (codes "#lease_expires_at") names item) in
    let now = number_of (lookup (codes ":now") values) in
    if text_eq condition acquire_condition
    then not (is_some (at_name (codes "#pk") names item)) || compares leb_ℤ expiry now
    else (if text_eq condition refresh_condition
        then owned names values item && compares ltb_ℤ now expiry
        else owned names values item)

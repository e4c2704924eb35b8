-- ===== src/Lease/SampleTable.antt =====
-- The sample table as a client, and that it writes as Lease/Client asks.
use table_theory.Base.{
  Bool, true, false, Option, none, some, [], ◌++◌, ◌&&◌, Text, codes, Assoc, insert, lookup, ◌≡◌,
  refl, sym, ap, ◌∙◌, ◌↔◌, ok, if◌then◌else◌, text_eq, text_eq_refl, and-eq_true,
}
use table_theory.Base.Int.{ℤ, pos, ltb_ℤ, leb_ℤ}
use table_theory.Expr.{AttributeValue, string_attr}
use table_theory.Lease.{Manager, new_manager}
use table_theory.Lease.Client.{
  DynamoDbLeaseApi, ConditionalWrites, Item, number, acquire_condition, refresh_condition,
  release_condition, set_expiry, and_ttl, UpdateItemInput,
}
use table_theory.Lease.Sample.{
  attribute, same_strings_self, Table, pk_attr, sk_attr, key_text, read, read-key, write,
  write-IsWrite, parse_int-format_int, same_strings-eq, at_name, is_some, number_of, compares,
  owned, holds,
}
use table_theory.Lease.Stored.{HasDistinctAttributes}
use table_theory.Lease.Deployment.{Deployment}

unfoldable pub set_opt : Option Text → Option AttributeValue → Item → Item
set_opt (some a) (some v) item = insert a v item
set_opt a v item = item

unfoldable pub updated : UpdateItemInput → Item → Item
unfolding set_opt text_eq lookup
updated u item =
    let expiry =
      set_opt (lookup (codes "#lease_expires_at") u.names) (lookup (codes ":exp") u.values) item in
    if text_eq u.update_expression set_expiry
    then expiry
    else set_opt (lookup (codes "#ttl") u.names) (lookup (codes ":ttl") u.values) expiry

unfoldable pub part : Text → Item → Text
unfolding lookup key_text
part a item = key_text (lookup a item)

unfoldable pub api : DynamoDbLeaseApi Table
unfolding part write holds updated read
api = record {
  put_item = λ i s.
      let pk = part pk_attr i.item in
      let sk = part sk_attr i.item in
      write pk sk (holds i.condition_expression i.names i.values (read s pk sk)) i.item s;
  update_item = λ i s.
      let pk = part pk_attr i.key in
      let sk = part sk_attr i.key in
      write pk sk (holds i.condition_expression i.names i.values (read s pk sk))
        (updated i (read s pk sk)) s;
  delete_item = λ i s.
      let pk = part pk_attr i.key in
      let sk = part sk_attr i.key in
      write pk sk (holds i.condition_expression i.names i.values (read s pk sk)) [] s;
}

part-eq : (a v : Text) (item : Item) → lookup a item ≡ some (string_attr v) → part a item ≡ v
unfolding part key_text
part-eq a v item h = rw h refl

number_of-number : (n : ℤ) → number_of (some (number n)) ≡ some n
unfolding number_of
number_of-number n = ap some (parse_int-format_int n)

at_name-eq :
    (placeholder a : Text) (names : Assoc Text) (item : Item)
    → lookup placeholder names ≡ some a
    → at_name placeholder names item ≡ lookup a item
unfolding at_name attribute
at_name-eq placeholder a names item h = ap (λ o. attribute o item) h

attribute-absent : (a : Option Text) → attribute a [] ≡ none
unfolding attribute lookup
attribute-absent none = refl
attribute-absent (some a) = refl

at_name-absent : (placeholder : Text) (names : Assoc Text) → at_name placeholder names [] ≡ none
unfolding at_name
at_name-absent placeholder names = attribute-absent (lookup placeholder names)

compares-numbers :
    (test : ℤ → ℤ → Bool) (x n : ℤ)
    → compares test (number_of (some (number x))) (number_of (some (number n))) ≡ test x n
unfolding compares
compares-numbers test x n = cc (number_of-number x, number_of-number n)

holds_absent :
    (names : Assoc Text) (values item : Item)
    → item ≡ []
    → holds acquire_condition names values item ≡ true
unfolding holds is_some
holds_absent names values item h =
    rw (text_eq_refl acquire_condition, h, at_name-absent (codes "#pk") names) refl

holds_present :
    (names : Assoc Text) (values item : Item) (e p : Text) (v : AttributeValue) (n x : ℤ)
    → lookup (codes "#pk") names ≡ some p
    → lookup (codes "#lease_expires_at") names ≡ some e
    → lookup (codes ":now") values ≡ some (number n)
    → lookup p item ≡ some v
    → lookup e item ≡ some (number x)
    → holds acquire_condition names values item ≡ leb_ℤ x n
unfolding holds is_some
holds_present names values item e p v n x hp he hn hv hx =
    rw
      (
        text_eq_refl acquire_condition,
        at_name-eq (codes "#pk") p names item hp,
        hv,
        at_name-eq (codes "#lease_expires_at") e names item he,
        hx,
        hn,
      )
      (compares-numbers leb_ℤ x n)

owned-eq :
    (names : Assoc Text) (values item : Item) (t v : Text)
    → lookup (codes "#lease_token") names ≡ some t
    → lookup (codes ":token") values ≡ some (string_attr v)
    → (owned names values item ≡ true) ↔ (lookup t item ≡ some (string_attr v))
unfolding owned
owned-eq names values item t v ht hv =
    let named = at_name-eq (codes "#lease_token") t names item ht in
    rw (named, hv) (same_strings-eq (lookup t item) v, λ e. rw e (same_strings_self v))

holds_refresh :
    (names : Assoc Text) (values item : Item)
    → holds refresh_condition names values item ≡ (
        owned names values item
        && compares ltb_ℤ
            (number_of (lookup (codes ":now") values))
            (number_of (at_name (codes "#lease_expires_at") names item)))
unfolding holds text_eq
holds_refresh names values item = refl

holds_release :
    (names : Assoc Text) (values item : Item)
    → holds release_condition names values item ≡ owned names values item
unfolding holds text_eq
holds_release names values item = refl

updated-expiry :
    (u : UpdateItemInput) (item : Item) {e : Text} {v : AttributeValue}
    → u.update_expression ≡ set_expiry
    → lookup (codes "#lease_expires_at") u.names ≡ some e
    → lookup (codes ":exp") u.values ≡ some v
    → updated u item ≡ insert e v item
unfolding updated set_opt
updated-expiry u item h he hv =
    rw (ap (λ x. text_eq x set_expiry) h ∙ text_eq_refl set_expiry, he, hv) refl

longer : text_eq (set_expiry ++ and_ttl) set_expiry ≡ false
unfolding text_eq
longer = refl

updated-both :
    (u : UpdateItemInput) (item : Item) {e t : Text} {v w : AttributeValue}
    → u.update_expression ≡ set_expiry ++ and_ttl
    → lookup (codes "#lease_expires_at") u.names ≡ some e
    → lookup (codes ":exp") u.values ≡ some v
    → lookup (codes "#ttl") u.names ≡ some t
    → lookup (codes ":ttl") u.values ≡ some w
    → updated u item ≡ insert t w (insert e v item)
unfolding updated set_opt
updated-both u item h he hv ht hw =
    rw (ap (λ x. text_eq x set_expiry) h ∙ longer, he, hv, ht, hw) refl

pub laws : ConditionalWrites api pk_attr sk_attr
unfolding api updated set_opt
laws = record {
  read = λ s table. read s;
  read_key = λ s table. read-key s;
  holds = holds;
  updated = updated;
  acquire_absent = λ {names} {values} {item} h. holds_absent names values item h;
  acquire_present =
      λ {names} {values} {item} {e} {p} {v} n x. holds_present names values item e p v n x;
  refresh_owner = λ {names} {values} {item} {t} {v} ht hv h.
      (owned-eq names values item t v ht hv).0
        (and-eq_true _ _ (sym (holds_refresh names values item) ∙ h)).0;
  refresh_owned = λ {names} {values} {item} {t} {e} {v} n x ht he hv hn h hx.
      holds_refresh names values item
      ∙ rw
          (
            (owned-eq names values item t v ht hv).1 h,
            hn,
            at_name-eq (codes "#lease_expires_at") e names item he,
            hx,
          )
          (compares-numbers ltb_ℤ n x);
  release_owner = λ {names} {values} {item} {t} {v} ht hv.
      rw (holds_release names values item) (owned-eq names values item t v ht hv);
  updated_expiry = λ u item h he hv a. ap (lookup a) (updated-expiry u item h he hv);
  updated_both = λ u item h he hv ht hw a. ap (lookup a) (updated-both u item h he hv ht hw);
  put_writes = λ i s {pk} {sk} hp hs.
      rw (part-eq pk_attr pk i.item hp, part-eq sk_attr sk i.item hs)
        (write-IsWrite pk sk _ i.item s);
  update_writes = λ i s {pk} {sk} hp hs.
      rw (part-eq pk_attr pk i.key hp, part-eq sk_attr sk i.key hs) (write-IsWrite pk sk _ _ s);
  delete_writes = λ i s {pk} {sk} hp hs.
      rw (part-eq pk_attr pk i.key hp, part-eq sk_attr sk i.key hs) (write-IsWrite pk sk _ [] s);
}

pub laws-read : (s : Table) (table pk sk : Text) → laws.read s table pk sk ≡ read s pk sk
unfolding laws
laws-read s table pk sk = refl

-- The manager that NewManager makes without options.
abbrev pub manager : Manager Table
manager = record {
  client = some api;
  table_name = codes "locks";
  pk_attr = codes "pk";
  sk_attr = codes "sk";
  token_attr = codes "lease_token";
  expires_at_attr = codes "lease_expires_at";
  ttl_attr = codes "ttl";
  lock_sort_key = codes "LOCK";
  ttl_buffer = pos 3600000000000;
  include_ttl = true;
  validate_input = true;
}

new_manager-manager : new_manager (some api) (codes "locks") [] ≡ ok manager
unfolding new_manager
new_manager-manager = refl

pub manager-HasDistinctAttributes : HasDistinctAttributes manager
unfolding text_eq
manager-HasDistinctAttributes = (refl, refl, refl, refl, refl, refl, refl, refl, refl, refl)

abbrev pub deployment : Deployment Table
deployment = record {
  manager = manager;
  api = api;
  connected = refl;
  distinct = manager-HasDistinctAttributes;
  laws = laws;
}

-- ===== src/Lease/Client.antt =====
-- The DynamoDB client that pkg/lease/lease.go calls: the requests it sends, the interface
-- DynamoDBLeaseAPI, and what the documentation of DynamoDB says of conditional writes.
use table_theory.Base.{
  ◌≡◌, ◌⊎◌, some, [], Text, codes, Bool, true, false, Assoc, Result, ok, err, lookup, insert,
  text_eq, ◌&&◌, ◌++◌, ◌↔◌,
}
use table_theory.Base.Int.{ℤ, leb_ℤ, ltb_ℤ}
use table_theory.Expr.{AttributeValue, string_attr, number_attr}
use table_theory.Expr.Convert.{format_int}

abbrev pub Item : Type 0
Item = Assoc AttributeValue

-- What the manager fills in of dynamodb.PutItemInput, UpdateItemInput and DeleteItemInput. An
-- update here is `SET` of attributes to values: the pairs are the names and values that the update
-- expression pairs by its placeholders.
pub record PutItemInput : Type 0 where
  pub table_name : Text
  pub item : Item
  pub condition_expression : Text
  pub names : Assoc Text
  pub values : Item

pub record UpdateItemInput : Type 0 where
  pub table_name : Text
  pub key : Item
  pub update_expression : Text
  pub condition_expression : Text
  pub names : Assoc Text
  pub values : Item

pub record DeleteItemInput : Type 0 where
  pub table_name : Text
  pub key : Item
  pub condition_expression : Text
  pub names : Assoc Text
  pub values : Item

-- ConditionalCheckFailedException, or any other failure of the call
pub data ClientError : Type 0 where
  conditional_check_failed : ClientError
  other_failure : Text → ClientError

-- interface DynamoDBLeaseAPI, as functions of the state behind it
pub record DynamoDbLeaseApi (Store : Type 0) : Type 0 where
  pub put_item : PutItemInput → Store → Store × Result ClientError (Unit {0})
  pub update_item : UpdateItemInput → Store → Store × Result ClientError (Unit {0})
  pub delete_item : DeleteItemInput → Store → Store × Result ClientError (Unit {0})

abbrev pub acquire_condition : Text
acquire_condition = codes "attribute_not_exists(#pk) OR #lease_expires_at <= :now"

abbrev pub refresh_condition : Text
refresh_condition = codes "#lease_token = :token AND #lease_expires_at > :now"

abbrev pub release_condition : Text
release_condition = codes "#lease_token = :token"

abbrev pub set_expiry : Text
set_expiry = codes "SET #lease_expires_at = :exp"

abbrev pub and_ttl : Text
and_ttl = codes ", #ttl = :ttl"

abbrev pub number : ℤ → AttributeValue
number n = number_attr (format_int n)

-- A write of `new` at one key of a table that goes by a condition: it took place, or nothing changed.
module _ {Store : Type 0} (read : Store → Text → Text → Item) where
  abbrev pub IsUnchanged : Store → Store → Type 0
  IsUnchanged s s' = (pk sk : Text) → read s' pk sk ≡ read s pk sk

  abbrev pub IsReplaced : Text → Text → Item → Store → Store → Type 0
  IsReplaced pk sk new s s' =
      (read s' pk sk ≡ new)
      × ((p q : Text) → text_eq pk p && text_eq sk q ≡ false → read s' p q ≡ read s p q)

  unfoldable pub IsWrite :
      Text → Text → Bool → Item → Store → Store × Result ClientError (Unit {0}) → Type 0
  IsWrite pk sk condition new s (s', ok done) = (condition ≡ true) × IsReplaced pk sk new s s'
  IsWrite pk sk condition new s (s', err conditional_check_failed) =
      (condition ≡ false) × IsUnchanged s s'
  IsWrite pk sk condition new s (s', err (other_failure e)) =
      IsUnchanged s s' ⊎ ((condition ≡ true) × IsReplaced pk sk new s s')

-- What DynamoDB documents of the requests above, for a table whose keys are the strings at two
-- attributes: how the conditions and the updates that the manager sends are understood, and that
-- a write takes place exactly when its condition holds. A failure of another kind leaves open
-- whether the write took place, as a lost answer does.
pub record ConditionalWrites {Store : Type 0} (api : DynamoDbLeaseApi Store)
    (pk_attr sk_attr : Text) : Type 1 where
  -- The attributes of the item at a key of a table, none where there is no item.
  pub read : Store → Text → Text → Text → Item
  pub read_key :
      (s : Store) (table pk sk : Text)
      → (read s table pk sk ≡ []) ⊎ (lookup pk_attr (read s table pk sk) ≡ some (string_attr pk))
  -- Whether a condition with its placeholders holds of an item, and the item after an update.
  pub holds : Text → Assoc Text → Item → Item → Bool
  pub updated : UpdateItemInput → Item → Item
  pub acquire_absent :
      {names : Assoc Text} {values item : Item}
      → item ≡ []
      → holds acquire_condition names values item ≡ true
  pub acquire_present :
      {names : Assoc Text} {values item : Item} {e p : Text} {v : AttributeValue} (n x : ℤ)
      → lookup (codes "#pk") names ≡ some p
      → lookup (codes "#lease_expires_at") names ≡ some e
      → lookup (codes ":now") values ≡ some (number n)
      → lookup p item ≡ some v
      → lookup e item ≡ some (number x)
      → holds acquire_condition names values item ≡ leb_ℤ x n
  pub refresh_owner :
      {names : Assoc Text} {values item : Item} {t : Text} {v : Text}
      → lookup (codes "#lease_token") names ≡ some t
      → lookup (codes ":token") values ≡ some (string_attr v)
      → holds refresh_condition names values item ≡ true
      → lookup t item ≡ some (string_attr v)
  pub refresh_owned :
      {names : Assoc Text} {values item : Item} {t e : Text} {v : Text} (n x : ℤ)
      → lookup (codes "#lease_token") names ≡ some t
      → lookup (codes "#lease_expires_at") names ≡ some e
      → lookup (codes ":token") values ≡ some (string_attr v)
      → lookup (codes ":now") values ≡ some (number n)
      → lookup t item ≡ some (string_attr v)
      → lookup e item ≡ some (number x)
      → holds refresh_condition names values item ≡ ltb_ℤ n x
  pub release_owner :
      {names : Assoc Text} {values item : Item} {t : Text} {v : Text}
      → lookup (codes "#lease_token") names ≡ some t
      → lookup (codes ":token") values ≡ some (string_attr v)
      → (holds release_condition names values item ≡ true) ↔ (lookup t item ≡ some (string_attr v))
  pub updated_expiry :
      (u : UpdateItemInput) (item : Item) {e : Text} {v : AttributeValue}
      → u.update_expression ≡ set_expiry
      → lookup (codes "#lease_expires_at") u.names ≡ some e
      → lookup (codes ":exp") u.values ≡ some v
      → (a : Text) → lookup a (updated u item) ≡ lookup a (insert e v item)
  pub updated_both :
      (u : UpdateItemInput) (item : Item) {e t : Text} {v w : AttributeValue}
      → u.update_expression ≡ set_expiry ++ and_ttl
      → lookup (codes "#lease_expires_at") u.names ≡ some e
      → lookup (codes ":exp") u.values ≡ some v
      → lookup (codes "#ttl") u.names ≡ some t
      → lookup (codes ":ttl") u.values ≡ some w
      → (a : Text) → lookup a (updated u item) ≡ lookup a (insert t w (insert e v item))
  pub put_writes :
      (i : PutItemInput) (s : Store) {pk sk : Text}
      → lookup pk_attr i.item ≡ some (string_attr pk)
      → lookup sk_attr i.item ≡ some (string_attr sk)
      → IsWrite
          (λ s. read s i.table_name)
          pk
          sk
          (holds i.condition_expression i.names i.values (read s i.table_name pk sk))
          i.item
          s
          (api.put_item i s)
  pub update_writes :
      (i : UpdateItemInput) (s : Store) {pk sk : Text}
      → lookup pk_attr i.key ≡ some (string_attr pk)
      → lookup sk_attr i.key ≡ some (string_attr sk)
      → IsWrite
          (λ s. read s i.table_name)
          pk
          sk
          (holds i.condition_expression i.names i.values (read s i.table_name pk sk))
          (updated i (read s i.table_name pk sk))
          s
          (api.update_item i s)
  pub delete_writes :
      (i : DeleteItemInput) (s : Store) {pk sk : Text}
      → lookup pk_attr i.key ≡ some (string_attr pk)
      → lookup sk_attr i.key ≡ some (string_attr sk)
      → IsWrite
          (λ s. read s i.table_name)
          pk
          sk
          (holds i.condition_expression i.names i.values (read s i.table_name pk sk))
          []
          s
          (api.delete_item i s)

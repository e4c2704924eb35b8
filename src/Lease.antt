-- ===== src/Lease.antt =====
-- pkg/lease: leases on keys of a DynamoDB table. Here are the data, the options and NewManager
-- (lease.go, errors.go). A `*Manager` is an optional record; the AWS client is a parameter, whose
-- state is of type `Store`.
pub mod Client
pub mod Operations
pub mod Writes
pub mod Stored
pub mod Deployment
pub mod Others
pub mod Granted
pub mod Exclusion
pub mod Apart
pub mod Invariant
pub mod Runs
pub mod Progress
mod Sample
mod SampleTable
mod Examples
use table_theory.Base.{
  ℕ, Bool, true, false, not, Option, none, some, List, [], ◌∷◌, Text, codes, Result, ok, err,
  text_eq, ◌*◌, ◌^◌,
}
use table_theory.Base.Int.{ℤ, pos}
use table_theory.Lease.Client.{DynamoDbLeaseApi, ClientError}

-- struct Key
pub record Key : Type 0 where
  pub pk : Text
  pub sk : Text

-- struct Lease
pub record Lease : Type 0 where
  pub key : Key
  pub token : Text
  pub expires_at : ℤ

-- The errors of the package, LeaseHeldError and LeaseNotOwnedError among them.
pub data Error : Type 0 where
  nil_receiver client_is_nil client_required table_name_required : Error
  keys_required token_required duration_not_positive : Error
  acquire_failed refresh_failed release_failed : ClientError → Error
  lease_held lease_not_owned : Key → Error

-- struct Manager, less the two functions `now` and `token`: what they return at a call is an
-- argument of the call here.
pub record Manager (Store : Type 0) : Type 0 where
  pub client : Option (DynamoDbLeaseApi Store)
  pub table_name : Text
  pub pk_attr : Text
  pub sk_attr : Text
  pub token_attr : Text
  pub expires_at_attr : Text
  pub ttl_attr : Text
  pub lock_sort_key : Text
  pub ttl_buffer : ℤ
  pub include_ttl : Bool
  pub validate_input : Bool

abbrev pub is_empty : Text → Bool
is_empty [] = true
is_empty (c ∷ s) = false

-- stringsEmpty under its Go name
unfoldable pub strings_empty : Text → Bool
strings_empty s = is_empty s

abbrev pub second : ℕ
second = 1000000000

-- An option, as the function it applies to the new manager.
abbrev pub Setting : Type 0 → Type 0
Setting Store = Manager Store → Manager Store

abbrev unless_empty : Text → Text → Text
unless_empty [] old = old
unless_empty (c ∷ s) old = c ∷ s

module _ {Store : Type 0} where
  unfoldable pub with_ttl_buffer : ℤ → Setting Store
  with_ttl_buffer buffer m = record m { ttl_buffer = buffer }

  unfoldable pub with_lock_sort_key : Text → Setting Store
  with_lock_sort_key name m = record m { lock_sort_key = unless_empty name m.lock_sort_key }

  unfoldable pub with_key_attribute_names : Text → Text → Setting Store
  with_key_attribute_names pk sk m = record m {
    pk_attr = unless_empty pk m.pk_attr;
    sk_attr = unless_empty sk m.sk_attr;
  }

  unfoldable pub with_lease_attribute_names : Text → Text → Text → Setting Store
  with_lease_attribute_names token expires_at ttl m = record m {
    token_attr = unless_empty token m.token_attr;
    expires_at_attr = unless_empty expires_at m.expires_at_attr;
    ttl_attr = unless_empty ttl m.ttl_attr;
  }

  unfoldable pub with_include_ttl : Bool → Setting Store
  with_include_ttl include m = record m { include_ttl = include }

  unfoldable pub with_validate_input : Bool → Setting Store
  with_validate_input validate m = record m { validate_input = validate }

  abbrev defaults : DynamoDbLeaseApi Store → Text → Manager Store
  defaults client table_name = record {
    client = some client;
    table_name = table_name;
    pk_attr = codes "pk";
    sk_attr = codes "sk";
    token_attr = codes "lease_token";
    expires_at_attr = codes "lease_expires_at";
    ttl_attr = codes "ttl";
    lock_sort_key = codes "LOCK";
    ttl_buffer = pos (3600 * second);
    include_ttl = true;
    validate_input = true;
  }

  abbrev apply : List (Setting Store) → Setting Store
  apply [] m = m
  apply (setting ∷ settings) m = apply settings (setting m)

  unfoldable pub new_manager :
      Option (DynamoDbLeaseApi Store) → Text → List (Setting Store) → Result Error (Manager Store)
  new_manager none table_name settings = err client_required
  new_manager (some client) [] settings = err table_name_required
  new_manager (some client) (c ∷ s) settings = ok (apply settings (defaults client (c ∷ s)))

-- ===== src/Lease/Operations.antt =====
-- pkg/lease/lease.go: Acquire, Refresh and Release, each a single conditional write.
use table_theory.Base.{
  Bool, true, false, not, Option, none, some, [], ◌∷◌, ◌++◌, ◌&&◌, ◌||◌, Text, codes, insert,
  Result, ok, err, if◌then◌else◌,
}
use table_theory.Base.Int.{ℤ, pos, ◌+ℤ◌, ltb_ℤ, leb_ℤ, div_floor}
use table_theory.Expr.{string_attr}
use table_theory.Lease.{
  Key, Lease, Error, nil_receiver, client_is_nil, keys_required, token_required,
  duration_not_positive, acquire_failed, refresh_failed, release_failed, lease_held,
  lease_not_owned, Manager, strings_empty, second,
}
use table_theory.Lease.Client.{
  DynamoDbLeaseApi, PutItemInput, UpdateItemInput, DeleteItemInput, ClientError,
  conditional_check_failed, other_failure, Item, number, acquire_condition, refresh_condition,
  release_condition, set_expiry, and_ttl,
}

-- Times and durations are in nanoseconds; Time.Unix rounds down to a second.
unfoldable pub unix : ℤ → ℤ
unfolding div_floor
unix t = div_floor t second

-- isConditionalCheckFailed
unfoldable pub is_conditional_check_failed : ClientError → Bool
is_conditional_check_failed conditional_check_failed = true
is_conditional_check_failed (other_failure e) = false

-- The guards that Refresh and Release share, and those of AcquireKey.
missing : Option Error → Option Error → Option Error
missing (some e) next = some e
missing none next = next

fails_if : Bool → Error → Option Error
fails_if true e = some e
fails_if false e = none

-- The results of the client's call: the error of a failed condition, and that of another failure.
abbrev pub answer :
    {A : Type 0}
    → Result Error A
    → (ClientError → Error)
    → A
    → Result ClientError (Unit {0})
    → Result Error A
answer lost failed value (ok done) = ok value
answer lost failed value (err e) = if is_conditional_check_failed e then lost else err (failed e)

abbrev pub lease_of : Key → Text → ℤ → Lease
lease_of key token expires_at = record { key = key; token = token; expires_at = expires_at }

module _ {Store : Type 0} where
  unfoldable pub acquire_refusal : Manager Store → Key → ℤ → Option Error
  unfolding missing fails_if strings_empty
  acquire_refusal m key duration =
      if m.validate_input
      then missing (fails_if (strings_empty key.pk || strings_empty key.sk) keys_required)
          (fails_if (leb_ℤ duration (pos 0)) duration_not_positive)
      else none

  unfoldable pub release_refusal : Manager Store → Lease → Option Error
  unfolding missing fails_if strings_empty
  release_refusal m lease =
      if m.validate_input
      then missing
          (fails_if (strings_empty lease.key.pk || strings_empty lease.key.sk) keys_required)
          (fails_if (strings_empty lease.token) token_required)
      else none

  unfoldable pub refresh_refusal : Manager Store → Lease → ℤ → Option Error
  unfolding missing fails_if release_refusal
  refresh_refusal m lease duration =
      missing (release_refusal m lease)
        (fails_if (m.validate_input && leb_ℤ duration (pos 0)) duration_not_positive)

  -- The condition of `ttl` attributes, and their value: the buffer counts in whole seconds.
  abbrev pub writes_ttl : Manager Store → Bool
  writes_ttl m = m.include_ttl && (ltb_ℤ (pos 0) m.ttl_buffer && not (strings_empty m.ttl_attr))

  unfoldable pub ttl_of : Manager Store → ℤ → ℤ
  unfolding div_floor ◌+ℤ◌
  ttl_of m expires_at = expires_at +ℤ div_floor m.ttl_buffer second

  unfoldable pub key_item : Manager Store → Key → Item
  unfolding insert
  key_item m key = insert m.sk_attr (string_attr key.sk) (insert m.pk_attr (string_attr key.pk) [])

  unfoldable pub lease_item : Manager Store → Key → Text → ℤ → Item
  unfolding insert key_item
  lease_item m key token expires_at =
      insert m.expires_at_attr (number expires_at)
        (insert m.token_attr (string_attr token) (key_item m key))

  unfoldable pub acquire_item : Manager Store → Key → Text → ℤ → Item
  unfolding insert lease_item ttl_of strings_empty
  acquire_item m key token expires_at =
      let item = lease_item m key token expires_at in
      if writes_ttl m then insert m.ttl_attr (number (ttl_of m expires_at)) item else item

  unfoldable pub acquire_input : Manager Store → Key → Text → ℤ → ℤ → PutItemInput
  unfolding acquire_item
  acquire_input m key token now expires_at = record {
    table_name = m.table_name;
    item = acquire_item m key token expires_at;
    condition_expression = acquire_condition;
    names = (codes "#pk", m.pk_attr) ∷ (codes "#lease_expires_at", m.expires_at_attr) ∷ [];
    values = (codes ":now", number now) ∷ [];
  }

  unfoldable pub refresh_input : Manager Store → Lease → ℤ → ℤ → UpdateItemInput
  unfolding key_item ttl_of strings_empty
  refresh_input m lease now expires_at =
      let names =
        (codes "#lease_token", m.token_attr)
        ∷ (codes "#lease_expires_at", m.expires_at_attr)
        ∷ [] in
      let values =
        (codes ":token", string_attr lease.token)
        ∷ (codes ":now", number now)
        ∷ (codes ":exp", number expires_at)
        ∷ [] in
      record {
        table_name = m.table_name;
        key = key_item m lease.key;
        update_expression = if writes_ttl m then set_expiry ++ and_ttl else set_expiry;
        condition_expression = refresh_condition;
        names = if writes_ttl m then names ++ ((codes "#ttl", m.ttl_attr) ∷ []) else names;
        values =
            if writes_ttl m
            then values ++ ((codes ":ttl", number (ttl_of m expires_at)) ∷ [])
            else values;
      }

  unfoldable pub release_input : Manager Store → Lease → DeleteItemInput
  unfolding key_item
  release_input m lease = record {
    table_name = m.table_name;
    key = key_item m lease.key;
    condition_expression = release_condition;
    names = (codes "#lease_token", m.token_attr) ∷ [];
    values = (codes ":token", string_attr lease.token) ∷ [];
  }

  abbrev pub after : {A B : Type 0} → (A → B) → Store × A → Store × B
  after f (s, a) = (s, f a)

  -- A call: refused with an error before the write, or the answer to the write.
  unfoldable pub guarded :
      {A : Type 0}
      → Option Error
      → (Result ClientError (Unit {0}) → Result Error A)
      → (Store → Store × Result ClientError (Unit {0}))
      → Store
      → Store × Result Error A
  guarded (some e) reply write s = (s, err e)
  guarded none reply write s = after reply (write s)

  -- The receiver and its client, or the error for their lack.
  abbrev connected :
      {A : Type 0}
      → Option (Manager Store)
      → (Manager Store → DynamoDbLeaseApi Store → Store → Store × Result Error A)
      → Store
      → Store × Result Error A
  connected none call s = (s, err nil_receiver)
  connected (some m) call s = elim m.client [
    | none ↦ (s, err client_is_nil)
    | some client ↦ call m client s
  ]

  -- AcquireKey, with the clock's reading and the token that the two functions of the manager return
  unfoldable pub acquire_key :
      Option (Manager Store) → Key → ℤ → Text → ℤ → Store → Store × Result Error Lease
  unfolding guarded acquire_refusal acquire_input unix is_conditional_check_failed ◌+ℤ◌
  acquire_key receiver key now token duration = connected receiver λ m client.
      let expires_at = unix (now +ℤ duration) in
      guarded (acquire_refusal m key duration)
        (answer (err (lease_held key)) acquire_failed (lease_of key token expires_at))
        (client.put_item (acquire_input m key token (unix now) expires_at))

  unfoldable pub acquire :
      Option (Manager Store) → Text → ℤ → Text → ℤ → Store → Store × Result Error Lease
  unfolding acquire_key
  acquire none pk now token duration s = (s, err nil_receiver)
  acquire (some m) pk now token duration s =
      acquire_key (some m) (record { pk = pk; sk = m.lock_sort_key }) now token duration s

  unfoldable pub refresh :
      Option (Manager Store) → Lease → ℤ → ℤ → Store → Store × Result Error Lease
  unfolding guarded refresh_refusal refresh_input unix is_conditional_check_failed ◌+ℤ◌
  refresh receiver lease now duration = connected receiver λ m client.
      let expires_at = unix (now +ℤ duration) in
      guarded (refresh_refusal m lease duration)
        (answer (err (lease_not_owned lease.key)) refresh_failed
          (record lease { expires_at = expires_at }))
        (client.update_item (refresh_input m lease (unix now) expires_at))

  -- Release ignores a failed condition.
  unfoldable pub release : Option (Manager Store) → Lease → Store → Store × Result Error (Unit {0})
  unfolding guarded release_refusal release_input is_conditional_check_failed
  release receiver lease = connected receiver λ m client.
      guarded (release_refusal m lease) (answer (ok tt) release_failed tt)
        (client.delete_item (release_input m lease))

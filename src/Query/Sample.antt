-- ===== src/Query/Sample.antt =====
-- A model with a key of two fields, an index, and a field that is encrypted; its queries run in the
-- cases of the query parts.
use table_theory.Base.{
  Bool, List, Option, none, some, [], ◌∷◌, Text, String, codes, text_eq, ◌||◌, ◌≡◌, ◌≢◌, refl, true,
  false, if◌then◌else◌, subst,
}
use table_theory.Validation.Value.{string_value}
use table_theory.Index.{IndexSchema}
use table_theory.Query.State.{Query, ModelMetadata, AttributeMetadata, new_query}
use table_theory.Query.Chain.{calls, Call, where_call}
use table_theory.Query.BestIndex.{IsLawful}

abbrev attribute : String → String → AttributeMetadata
attribute go db = record { tags = []; name = codes go; dynamodb_name = codes db }

abbrev secret : AttributeMetadata
secret = record {
  tags = (codes "encrypted", []) ∷ [];
  name = codes "Secret";
  dynamodb_name = codes "secret";
}

abbrev pub attribute_of : Text → Option AttributeMetadata
attribute_of f =
    if text_eq f (codes "ID") || text_eq f (codes "id")
    then some (attribute "ID" "id")
    else if text_eq f (codes "Created") || text_eq f (codes "created")
    then some (attribute "Created" "created")
    else if text_eq f (codes "Email") || text_eq f (codes "email")
    then some (attribute "Email" "email")
    else if text_eq f (codes "Secret") || text_eq f (codes "secret")
    then some secret
    else none

abbrev pub by_email : IndexSchema
by_email = record {
  name = codes "by-email";
  partition_key = codes "Email";
  sort_key = codes "Created";
  index_type = codes "GSI";
  projection_type = codes "ALL";
}

abbrev pub users : ModelMetadata
users = record {
  table_name = codes "users";
  primary_key = record { partition_key = codes "ID"; sort_key = codes "Created" };
  indexes = by_email ∷ [];
  attribute_metadata = attribute_of;
}

abbrev IsFound : AttributeMetadata → Type 0
IsFound a = (a.name ≢ []) × (attribute_of a.name ≡ some a)

-- One test of the table.
either :
    (t : Bool) (b a : AttributeMetadata) (rest : Option AttributeMetadata)
    → IsFound b
    → (rest ≡ some a → IsFound a)
    → (if t then some b else rest) ≡ some a
    → IsFound a
either true b a rest h k e = let same : b ≡ a = cc in subst IsFound same h
either false b a rest h k e = k e

attribute_of-IsFound : (f : Text) (a : AttributeMetadata) → attribute_of f ≡ some a → IsFound a
unfolding text_eq
attribute_of-IsFound f a =
    either _ (attribute "ID" "id") a _ (cc, refl)
      (either _ (attribute "Created" "created") a _ (cc, refl)
        (either _ (attribute "Email" "email") a _ (cc, refl)
          (either _ secret a none (cc, refl) (λ e. cc))))

pub users-IsLawful : IsLawful users
users-IsLawful = record { found_by_name = attribute_of-IsFound; named_indexes = (cc, tt) }

abbrev pub where_equal : String → String → Call
where_equal field value = where_call (codes field) (codes "=") (string_value (codes value))

abbrev pub user_query : List Call → Query
user_query cs = calls cs (new_query none (some users))

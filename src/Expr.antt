-- ===== src/Expr.antt =====
-- internal/expr: the attribute values of DynamoDB, the state of the expression builder, and the
-- actions on it. A method that mutates `*Builder` and may fail is an action: what was written
-- before an error stays written.
pub mod Reserved
pub mod Convert
pub mod Names
pub mod Placeholders
pub mod Conditions
pub mod Filters
pub mod Sets
pub mod Updates
pub mod Components
pub mod Soundness
pub mod Groups
mod Examples
use table_theory.Base.{ℕ, String, Bool, Option, none, List, [], Text, Assoc, Result, ok, err}
use table_theory.Validation
use table_theory.Validation.Value.{Value}

-- types.AttributeValue of the AWS SDK
mutual
  pub data AttributeValue : Type 0 where
    string_attr : Text → AttributeValue
    number_attr : Text → AttributeValue
    binary_attr : List ℕ → AttributeValue
    bool_attr : Bool → AttributeValue
    null_attr : AttributeValue
    list_attr : Attributes → AttributeValue
    map_attr : Members → AttributeValue
    string_set : List Text → AttributeValue
    number_set : List Text → AttributeValue
    binary_set : List (List ℕ) → AttributeValue

  pub data Attributes : Type 0 where
    no_more : Attributes
    also : AttributeValue → Attributes → Attributes

  pub data Members : Type 0 where
    closed : Members
    member : Text → AttributeValue → Members → Members

pub data Error : Type 0 where
  invalid : Validation.Error → Error
  wrapped : String → Error → Error
  message : String → Error
  invalid_operator : Error

-- interface ConverterLookup
pub record ConverterLookup : Type 0 where
  pub has_custom_converter : Value → Bool
  pub to_attribute_value : Value → Result Error AttributeValue

-- struct Builder
pub record Builder : Type 0 where
  pub converter : Option ConverterLookup
  pub update_expressions : Assoc (List Text)
  pub names : Assoc Text
  pub values : Assoc AttributeValue
  pub key_conditions : List Text
  pub filter_conditions : List Text
  pub conditions : List Text
  pub projections : List Text
  pub filter_operators : List Text
  pub condition_operators : List Text
  pub name_counter : ℕ
  pub value_counter : ℕ

-- NewBuilderWithConverter; NewBuilder passes no converter
unfoldable pub new_builder_with_converter : Option ConverterLookup → Builder
new_builder_with_converter converter = record {
  converter = converter;
  update_expressions = [];
  names = [];
  values = [];
  key_conditions = [];
  filter_conditions = [];
  conditions = [];
  projections = [];
  filter_operators = [];
  condition_operators = [];
  name_counter = 0;
  value_counter = 0;
}

unfoldable pub new_builder : Builder
unfolding new_builder_with_converter
new_builder = new_builder_with_converter none

abbrev pub Action : Type 0 → Type 0
Action A = Builder → Builder × Result Error A

abbrev pub continue :
    {A B : Type 0} → Builder → Result Error A → (A → Action B) → Builder × Result Error B
continue b (ok a) f = f a b
continue b (err e) f = (b, err e)

infixl 5 ◌>>=◌ ◌>>◌
abbrev pub ◌>>=◌ : {A B : Type 0} → Action A → (A → Action B) → Action B
◌>>=◌ m f b = let (b', r) = m b in continue b' r f

abbrev pub ◌>>◌ : {A B : Type 0} → Action A → Action B → Action B
m >> k = m >>= λ _. k

abbrev pub pure : {A : Type 0} → A → Action A
pure a b = (b, ok a)

abbrev pub raise : {A : Type 0} → Error → Action A
raise e b = (b, err e)

abbrev pub lift : {A : Type 0} → Result Error A → Action A
lift r b = (b, r)

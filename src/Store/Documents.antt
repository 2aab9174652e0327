-- ===== src/Store/Documents.antt =====
-- The JSON documents of the store. A text column that holds JSON is the document itself, with its
-- keys in the order of `sort_keys`; a member of an enumeration stands for its value.
use tiktok_techjam_recsys_ag.Prelude.{
  ℕ, Bool, Option, none, some, List, String, ◌==◌, Eq, if◌then◌else◌, String-discrete,
  Bool-discrete, List-discrete, string_eq,
}
use tiktok_techjam_recsys_ag.Prelude.Int.{ℤ, ℤ-discrete, pos}
use tiktok_techjam_recsys_ag.Prelude.Decimal.{Float, Float-discrete}
use tiktok_techjam_recsys_ag.Contracts.{
  RunState, ExperimentState, Operator, AttemptStatus, RunState-discrete, ExperimentState-discrete,
  Operator-discrete, AttemptStatus-discrete,
}

mutual
  pub data Json : Type 0 where
    null : Json
    flag : Bool → Json
    int : ℤ → Json
    real : Float → Json
    text : String → Json
    texts : List String → Json
    run_state : RunState → Json
    state : ExperimentState → Json
    operator : Operator → Json
    status : AttemptStatus → Json
    object : Fields → Json

  pub data Fields : Type 0 where
    end : Fields
    field : String → Json → Fields → Fields

unfoldable pub Json-discrete : Discrete Json
Json-discrete = hlevel (
  ℤ-discrete,
  Float-discrete,
  String-discrete,
  Bool-discrete,
  List-discrete String-discrete,
  RunState-discrete,
  ExperimentState-discrete,
  Operator-discrete,
  AttemptStatus-discrete,
)

unfoldable pub Fields-discrete : Discrete Fields
Fields-discrete = hlevel (
  ℤ-discrete,
  Float-discrete,
  String-discrete,
  Bool-discrete,
  List-discrete String-discrete,
  RunState-discrete,
  ExperimentState-discrete,
  Operator-discrete,
  AttemptStatus-discrete,
)

instance abbrev pub json_eq : Eq Json
json_eq = record { dec = Json-discrete }

instance abbrev pub fields_eq : Eq Fields
fields_eq = record { dec = Fields-discrete }

-- d.get(key)
unfoldable pub look : String → Fields → Option Json
look key end = none
look key (field k v rest) = if k == key then some v else look key rest

-- d[key] = value
unfoldable pub assign : String → Json → Fields → Fields
assign key value end = field key value end
assign key value (field k v rest) =
    if k == key then field k value rest else field k v (assign key value rest)

-- {**d, **e}
unfoldable pub merge : Fields → Fields → Fields
unfolding assign
merge d end = d
merge d (field k v rest) = merge (assign k v d) rest

-- A column that may be NULL, as a document.
abbrev pub text_or_null : Option String → Json
text_or_null none = null
text_or_null (some s) = text s

abbrev pub int_or_null : Option ℤ → Json
int_or_null none = null
int_or_null (some n) = int n

abbrev pub nat : ℕ → Json
nat n = int (pos n)

-- ===== src/Trace/Json.antt =====
-- The JSON values of app/agent/trace.py: what a step's `input` and `output` hold, `json.dumps` and `_jsonable`.
-- Texts are ASCII. A float is the text that `json.dumps` writes for it. A value that JSON has no form for
-- (a date, a Decimal) is its `str()`.
use paper_trading_agent.Base.{
  ℕ, zero, suc, ◌+◌, ◌/◌, ◌%◌, ◌≡◌, refl, Bool, true, false, Option, none, some, [], ◌∷◌, ◌++◌,
  if◌then◌else◌, ltb, ◌==◌, ℤ, pos, negsuc, Text, codes, same_text,
}

mutual
  pub data Value : Type 0 where
    null : Value
    flag : Bool → Value
    int : ℤ → Value
    float : Text → Value
    text : Text → Value
    other : Text → Value
    arr : Items → Value
    obj : Fields → Value

  pub data Items : Type 0 where
    nil : Items
    cons : Value → Items → Items

  -- A dict, in the order of insertion.
  pub data Fields : Type 0 where
    end : Fields
    field : Text → Value → Fields → Fields

-- `d.get(key)`
abbrev pub get : Text → Fields → Option Value
get key end = none
get key (field k v fs) = if same_text key k then some v else get key fs

-- The decimal digits of a number, on fuel.
abbrev digits_from : ℕ → ℕ → Text → Text
digits_from zero n later = later
digits_from (suc fuel) n later =
    let here = (48 + n % 10) ∷ later in
    let rest = digits_from fuel (n / 10) here in if ltb n 10 then here else rest

abbrev pub digits : ℕ → Text
digits n = digits_from (suc n) n []

abbrev hex_digit : ℕ → ℕ
hex_digit n = if ltb n 10 then 48 + n else 87 + n

-- One character inside quotes, by py_encode_basestring_ascii.
abbrev escaped : ℕ → Text
escaped c =
    if c == 34
    then codes "\\\""
    else if c == 92
    then codes "\\\\"
    else if c == 10
    then codes "\\n"
    else if c == 13
    then codes "\\r"
    else if c == 9
    then codes "\\t"
    else if c == 12
    then codes "\\f"
    else if c == 8
    then codes "\\b"
    else if ltb c 32
    then codes "\\u00" ++ (hex_digit (c / 16) ∷ hex_digit (c % 16) ∷ [])
    else c ∷ []

abbrev escaped_all : Text → Text
escaped_all [] = []
escaped_all (c ∷ cs) = escaped c ++ escaped_all cs

abbrev quoted : Text → Text
quoted s = 34 ∷ escaped_all s ++ 34 ∷ []

-- json.dumps(value, default=str), with its default separators.
unfoldable mutual
  pub dumps : Value → Text
  dumps null = codes "null"
  dumps (flag true) = codes "true"
  dumps (flag false) = codes "false"
  dumps (int (pos n)) = digits n
  dumps (int (negsuc n)) = 45 ∷ digits (suc n)
  dumps (float s) = s
  dumps (text s) = quoted s
  dumps (other s) = quoted s
  dumps (arr nil) = codes "[]"
  dumps (arr (cons x xs)) = codes "[" ++ dumps x ++ dumps_items xs ++ codes "]"
  dumps (obj end) = codes "{}"
  dumps (obj (field k v fs)) =
      codes "{" ++ quoted k ++ codes ": " ++ dumps v ++ dumps_fields fs ++ codes "}"

  pub dumps_items : Items → Text
  dumps_items nil = []
  dumps_items (cons x xs) = codes ", " ++ dumps x ++ dumps_items xs

  pub dumps_fields : Fields → Text
  dumps_fields end = []
  dumps_fields (field k v fs) = codes ", " ++ quoted k ++ codes ": " ++ dumps v ++ dumps_fields fs

-- _jsonable: what is read back after dumping.
unfoldable mutual
  pub jsonable : Value → Value
  jsonable null = null
  jsonable (flag b) = flag b
  jsonable (int n) = int n
  jsonable (float s) = float s
  jsonable (text s) = text s
  jsonable (other s) = text s
  jsonable (arr xs) = arr (jsonable_items xs)
  jsonable (obj fs) = obj (jsonable_fields fs)

  pub jsonable_items : Items → Items
  jsonable_items nil = nil
  jsonable_items (cons x xs) = cons (jsonable x) (jsonable_items xs)

  pub jsonable_fields : Fields → Fields
  jsonable_fields end = end
  jsonable_fields (field k v fs) = field k (jsonable v) (jsonable_fields fs)

-- Dumping what was read back gives the same text again.
mutual
  unfolding dumps jsonable

  dumps_same : (j : Value) → dumps (jsonable j) ≡ dumps j
  dumps_same null = refl
  dumps_same (flag b) = refl
  dumps_same (int n) = refl
  dumps_same (float s) = refl
  dumps_same (text s) = refl
  dumps_same (other s) = refl
  dumps_same (arr nil) = refl
  dumps_same (arr (cons x xs)) = rw (dumps_same x) (rw (dumps_items_same xs) refl)
  dumps_same (obj end) = refl
  dumps_same (obj (field k v fs)) = rw (dumps_same v) (rw (dumps_fields_same fs) refl)

  dumps_items_same : (xs : Items) → dumps_items (jsonable_items xs) ≡ dumps_items xs
  dumps_items_same nil = refl
  dumps_items_same (cons x xs) = rw (dumps_same x) (rw (dumps_items_same xs) refl)

  dumps_fields_same : (fs : Fields) → dumps_fields (jsonable_fields fs) ≡ dumps_fields fs
  dumps_fields_same end = refl
  dumps_fields_same (field k v fs) = rw (dumps_same v) (rw (dumps_fields_same fs) refl)

pub dumps-jsonable : (j : Value) → dumps (jsonable j) ≡ dumps j
dumps-jsonable j = dumps_same j

-- ===== src/Shaping/Declarations.antt =====
-- src/source/shaping/shape_policy.mts: the values of a policy file, and the checks that its declarations
-- share. A number that is no safe integer at least zero is other.
use rehearsal_db.Common.{
  Number, nat, max_safe_integer, ℕ, suc, Bool, true, false, not, ◌&&◌, ◌||◌, List, [], ◌∷◌, Result,
  ok, err, ◌>>=◌, ◌>>◌, guard, Text, codes, text_eq, length, ltb, leb, ◌==◌, any, all, is_digit,
}
use rehearsal_db.Shaping.Policy.{ShapeEndpoint}

pub data PolicyError : Type 0 where
  not_an_object unknown_field not_an_identifier out_of_bounds not_a_flag not_a_list : PolicyError
  bad_columns duplicated unsupported_version bad_seed bad_receipt no_root bad_endpoints :
      PolicyError

-- A value of unknown type; an array and an object hold values again.
mutual
  pub data Unknown : Type 0 where
    undefined null other_value : Unknown
    boolean : Bool → Unknown
    number : Number → Unknown
    string : Text → Unknown
    array : Items → Unknown
    object : Members → Unknown

  pub data Items : Type 0 where
    end : Items
    item : Unknown → Items → Items

  pub data Members : Type 0 where
    empty : Members
    member : Text → Unknown → Members → Members

-- `value[name]`
unfoldable pub field : Text → Members → Unknown
field name empty = undefined
field name (member n v ms) = elim (text_eq n name) [ true ↦ v | false ↦ field name ms ]

unfoldable pub names_of : Members → List Text
names_of empty = []
names_of (member n v ms) = n ∷ names_of ms

unfoldable pub size_of : Items → ℕ
size_of end = 0
size_of (item v vs) = suc (size_of vs)

-- `value ?? otherwise`
abbrev pub or_else : Unknown → Unknown → Unknown
or_else undefined d = d
or_else null d = d
or_else v d = v

abbrev pub plain_object : Unknown → Result PolicyError Members
plain_object (object ms) = ok ms
plain_object _ = err not_an_object

-- `keys`
abbrev pub known_fields : List Text → Members → Result PolicyError (Unit {0})
known_fields allowed ms = guard (all (λ n. any (text_eq n) allowed) (names_of ms)) unknown_field

abbrev pub is_lower : ℕ → Bool
is_lower c = leb b'a' c && leb c b'z'

-- `/^[a-z][a-z0-9_]{0,62}$/u`
abbrev pub is_identifier : Text → Bool
is_identifier [] = false
is_identifier (c ∷ s) =
    is_lower c && (all (λ d. is_lower d || (is_digit d || d == b'_')) s && leb (length s) 62)

abbrev pub identifier : Unknown → Result PolicyError Text
identifier (string s) = do guard (is_identifier s) not_an_identifier; ok s
identifier _ = err not_an_identifier

abbrev pub in_bounds : Number → ℕ → ℕ → Result PolicyError ℕ
in_bounds (nat n) low high = do
  guard (leb n max_safe_integer && (leb low n && leb n high)) out_of_bounds
  ok n
in_bounds _ low high = err out_of_bounds

abbrev pub integer : Unknown → ℕ → ℕ → Result PolicyError ℕ
integer (number n) low high = in_bounds n low high
integer _ low high = err out_of_bounds

abbrev pub flag : Unknown → Result PolicyError Bool
flag (boolean b) = ok b
flag _ = err not_a_flag

abbrev pub items : Unknown → ℕ → Result PolicyError Items
items (array vs) maximum = do guard (leb (size_of vs) maximum) not_a_list; ok vs
items _ maximum = err not_a_list

-- `map`, with a callback that may throw.
unfoldable pub each {ℓ} :
    {A : Type ℓ} → (Unknown → Result PolicyError A) → Items → Result PolicyError (List A)
each f end = ok []
each f (item v vs) = do a ← f v; rest ← each f vs; ok (a ∷ rest)

-- `new Set(values).size === values.length`
unfoldable pub are_distinct : List Text → Bool
are_distinct [] = true
are_distinct (x ∷ xs) = not (any (text_eq x) xs) && are_distinct xs

unfoldable pub columns : Unknown → Result PolicyError (List Text)
unfolding each are_distinct is_digit size_of
columns v = do
  vs ← items v 8
  names ← each identifier vs
  guard (ltb 0 (length names) && are_distinct names) bad_columns
  ok names

unfoldable pub endpoint : Unknown → Result PolicyError ShapeEndpoint
unfolding columns field names_of is_digit text_eq
endpoint v = do
  ms ← plain_object v
  known_fields (codes "schema" ∷ codes "table" ∷ codes "columns" ∷ []) ms
  schema ← identifier (or_else (field (codes "schema") ms) (string (codes "public")))
  table ← identifier (field (codes "table") ms)
  names ← columns (field (codes "columns") ms)
  ok (record { schema = schema; table = table; columns = names })

abbrev pub distinct : List Text → Result PolicyError (Unit {0})
distinct values = guard (are_distinct values) duplicated

-- ===== src/Parser/Json.antt =====
-- The values that encoding/json decodes into interface{}. A number is its integer part, which is
-- all that the code takes of it (int(v)); an object has one member for each key.
use langley.Prelude.{ℕ, Bool, ◌≡◌, Option, none, some, Bytes, beq, beq_refl, if◌then◌else◌, arith}

pub data ℤ : Type 0 where
  pos : ℕ → ℤ
  negsuc : ℕ → ℤ

mutual
  pub data Json : Type 0 where
    null : Json
    boolean : Bool → Json
    number : ℤ → Json
    text : Bytes → Json
    array : Elements → Json
    object : Members → Json

  pub data Elements : Type 0 where
    no_elements : Elements
    element : Json → Elements → Elements

  pub data Members : Type 0 where
    no_members : Members
    member : Bytes → Json → Members → Members

-- m[key]
unfoldable pub field : Bytes → Members → Option Json
field key no_members = none
field key (member k v m) = if beq k key then some v else field key m

-- m[key] = v
unfoldable pub set_field : Bytes → Json → Members → Members
set_field key v no_members = member key v no_members
set_field key v (member k w m) =
    if beq k key then member key v m else member k w (set_field key v m)

-- the type assertions v.(map[string]interface{}), v.(string) and v.(float64)
abbrev pub as_object : Option Json → Option Members
as_object (some (object m)) = some m
as_object o = none

abbrev pub as_text : Option Json → Option Bytes
as_text (some (text s)) = some s
as_text o = none

abbrev pub as_number : Option Json → Option ℤ
as_number (some (number n)) = some n
as_number o = none

pub field-set_field :
    (key : Bytes) (v : Json) (m : Members) → field key (set_field key v m) ≡ some v
unfolding field set_field
field-set_field key v no_members = ground (arith, beq_refl key)
field-set_field key v (member k w m) = ground (arith, field-set_field key v m, beq_refl key)

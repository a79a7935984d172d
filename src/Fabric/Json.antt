-- ===== src/Fabric/Json.antt =====
-- `serde_json::Value`: a number is an unsigned integer, or another number by its text. An object is
-- the list of its fields in key order, as its `BTreeMap` holds them.
use quipnet.Base.{
  ℕ, Bool, true, false, Option, none, some, Bytes, ◌==◌, bytes_eq, bytes_lt, if◌then◌else◌, ◌≡◌,
  refl, arith,
}

mutual
  pub data Value : Type 0 where
    null : Value
    bool : Bool → Value
    unsigned : ℕ → Value
    other_number : Bytes → Value
    string : Bytes → Value
    array : Items → Value
    object : Fields → Value

  pub data Items : Type 0 where
    nil : Items
    cons : Value → Items → Items

  pub data Fields : Type 0 where
    end : Fields
    field : Bytes → Value → Fields → Fields

unfoldable pub get_field : Bytes → Fields → Option Value
get_field k end = none
get_field k (field j v fs) = if j == k then some v else get_field k fs

unfoldable pub insert_field : Bytes → Value → Fields → Fields
insert_field k v end = field k v end
insert_field k v (field j w fs) =
    if j == k
    then field k v fs
    else if bytes_lt k j
    then field k v (field j w fs)
    else field j w (insert_field k v fs)

abbrev pub as_u64 : Value → Option ℕ
as_u64 (unsigned n) = some n
as_u64 _ = none

-- Every key of an object passes a test.
abbrev pub all_keys : (Bytes → Bool) → Fields → Bool
all_keys p end = true
all_keys p (field j v fs) = if p j then all_keys p fs else false

pub get_field-insert_field :
    (k j : Bytes) (v : Value) (fs : Fields)
    → get_field j (insert_field k v fs) ≡ (if k == j then some v else get_field j fs)
unfolding get_field insert_field
get_field-insert_field k j v end = refl
get_field-insert_field k j v (field i w fs) = ground (arith, get_field-insert_field k j v fs)

pub all_keys-insert_field :
    (p : Bytes → Bool) (k : Bytes) (v : Value) (fs : Fields)
    → p k ≡ true
    → all_keys p fs ≡ true
    → all_keys p (insert_field k v fs) ≡ true
unfolding insert_field
all_keys-insert_field p k v end h t = ground arith
all_keys-insert_field p k v (field i w fs) h t = ground (arith, all_keys-insert_field p k v fs h)

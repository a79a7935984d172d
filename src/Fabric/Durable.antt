-- ===== src/Fabric/Durable.antt =====
-- The durable state as a JSON value in crates/fabric/src/lib.rs: its validation, and the migration
-- from schema 1.
use quipnet.Base.{
  ℕ, zero, suc, Bool, ◌&&◌, ◌||◌, Option, none, some, List, [], ◌∷◌, ◌++◌, Bytes, text, decimal,
  length, ◌==◌, ◌!=◌, bytes_eq, nat_eq, if◌then◌else◌, ltb, leb, Result, ok, err, ◌>>=◌, ◌>>◌,
  reject_if, ok_or,
}
use quipnet.Base.Sets.{contains}
use quipnet.PeerText.{strip_prefix, str_contains}
use quipnet.Fabric.State.{
  DaemonStateError, invalid_session, missing_schema_version, migration_required,
  unsupported_schema_version, unsupported_durable_field, daemon_state_schema_version,
  min_migratable_schema_version,
}
use quipnet.Fabric.Json.{
  Value, null, bool, unsigned, other_number, string, array, object, Items, nil, cons, Fields, end,
  field, get_field, insert_field, as_u64,
}

abbrev pub allowed_fields : List Bytes
allowed_fields =
    text "schema_version"
    ∷ text "network"
    ∷ text "local_peer_id"
    ∷ text "roles"
    ∷ text "membership"
    ∷ text "capability_grants"
    ∷ text "revocations"
    ∷ text "denied_peers"
    ∷ text "bootstrap"
    ∷ text "relay_map"
    ∷ text "peers"
    ∷ text "netcheck"
    ∷ text "queue_policies"
    ∷ text "path_candidates"
    ∷ []

-- `allowed_fields.contains`, shut: the names are long.
unfoldable pub is_allowed : Bytes → Bool
is_allowed key = contains key allowed_fields

abbrev as_object : Value → Option Fields
as_object (object fs) = some fs
as_object _ = none

unfoldable pub durable_state_schema_version : Value → Option ℕ
durable_state_schema_version value = elim (as_object value) [
  | none ↦ none
  | some fs ↦ elim (get_field (text "schema_version") fs) [ none ↦ none | some v ↦ as_u64 v ]
]

-- The tests on the version.
unfoldable pub check_version : ℕ → Result DaemonStateError (Unit {0})
check_version n = do
  reject_if (ltb n daemon_state_schema_version && leb min_migratable_schema_version n)
      (migration_required n daemon_state_schema_version)
  reject_if (n != daemon_state_schema_version)
      (unsupported_schema_version n daemon_state_schema_version)

-- The loop over the keys.
unfoldable pub check_fields : Fields → Result DaemonStateError (Unit {0})
check_fields end = ok tt
check_fields (field key _ fs) =
    let rest = check_fields fs in
    if is_allowed key then rest else err (unsupported_durable_field key)

unfoldable pub validate_durable_state_value : Value → Result DaemonStateError (Unit {0})
validate_durable_state_value value = do
  fs ← ok_or (as_object value) (invalid_session (text "durable state must be a JSON object"))
  v ← ok_or (get_field (text "schema_version") fs) missing_schema_version
  n ←
      ok_or (as_u64 v)
        (invalid_session (text "durable state schema version must be an unsigned integer"))
  check_version n
  check_fields fs

-- `str::replace`; as fuel the length of the text is enough, since each step takes a byte.
unfoldable pub replace_from : ℕ → Bytes → Bytes → Bytes → Bytes
replace_from zero from to s = s
replace_from (suc f) from to [] = []
replace_from (suc f) from to (c ∷ s) = elim (strip_prefix from (c ∷ s)) [
  | none ↦ c ∷ replace_from f from to s
  | some rest ↦ to ++ replace_from f from to rest
]

unfoldable pub replace : Bytes → Bytes → Bytes → Bytes
unfolding replace_from
replace from to s = replace_from (length s) from to s

-- `if text.contains(from) { *text = text.replace(from, to); }`.
unfoldable pub replace_if : Bytes → Bytes → Bytes → Bytes
replace_if from to s = if str_contains from s then replace from to s else s

-- The arm of a text: the texts that it looks for are the ones that it puts in.
unfoldable pub rewrite_text : Bytes → Bytes
unfolding replace_if
rewrite_text s =
    replace_if (text "quip:") (text "quip:") (replace_if (text "/quip/") (text "/quip/") s)

-- Whether the arm reports the path as migrated.
abbrev is_rewritten : Bytes → Bool
is_rewritten s =
    str_contains (text "/quip/") s
    || str_contains (text "quip:")
        (if str_contains (text "/quip/") s then replace (text "/quip/") (text "/quip/") s else s)

abbrev element_path : Bytes → ℕ → Bytes
element_path path index = path ++ (text "[" ++ (decimal index ++ text "]"))

abbrev field_path : Bytes → Bytes → Bytes
field_path path key = path ++ (text "." ++ key)

-- `rewrite_legacy_protocols`: the value after it, and the paths that it reports.
unfoldable mutual
  pub rewrite_legacy_protocols : Value → Value
  rewrite_legacy_protocols null = null
  rewrite_legacy_protocols (bool b) = bool b
  rewrite_legacy_protocols (unsigned n) = unsigned n
  rewrite_legacy_protocols (other_number n) = other_number n
  rewrite_legacy_protocols (string s) = string (rewrite_text s)
  rewrite_legacy_protocols (array xs) = array (rewrite_items xs)
  rewrite_legacy_protocols (object fs) = object (rewrite_fields fs)

  pub rewrite_items : Items → Items
  rewrite_items nil = nil
  rewrite_items (cons v xs) = cons (rewrite_legacy_protocols v) (rewrite_items xs)

  pub rewrite_fields : Fields → Fields
  rewrite_fields end = end
  rewrite_fields (field k v fs) = field k (rewrite_legacy_protocols v) (rewrite_fields fs)

unfoldable mutual
  pub rewritten_paths : Bytes → Value → List Bytes
  rewritten_paths path null = []
  rewritten_paths path (bool b) = []
  rewritten_paths path (unsigned n) = []
  rewritten_paths path (other_number n) = []
  rewritten_paths path (string s) = if is_rewritten s then path ∷ [] else []
  rewritten_paths path (array xs) = item_paths path 0 xs
  rewritten_paths path (object fs) = field_paths path fs

  pub item_paths : Bytes → ℕ → Items → List Bytes
  item_paths path index nil = []
  item_paths path index (cons v xs) =
      rewritten_paths (element_path path index) v ++ item_paths path (suc index) xs

  pub field_paths : Bytes → Fields → List Bytes
  field_paths path end = []
  field_paths path (field k v fs) = rewritten_paths (field_path path k) v ++ field_paths path fs

abbrev set_version : Value → Value
set_version (object fs) =
    object (insert_field (text "schema_version") (unsigned daemon_state_schema_version) fs)
set_version v = v

-- `migrate_durable_state_value_with_report`: the value and the fields of the report.
unfoldable pub migrate_durable_state_value : Value → Result DaemonStateError (Value × List Bytes)
migrate_durable_state_value value = elim (durable_state_schema_version value) [
  | none ↦ err missing_schema_version
  | some n ↦
      if n == daemon_state_schema_version
      then ok (value, [])
      else if ltb n min_migratable_schema_version || ltb daemon_state_schema_version n
      then err (unsupported_schema_version n daemon_state_schema_version)
      else if n == 1
      then ok (
        set_version (rewrite_legacy_protocols value),
        rewritten_paths (text "$") value ++ text "$.schema_version" ∷ [],
      )
      else err (unsupported_schema_version n daemon_state_schema_version)
]

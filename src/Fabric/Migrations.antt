-- ===== src/Fabric/Migrations.antt =====
-- The migration of a durable state in crates/fabric/src/lib.rs, and the validation after it.
use quipnet.Base.{
  ℕ, zero, suc, true, some, [], ◌∷◌, ◌++◌, Bytes, text, ◌≡◌, ◌≢◌, refl, arith, ◌==◌, bytes_eq,
  nat_eq, inl, inr, Option-cases, ap, sym, ◌∙◌, ok, err, ◌>>=◌, length, if◌then◌else◌,
}
use quipnet.PeerText.{strip_prefix}
use quipnet.Fabric.State.{migration_required, daemon_state_schema_version}
use quipnet.Fabric.Json.{
  Value, null, bool, unsigned, other_number, string, array, object, Items, nil, cons, Fields, end,
  field, get_field, insert_field, all_keys, get_field-insert_field, all_keys-insert_field,
}
use quipnet.Fabric.Durable.{
  is_allowed, durable_state_schema_version, check_version, check_fields,
  validate_durable_state_value, replace_from, replace, replace_if, rewrite_text,
  rewrite_legacy_protocols, rewrite_items, rewrite_fields, rewritten_paths,
  migrate_durable_state_value,
}

strip_prefix_sound : (p s rest : Bytes) → strip_prefix p s ≡ some rest → s ≡ p ++ rest
unfolding strip_prefix
strip_prefix_sound [] s rest h = ground arith
strip_prefix_sound (x ∷ p) [] rest h = cc
strip_prefix_sound (x ∷ p) (y ∷ s) rest h = ground (arith, strip_prefix_sound p s rest)

-- To replace a text by itself changes nothing.
replace_from_self : (n : ℕ) (p s : Bytes) → replace_from n p p s ≡ s
unfolding replace_from
replace_from_self zero p s = refl
replace_from_self (suc n) p [] = refl
replace_from_self (suc n) p (x ∷ s) = elim (Option-cases (strip_prefix p (x ∷ s))) [
  | inl e ↦ rw (e, replace_from) (ap (◌∷◌ x) (replace_from_self n p s))
  | inr (rest, e) ↦
      rw (e, replace_from)
        (ap (◌++◌ p) (replace_from_self n p rest) ∙ sym (strip_prefix_sound p (x ∷ s) rest e))
]

replace_if_self : (p s : Bytes) → replace_if p p s ≡ s
unfolding replace_if replace
replace_if_self p s = ground (arith, replace_from_self (length s) p s)

rewrite_text_lem : (s : Bytes) → rewrite_text s ≡ s
unfolding rewrite_text
rewrite_text_lem s =
    replace_if_self (text "quip:") (replace_if (text "/quip/") (text "/quip/") s)
    ∙ replace_if_self (text "/quip/") s

mutual
  unfolding rewrite_legacy_protocols

  rewrite_value_same : (v : Value) → rewrite_legacy_protocols v ≡ v
  rewrite_value_same null = refl
  rewrite_value_same (bool b) = refl
  rewrite_value_same (unsigned n) = refl
  rewrite_value_same (other_number n) = refl
  rewrite_value_same (string s) = ap string (rewrite_text_lem s)
  rewrite_value_same (array xs) = ap array (rewrite_items_same xs)
  rewrite_value_same (object fs) = ap object (rewrite_fields_same fs)

  rewrite_items_same : (xs : Items) → rewrite_items xs ≡ xs
  rewrite_items_same nil = refl
  rewrite_items_same (cons v xs) = cc (rewrite_value_same v, rewrite_items_same xs)

  rewrite_fields_same : (fs : Fields) → rewrite_fields fs ≡ fs
  rewrite_fields_same end = refl
  rewrite_fields_same (field k v fs) = cc (rewrite_value_same v, rewrite_fields_same fs)

-- The rewriting of legacy protocol names leaves every value as it is: the names that it puts in are the
-- ones that it looks for.
pub rewrite_legacy_protocols_same : (v : Value) → rewrite_legacy_protocols v ≡ v
rewrite_legacy_protocols_same v = rewrite_value_same v

check_fields_ok : (fs : Fields) → all_keys is_allowed fs ≡ true → check_fields fs ≡ ok tt
unfolding check_fields
check_fields_ok end h = refl
check_fields_ok (field k v fs) h = ground (arith, check_fields_ok fs)

schema_key_allowed : is_allowed (text "schema_version") ≡ true
unfolding is_allowed
schema_key_allowed = ground arith

version_is_ok : check_version daemon_state_schema_version ≡ ok tt
unfolding check_version
version_is_ok = ground arith

abbrev pub key : Bytes
key = text "schema_version"

-- The fields of an object of schema 1 after its migration.
abbrev pub migrated : Fields → Fields
migrated fs = insert_field key (unsigned 2) fs

validate-current :
    (fs : Fields)
    → get_field key fs ≡ some (unsigned 2)
    → all_keys is_allowed fs ≡ true
    → validate_durable_state_value (object fs) ≡ ok tt
unfolding validate_durable_state_value
validate-current fs g k =
    rw (g, validate_durable_state_value) (rw (version_is_ok, ◌>>=◌) (check_fields_ok fs k))

get_field-migrated :
    (k : Bytes) (fs : Fields)
    → get_field k (migrated fs) ≡ (if key == k then some (unsigned 2) else get_field k fs)
get_field-migrated k fs = get_field-insert_field key k (unsigned 2) fs

version-of :
    (fs : Fields) (n : ℕ)
    → get_field key fs ≡ some (unsigned n)
    → durable_state_schema_version (object fs) ≡ some n
unfolding durable_state_schema_version
version-of fs n g = rw (g, durable_state_schema_version) refl

migrate-first :
    (fs : Fields)
    → get_field key fs ≡ some (unsigned 1)
    → migrate_durable_state_value (object fs)
      ≡ ok (
        object (migrated fs),
        rewritten_paths (text "$") (object fs) ++ text "$.schema_version" ∷ [],
      )
unfolding migrate_durable_state_value
migrate-first fs g =
    rw (version-of fs 1 g, migrate_durable_state_value)
      (rw (rewrite_legacy_protocols_same (object fs)) (ground arith))

-- An object of schema 1 whose fields the validation knows is refused by it as one to migrate. Its
-- migration succeeds, and gives a value that the validation accepts and that a second migration
-- returns as it is; every field but the version has the value that it had.
pub validate-migrate :
    (fs : Fields)
    → get_field key fs ≡ some (unsigned 1)
    → all_keys is_allowed fs ≡ true
    → (validate_durable_state_value (object fs) ≡ err (migration_required 1 2))
      × (migrate_durable_state_value (object fs)
          ≡ ok (
            object (migrated fs),
            rewritten_paths (text "$") (object fs) ++ text "$.schema_version" ∷ [],
          ))
      × (validate_durable_state_value (object (migrated fs)) ≡ ok tt)
      × (migrate_durable_state_value (object (migrated fs)) ≡ ok (object (migrated fs), []))
      × ((k : Bytes) → k ≢ key → get_field k (migrated fs) ≡ get_field k fs)
validate-migrate fs g k = (
  refused fs g,
  migrate-first fs g,
  validate-current (migrated fs) (has_version fs)
      (all_keys-insert_field is_allowed key (unsigned 2) fs schema_key_allowed k),
  settled (migrated fs) (has_version fs),
  λ j n. get_field-migrated j fs ∙ ground arith,
)
  where
    has_version : (fs : Fields) → get_field key (migrated fs) ≡ some (unsigned 2)
    has_version fs = get_field-migrated key fs ∙ ground arith

    refused :
        (fs : Fields)
        → get_field key fs ≡ some (unsigned 1)
        → validate_durable_state_value (object fs) ≡ err (migration_required 1 2)
    refused fs g = unfold validate_durable_state_value check_version in ground arith

    settled :
        (fs : Fields)
        → get_field key fs ≡ some (unsigned 2)
        → migrate_durable_state_value (object fs) ≡ ok (object fs, [])
    settled fs g = unfold migrate_durable_state_value durable_state_schema_version in ground arith

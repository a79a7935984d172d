-- ===== src/Fabric/Inspections.antt =====
-- The state file as it is saved, loaded and inspected, in crates/fabric/src/lib.rs.
use quipnet.Base.{
  true, false, none, some, [], Bytes, ◌≡◌, ◌≢◌, refl, arith, bytes_eq, inl, inr, Option-cases,
  Result-cases, ok, err,
}
use quipnet.Base.Maps.{get, insert, get-insert}
use quipnet.Crypto.{Primitives}
use quipnet.Fabric.State.{
  DaemonState, DaemonStateError, io, serialization, daemon_state_schema_version,
}
use quipnet.Fabric.Durable.{validate_durable_state_value}
use quipnet.Fabric.Files.{
  Disk, Serde, IsSerde, load, save, inspect_value, inspect_durable_state_file,
  durable_state_summary, durable_state_violations_from_error,
}

pub get_inserted :
    (path bytes : Bytes) (disk : Disk) → get path (insert path bytes disk) ≡ some bytes
get_inserted path bytes disk = ground (arith, get-insert path path bytes disk)

pub get_other :
    (path other bytes : Bytes) (disk : Disk)
    → other ≢ path
    → get other (insert path bytes disk) ≡ get other disk
get_other path other bytes disk n = ground (arith, get-insert path other bytes disk)

module _ (c : Primitives) {F : Type 0} (d : Serde F) where
  -- What loading the file answers and what the inspection reports, together.
  pub data Inspected (disk : Disk) (path : Bytes) : Type 0 where
    loads :
        (s : DaemonState F)
        → load c d disk path ≡ ok (record s { active_sessions = [] })
        → (inspect_durable_state_file c d disk path).valid ≡ true
        → (inspect_durable_state_file c d disk path).summary ≡ some (durable_state_summary s)
        → (inspect_durable_state_file c d disk path).violations ≡ []
        → Inspected disk path
    fails :
        (e : DaemonStateError)
        → load c d disk path ≡ err e
        → (inspect_durable_state_file c d disk path).valid ≡ false
        → (inspect_durable_state_file c d disk path).summary ≡ none
        → (inspect_durable_state_file c d disk path).violations ≢ []
        → Inspected disk path

  -- The inspection of a state file reports it as valid exactly when loading it succeeds, and then
  -- summarises the state that is loaded and lists no violation; otherwise it lists one and no summary.
  pub inspect_durable_state_file-load : (disk : Disk) (path : Bytes) → Inspected disk path
  unfolding load inspect_durable_state_file inspect_value durable_state_violations_from_error
  inspect_durable_state_file-load disk path = elim (Option-cases (get path disk)) [
    | inl g ↦
        fails (io []) (rw (g, load) refl) (rw (g, inspect_durable_state_file) refl)
          (rw (g, inspect_durable_state_file) refl) (rw (g, inspect_durable_state_file) (λ n. cc))
    | inr (bytes, g) ↦ elim (Option-cases (d.from_slice bytes)) [
      | inl p ↦
          fails (serialization []) (ground (arith, g, p)) (ground (arith, g, p))
            (ground (arith, g, p)) (ground (arith, g, p))
      | inr (value, p) ↦ elim (Result-cases (validate_durable_state_value value)) [
        | inr (e, v) ↦
            fails e (ground (arith, g, p, v)) (ground (arith, g, p, v)) (ground (arith, g, p, v))
              (ground (arith, g, p, v))
        | inl (t, v) ↦ elim (Option-cases (d.from_value value)) [
          | inl f ↦
              fails (serialization []) (ground (arith, g, p, v, f)) (ground (arith, g, p, v, f))
                (ground (arith, g, p, v, f)) (ground (arith, g, p, v, f))
          | inr (s, f) ↦
              loads s (ground (arith, g, p, v, f)) (ground (arith, g, p, v, f))
                (ground (arith, g, p, v, f)) (ground (arith, g, p, v, f))
        ]
      ]
    ]
  ]

  -- What is saved, loads as it was, but for the schema version, which is the current one, and the
  -- active sessions, of which there are none; files at other paths stay.
  pub load-save :
      IsSerde d
      → (s : DaemonState F) (disk : Disk) (path : Bytes)
      → (load c d (save c d s disk path) path
          ≡ ok (record s { schema_version = daemon_state_schema_version; active_sessions = [] }))
        × ((other : Bytes) → other ≢ path → get other (save c d s disk path) ≡ get other disk)
  unfolding load save
  load-save h s disk path =
      let t : DaemonState F = record s {
        schema_version = daemon_state_schema_version;
        active_sessions = [];
      } in
      let bytes = d.to_vec_pretty (d.to_value t) in
      (
        rw (get_inserted path bytes disk, load)
            (rw (h.slice_vec (d.to_value t), load)
              (rw (h.state_fields t refl, load) (rw (h.value_state t, load) refl))),
        λ other n. get_other path other bytes disk n,
      )

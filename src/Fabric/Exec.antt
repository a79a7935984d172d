-- ===== src/Fabric/Exec.antt =====
-- A method of `LocalControlPlane` in crates/fabric/src/lib.rs: it reads and writes the disk and the
-- state of the transport. What was done before an error stays done, so the world comes back beside it.
use quipnet.Base.{Result, ok, err}
use quipnet.Transport.{TransportError}
use quipnet.Fabric.State.{DaemonStateError, transport_failed}
use quipnet.Fabric.Files.{Disk}

pub record World (S : Type 0) : Type 0 where
  pub disk : Disk
  pub runtime : S

abbrev pub Exec : Type 0 → Type 0 → Type 0
Exec S A = World S → Result DaemonStateError A × World S

abbrev transport_result : {A : Type 0} → Result TransportError A → Result DaemonStateError A
transport_result (ok a) = ok a
transport_result (err e) = err (transport_failed e)

module _ {S A : Type 0} where
  abbrev pub pure : A → Exec S A
  pure a w = (ok a, w)

  abbrev pub fail : DaemonStateError → Exec S A
  fail e w = (err e, w)

  -- `result?`.
  abbrev pub lift : Result DaemonStateError A → Exec S A
  lift r w = (r, w)

  -- `transport.method()?`, for a method that only reads.
  abbrev pub reads : (S → Result TransportError A) → Exec S A
  reads f w = (transport_result (f w.runtime), w)

  -- `transport.method()?`, for a method that changes the transport.
  abbrev pub calls : (S → Result TransportError A × S) → Exec S A
  calls f w = let (r, s) = f w.runtime in (transport_result r, record w { runtime = s })

  -- The same without `?`: the caller looks at the result.
  abbrev pub tries : (S → Result TransportError A × S) → Exec S (Result TransportError A)
  tries f w = let (r, s) = f w.runtime in (ok r, record w { runtime = s })

infixl 5 ◌>>=◌ ◌>>◌
-- The rest of a method, if the call before it succeeded.
abbrev pub next :
    {S A B : Type 0}
    → (A → Exec S B)
    → Result DaemonStateError A × World S
    → Result DaemonStateError B × World S
next rest (ok a, w) = rest a w
next rest (err e, w) = (err e, w)

unfoldable pub ◌>>=◌ : {S A B : Type 0} → Exec S A → (A → Exec S B) → Exec S B
m >>= rest = λ w. next rest (m w)

abbrev pub ◌>>◌ : {S A B : Type 0} → Exec S A → Exec S B → Exec S B
first >> second = first >>= λ _. second

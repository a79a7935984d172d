-- ===== src/Relay/Http.antt =====
-- `control_response` of crates/relay/src/lib.rs: the relay's HTTP interface. Decoding a body by
-- serde_json is a parameter, with the error's text where it fails; a response body is the value
-- that the code hands to serde_json.
use quipnet.Base.{
  ℕ, ◌≡◌, refl, inl, inr, ◌&&◌, none, some, [], ◌∷◌, ◌++◌, Bytes, text, Result, ok, err, ◌==◌,
  if◌then◌else◌, bytes_eq, arith, Result-cases, Bool-cases, ◌≢◌,
}
use quipnet.Model.{ed25519, control}
use quipnet.PeerText.{starts_with}
use quipnet.Crypto.{Primitives, from_public_key}
use quipnet.Identity.{SessionCredentialUnsigned}
use quipnet.RelayWire.{
  invalid_request, RelayOpenRequest, RelaySessionAccepted, RelaySessionRejected,
}
use quipnet.Relay.Runtime.{RelayError, session_not_found, RelaySession, session, session_count}
use quipnet.Relay.Admission.{error_text}
use quipnet.Relay.Service.{
  RelayService, Outcome, returned, panicked, acceptance, open_relay_session, close_relay_session,
}
use quipnet.Relay.Cases.{open_relay_session_cases, close_relay_session_cases}
use quipnet.Relay.Paths.{Parse, parsed, refused, panics, parse_session_path, hex_session_id}

pub data Body : Type 0 where
  accepted_body : RelaySessionAccepted → Body
  rejected_body : RelaySessionRejected → Body
  health_body : ℕ → Body
  session_body : RelaySession → Body
  error_body : Bytes → Body
  no_body : Body

abbrev pub Response : Type 0
Response = RelayService × ℕ × Body

not_found : Bytes → Body
not_found id = error_body (text "relay session " ++ (hex_session_id id ++ text " was not found"))

bad_path : Bytes → Body
bad_path path = error_body (text "invalid relay session path " ++ path)

no_route : Bytes → Bytes → Body
no_route method path =
    error_body (text "no relay control route for " ++ (method ++ (text " " ++ path)))

module _ (c : Primitives) (json : SessionCredentialUnsigned → Bytes)
    (decode_open : Bytes → Result Bytes RelayOpenRequest)
    (decode_close : Bytes → Result Bytes Bytes) (now : ℕ) (drawn : Bytes) where
  invalid_body : Bytes → Body
  invalid_body error = rejected_body (record {
    attempt_id = 0 ∷ 0 ∷ 0 ∷ 0 ∷ 0 ∷ 0 ∷ 0 ∷ 0 ∷ 0 ∷ 0 ∷ 0 ∷ 0 ∷ 0 ∷ 0 ∷ 0 ∷ 0 ∷ [];
    code = invalid_request;
    source = from_public_key c ed25519 (text "invalid");
    destination = from_public_key c ed25519 (text "invalid");
    protocol = none;
    traffic_class = control;
    reason = text "invalid relay request: " ++ error;
  })

  post_session : RelayService → Bytes → Outcome Response
  unfolding invalid_body
  post_session s body = elim (decode_open body) [
    | err e ↦ returned (s, 400, invalid_body e)
    | ok q ↦ elim (open_relay_session c json now s q drawn) [
      | panicked ↦ panicked
      | returned (t, ok a) ↦ returned (t, 200, accepted_body a)
      | returned (t, err r) ↦ returned (t, 403, rejected_body r)
    ]
  ]

  get_session : RelayService → Bytes → Outcome Response
  unfolding not_found bad_path
  get_session s path = elim (parse_session_path path) [
    | panics ↦ panicked
    | refused ↦ returned (s, 400, bad_path path)
    | parsed id ↦ elim (session s.runtime id) [
      | none ↦ returned (s, 404, not_found id)
      | some v ↦ returned (s, 200, session_body v)
    ]
  ]

  close_answer : Bytes → RelayService × Result RelayError (Unit {0}) → Response
  unfolding not_found
  close_answer id (t, ok _) = (t, 204, no_body)
  close_answer id (t, err session_not_found) = (t, 404, not_found id)
  close_answer id (t, err e) = (t, 409, error_body (error_text c e))

  delete_session : RelayService → Bytes → Bytes → Outcome Response
  unfolding close_answer bad_path
  delete_session s path body = elim (parse_session_path path) [
    | panics ↦ panicked
    | refused ↦ returned (s, 400, bad_path path)
    | parsed id ↦ elim (decode_close body) [
      | err e ↦ returned (s, 400, error_body (text "invalid close request: " ++ e))
      | ok reason ↦ returned (close_answer id (close_relay_session s id reason))
    ]
  ]

  -- `control_response` at the time `now`, with the session id that an open request would draw.
  unfoldable pub control_response : RelayService → Bytes → Bytes → Bytes → Outcome Response
  unfolding post_session get_session delete_session no_route
  control_response s method path body =
      if (method == text "POST") && (path == text "/sessions")
      then post_session s body
      else if (method == text "GET") && (path == text "/healthz")
      then returned (s, 200, health_body (session_count s.runtime))
      else if (method == text "GET") && starts_with (text "/sessions/") path
      then get_session s path
      else if (method == text "DELETE") && starts_with (text "/sessions/") path
      then delete_session s path body
      else returned (s, 404, no_route method path)

  -- What an answered request did: nothing to the service, or one call of it, with the status that
  -- tells which.
  pub data Served (s : RelayService) (method : Bytes) (r : Response) : Type 0 where
    unchanged : r.0 ≡ s → r.1 ≢ 204 → Served s method r
    opened_session :
        (q : RelayOpenRequest) (a : RelaySessionAccepted)
        → method ≡ text "POST"
        → open_relay_session c json now s q drawn ≡ returned (r.0, ok a)
        → r.1 ≡ 200
        → Served s method r
    closed_session :
        (id reason : Bytes)
        → method ≡ text "DELETE"
        → close_relay_session s id reason ≡ (r.0, ok tt)
        → r.1 ≡ 204
        → Served s method r

  post_session-Served :
      (s : RelayService) (method body : Bytes) (r : Response)
      → method ≡ text "POST"
      → post_session s body ≡ returned r
      → Served s method r
  unfolding post_session
  post_session-Served s method body r m h = elim (Result-cases (decode_open body)) [
    | inr (e, d) ↦ unchanged (ground arith) (ground arith)
    | inl (q, d) ↦ elim (open_relay_session_cases c json now s q drawn) [
      | inl (e, o) ↦ unchanged (ground arith) (ground arith)
      | inr (_, _, o) ↦ opened_session q (acceptance q drawn) m (ground arith) (ground arith)
    ]
  ]

  get_session-Served :
      (s : RelayService) (method path : Bytes) (r : Response)
      → get_session s path ≡ returned r
      → Served s method r
  unfolding get_session
  get_session-Served s method path r h = unchanged (ground arith) (ground arith)

  delete_session-Served :
      (s : RelayService) (method path body : Bytes) (r : Response)
      → method ≡ text "DELETE"
      → delete_session s path body ≡ returned r
      → Served s method r
  unfolding delete_session
  delete_session-Served s method path body r m h =
      go (parse_session_path path) refl (decode_close body) refl
    where
      go :
          (p : Parse Bytes)
          → parse_session_path path ≡ p
          → (d : Result Bytes Bytes) → decode_close body ≡ d
          → Served s method r
      go panics e d f = cc
      go refused e d f = unchanged (ground arith) (ground arith)
      go (parsed id) e (err x) f = unchanged (ground arith) (ground arith)
      go (parsed id) e (ok reason) f = elim (close_relay_session_cases s id reason) [
        | inl (_, o) ↦ unchanged (ground arith) (ground arith)
        | inr (v, _, o) ↦ closed_session id reason m (ground arith) (ground arith)
      ]

  -- Every answered HTTP request either leaves the relay as it was, without status 204, or is a POST
  -- that opened one session and is answered by 200, or a DELETE that closed one known session and
  -- is answered by 204.
  pub control_response-Served :
      (s : RelayService) (method path body : Bytes) (r : Response)
      → control_response s method path body ≡ returned r
      → Served s method r
  unfolding control_response
  control_response-Served s method path body r h =
      elim (Bool-cases ((method == text "POST") && (path == text "/sessions"))) [
        | inl a ↦ post_session-Served s method body r (ground arith) (ground arith)
        | inr a ↦ elim (Bool-cases ((method == text "GET") && (path == text "/healthz"))) [
          | inl b ↦ unchanged (ground arith) (ground arith)
          | inr b ↦
              elim (Bool-cases ((method == text "GET") && starts_with (text "/sessions/") path)) [
                | inl d ↦ get_session-Served s method path r (ground arith)
                | inr d ↦
                    elim (Bool-cases
                      ((method == text "DELETE") && starts_with (text "/sessions/") path)) [
                        | inl e ↦
                            delete_session-Served s method path body r (ground arith) (ground arith)
                        | inr e ↦ unchanged (ground arith) (ground arith)
                      ]
              ]
        ]
      ]

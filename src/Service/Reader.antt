-- ===== src/Service/Reader.antt =====
-- `read_client_request` of service.rs: one line of a connection goes to the broker as a request or is
-- answered with an error.
use Prim.Native.String.{len}
use melibea.Base.{
  ℕ, ◌≤◌, ◌<◌, ◌≡◌, sym, ap, subst, ◌∙◌, ◌↔◌, ◌⊎◌, refl, inl, inr, Bool, true, false, not, ◌||◌,
  String, [], ◌∷◌, Option, none, some, Result, ok, err, if◌then◌else◌, ◌==◌, ltb, any, is_some,
  Bool-cases, Option-cases, Result-cases, arith,
}
use melibea.Base.Float.{Arithmetic}
use melibea.Base.Text.{strip_suffix}
use melibea.Protocol.Message.{
  error, ServerMessage, v1_message, for_version, ErrorCode, incompatible_version, invalid_request,
  ProtocolError, protocol_version, supported_protocol_versions, incompatible_error,
  invalid_request_error, unreadable_request, not_one_line, invalid_json,
}
use melibea.Protocol.Request.{Request, ClientRequest, validate, Admits, validate-Admits}

abbrev pub max_request_bytes : ℕ
max_request_bytes = 65536

pub data Handled : Type 0 where
  forwarded : ℕ → Request → Handled
  answered : ServerMessage → Handled

abbrev pub answer_error : ProtocolError → Handled
answer_error e = answered (v1_message (error e))

abbrev pub is_incompatible : ErrorCode → Bool
is_incompatible incompatible_version = true
is_incompatible _ = false

-- The length, and the line feed at the end.
abbrev pub is_one_line : String → Bool
is_one_line line =
    not
      (len line == 0 || (ltb max_request_bytes (len line) || not (is_some (strip_suffix 10 line))))

-- An error that a client can act on: an incompatibility lists both versions and comes as version 1, any
-- other refusal of a request lists none and comes as version 1 or 2.
abbrev pub IsRefusal : ServerMessage → Type 0
IsRefusal answer =
    (e : ProtocolError) × (answer.message ≡ error e)
    × (((e.code ≡ incompatible_version)
          × (e.supported_versions ≡ 1 ∷ 2 ∷ [])
          × (answer.version ≡ 1))
        ⊎ ((e.code ≡ invalid_request)
            × (e.supported_versions ≡ [])
            × ((answer.version ≡ 1) ⊎ (answer.version ≡ 2))))

-- `decode` reads a request from JSON, `probe` only a version.
module _ (a : Arithmetic) (decode : String → Result String ClientRequest)
    (probe : String → Option ℕ) where
  -- The answer to a line that is no request.
  unfoldable pub answer_undecoded : String → String → Handled
  answer_undecoded line reason = elim (probe line) [
    | none ↦ answer_error (invalid_request_error (invalid_json reason))
    | some version ↦
        if not (any (λ v. v == version) supported_protocol_versions)
        then answer_error (incompatible_error version)
        else answer_error (invalid_request_error (invalid_json reason))
  ]

  unfoldable pub handle_request : ClientRequest → Handled
  handle_request request = elim (validate a request) [
    | ok _ ↦ forwarded request.version request.request
    | err e ↦ answered (
        for_version (if is_incompatible e.code then protocol_version else request.version)
          (error e))
  ]

  -- The argument is what `read_line` gives on the limited stream.
  unfoldable pub read_client_request : Result String String → Handled
  read_client_request (err reason) =
      answer_error (invalid_request_error (unreadable_request reason))
  read_client_request (ok line) =
      if not (is_one_line line)
      then answer_error (invalid_request_error not_one_line)
      else elim (decode line) [
        | err reason ↦ answer_undecoded line reason
        | ok request ↦ handle_request request
      ]

  handle_request-forwarded :
      (c : ClientRequest) (version : ℕ) (request : Request)
      → (handle_request c ≡ forwarded version request)
        ↔ ((c ≡ record { version = version; request = request }) × (validate a c ≡ ok tt))
  unfolding handle_request
  handle_request-forwarded c version request = elim (Result-cases (validate a c)) [
    | inl (u, e) ↦ ground (arith, e)
    | inr (r, e) ↦ ground (arith, e)
  ]

  -- A line that reaches the broker.
  abbrev pub IsRequestLine : String → ClientRequest → Type 0
  IsRequestLine line c =
      (0 < len line)
      × (len line ≤ max_request_bytes)
      × (is_some (strip_suffix 10 line) ≡ true)
      × (decode line ≡ ok c)
      × Admits a c

  -- The three ways that a line is taken.
  abbrev Taken : String → Type 0
  Taken line =
      ((is_one_line line ≡ false)
        × (read_client_request (ok line) ≡ answer_error (invalid_request_error not_one_line)))
      ⊎ ((reason : String) × (decode line ≡ err reason)
          × (read_client_request (ok line) ≡ answer_undecoded line reason))
      ⊎ ((is_one_line line ≡ true)
          × (c : ClientRequest) × (decode line ≡ ok c)
          × (read_client_request (ok line) ≡ handle_request c))

  taken : (line : String) → Taken line
  unfolding read_client_request
  taken line = elim (Bool-cases (is_one_line line)) [
    | inr bad ↦ inl (bad, rw bad)
    | inl good ↦ elim (Result-cases (decode line)) [
      | inr (reason, e) ↦ inr (inl (reason, e, rw (good, e)))
      | inl (c, e) ↦ inr (inr (good, c, e, rw (good, e)))
    ]
  ]

  undecoded-answered :
      (line reason : String)
      → (e : ProtocolError) × (answer_undecoded line reason ≡ answer_error e)
        × (((e.code ≡ incompatible_version) × (e.supported_versions ≡ 1 ∷ 2 ∷ []))
            ⊎ ((e.code ≡ invalid_request) × (e.supported_versions ≡ [])))
  unfolding answer_undecoded
  undecoded-answered line reason = elim (Option-cases (probe line)) [
    | inl none_read ↦ (
      invalid_request_error (invalid_json reason),
      rw (none_read, answer_undecoded),
      inr (refl, refl),
    )
    | inr (version, e) ↦
        elim (Bool-cases (not (any (λ v. v == version) supported_protocol_versions))) [
          | inl foreign ↦ (
            incompatible_error version,
            rw (e, answer_undecoded) (rw (foreign, answer_undecoded)),
            inl (refl, refl),
          )
          | inr known ↦ (
            invalid_request_error (invalid_json reason),
            rw (e, answer_undecoded) (rw (known, answer_undecoded)),
            inr (refl, refl),
          )
        ]
  ]

  read_line-forwarded :
      (line : String) (version : ℕ) (request : Request)
      → read_client_request (ok line) ≡ forwarded version request
      → IsRequestLine line (record { version = version; request = request })
  read_line-forwarded line version request h = elim (taken line) [
    | inl (bad, e) ↦ absurd (ground (arith, e, h))
    | inr (inl (reason, d, e)) ↦ absurd (ground (arith, e, h, undecoded-answered line reason))
    | inr (inr (good, c, d, e)) ↦
        let (same, valid) = (handle_request-forwarded c version request).0 (sym e ∙ h) in
        let admitted = (validate-Admits a c).0.0 valid in
        subst (IsRequestLine line) same (ground arith, ground arith, ground arith, d, admitted)
  ]

  forwarded-read_line :
      (line : String) (version : ℕ) (request : Request)
      → IsRequestLine line (record { version = version; request = request })
      → read_client_request (ok line) ≡ forwarded version request
  forwarded-read_line line version request (some_bytes, short, ends, d, admitted) =
      elim (taken line) [
        | inl (bad, e) ↦ absurd (ground arith)
        | inr (inl (reason, d', e)) ↦ absurd (ground arith)
        | inr (inr (good, c, d', e)) ↦
            let same : c ≡ record { version = version; request = request } = ground arith in
            e
            ∙ (handle_request-forwarded c version request).1
                (same, (validate-Admits a c).0.1 (subst (Admits a) (sym same) admitted))
      ]

  -- What goes to the broker is exactly what a line of at most 64 KiB that ends in a line feed is decoded
  -- to, if its version admits it.
  pub read_client_request-forwarded :
      (input : Result String String) (version : ℕ) (request : Request)
      → (read_client_request input ≡ forwarded version request) ↔ (
          (line : String) × (input ≡ ok line)
          × IsRequestLine line (record { version = version; request = request }))
  unfolding read_client_request
  read_client_request-forwarded (err reason) version request = ground arith
  read_client_request-forwarded (ok line) version request = (
    λ h. (line, refl, read_line-forwarded line version request h),
    λ (l, e, r). ap read_client_request e ∙ forwarded-read_line l version request r,
  )

  handle_request-answered :
      (c : ClientRequest) (answer : ServerMessage)
      → handle_request c ≡ answered answer
      → IsRefusal answer
  unfolding handle_request
  handle_request-answered c answer h = elim (Result-cases (validate a c)) [
    | inl (u, e) ↦ absurd (ground arith)
    | inr (r, e) ↦ (r, ground arith, ground (arith, (validate-Admits a c).1 r e))
  ]

  -- Whatever is read, what does not go to the broker is answered with one error: an incompatibility lists
  -- both versions and comes as version 1, any other lists none and comes as version 1 or 2.
  pub read_client_request-answered :
      (input : Result String String) (answer : ServerMessage)
      → read_client_request input ≡ answered answer
      → IsRefusal answer
  unfolding read_client_request
  read_client_request-answered (err reason) answer h =
      (invalid_request_error (unreadable_request reason), ground arith, ground arith)
  read_client_request-answered (ok line) answer h = elim (taken line) [
    | inl (bad, e) ↦ (invalid_request_error not_one_line, ground arith, ground arith)
    | inr (inl (reason, d, e)) ↦
        let (error_sent, gives, kind) = undecoded-answered line reason in
        (error_sent, ground (arith, e, h, gives), ground (arith, e, h, gives, kind))
    | inr (inr (good, c, d, e)) ↦ handle_request-answered c answer (sym e ∙ h)
  ]

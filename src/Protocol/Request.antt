-- ===== src/Protocol/Request.antt =====
-- What a client asks for, and which requests each protocol version admits (protocol.rs).
use melibea.Base.{
  ℕ, ◌≡◌, ◌≢◌, ◌⊎◌, ◌↔◌, refl, not, ◌&&◌, [], Option, none, some, Result, ok, err, map_err,
  if◌then◌else◌, ◌==◌, any, is_some, arith,
}
use melibea.Base.Float.{Arithmetic}
use melibea.Protocol.Anchor.{WindowTransition, validate_transition}
use melibea.Protocol.Message.{
  invalid_request, ProtocolError, protocol_version, protocol_version_v2,
  supported_protocol_versions, incompatible_error, invalid_request_error, transition_requires_v2,
  invalid_transition,
}

pub data Request : Type 0 where
  list : Request
  subscribe : Request
  minimize : Option ℕ → Option WindowTransition → Request
  restore : ℕ → Option WindowTransition → Request
  close : ℕ → Request

pub record ClientRequest : Type 0 where
  pub version : ℕ
  pub request : Request

-- `ClientRequest::new`
abbrev pub v1_request : Request → ClientRequest
v1_request request = record { version = protocol_version; request = request }

-- `ClientRequest::v2`
abbrev pub v2_request : Request → ClientRequest
v2_request request = record { version = protocol_version_v2; request = request }

-- `Request::minimize` and `Request::restore`, and the forms with a transition.
abbrev pub plain_minimize : Option ℕ → Request
plain_minimize window_id = minimize window_id none

abbrev pub minimize_with_transition : Option ℕ → WindowTransition → Request
minimize_with_transition window_id transition = minimize window_id (some transition)

abbrev pub plain_restore : ℕ → Request
plain_restore window_id = restore window_id none

abbrev pub restore_with_transition : ℕ → WindowTransition → Request
restore_with_transition window_id transition = restore window_id (some transition)

-- The transition that `validate_for_version` looks at.
abbrev pub transition_of : Request → Option WindowTransition
transition_of (minimize window_id transition) = transition
transition_of (restore window_id transition) = transition
transition_of _ = none

module _ (a : Arithmetic) where
  -- The last test of `validate_for_version`.
  unfoldable pub validate_optional : Option WindowTransition → Result ProtocolError (Unit {0})
  validate_optional none = ok tt
  validate_optional (some transition) =
      map_err (λ e. invalid_request_error (invalid_transition e)) (validate_transition a transition)

  -- `Request::validate_for_version`
  unfoldable pub validate_for_version : Request → ℕ → Result ProtocolError (Unit {0})
  unfolding validate_optional
  validate_for_version request version =
      let transition = transition_of request in
      if version == protocol_version && is_some transition
      then err (invalid_request_error transition_requires_v2)
      else validate_optional transition

  -- `ClientRequest::validate`
  unfoldable pub validate : ClientRequest → Result ProtocolError (Unit {0})
  unfolding validate_for_version
  validate c =
      if not (any (λ v. v == c.version) supported_protocol_versions)
      then err (incompatible_error c.version)
      else validate_for_version c.request c.version

  -- Every transition that the request carries is valid.
  abbrev pub CarriesValid : Option WindowTransition → Type 0
  CarriesValid none = Unit {0}
  CarriesValid (some t) = validate_transition a t ≡ ok tt

  -- What a protocol version admits.
  abbrev pub Admits : ClientRequest → Type 0
  Admits c =
      ((c.version ≡ 1) × (transition_of c.request ≡ none))
      ⊎ ((c.version ≡ 2) × CarriesValid (transition_of c.request))

  validate-Admits_at :
      (c : ClientRequest) (t : Option WindowTransition)
      → transition_of c.request ≡ t
      → validate c ≡ ok tt
      → ((c.version ≡ 1) × (t ≡ none)) ⊎ ((c.version ≡ 2) × CarriesValid t)
  unfolding validate
  validate-Admits_at c none e h = ground arith
  validate-Admits_at c (some t) e h = ground arith

  Admits-validate_at :
      (c : ClientRequest) (t : Option WindowTransition)
      → transition_of c.request ≡ t
      → ((c.version ≡ 1) × (t ≡ none)) ⊎ ((c.version ≡ 2) × CarriesValid t)
      → validate c ≡ ok tt
  unfolding validate
  Admits-validate_at c none e h = ground arith
  Admits-validate_at c (some t) e h = ground arith

  -- A request is accepted exactly if it is of version 1 and carries no transition, or of version 2 and
  -- carries none that is invalid. A version that is neither gets an incompatibility error that lists
  -- both versions; any other refused request gets an invalid-request error that lists none.
  pub validate-Admits :
      (c : ClientRequest)
      → ((validate c ≡ ok tt) ↔ Admits c)
        × ((e : ProtocolError)
            → validate c ≡ err e
            → ((c.version ≢ 1) × (c.version ≢ 2) × (e ≡ incompatible_error c.version))
              ⊎ (((c.version ≡ 1) ⊎ (c.version ≡ 2))
                  × (e.code ≡ invalid_request)
                  × (e.supported_versions ≡ [])))
  unfolding validate
  validate-Admits c = (
    (
      λ h. validate-Admits_at c (transition_of c.request) refl h,
      λ h. Admits-validate_at c (transition_of c.request) refl h,
    ),
    λ e h. ground arith,
  )

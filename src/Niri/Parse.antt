-- ===== src/Niri/Parse.antt =====
-- niri.rs: `parse_event_line`, which reads one line of niri's event stream.
use melibea.Base.{
  ℕ, ◌≡◌, ◌⊎◌, refl, sym, inl, inr, false, String, List, [], ◌∷◌, Option, Result, ok, err, map,
  map_err, ◌>>=◌, if◌then◌else◌, ◌=?◌, string_eq, Bool-cases, Result-cases, eq_of_beq, ne_of_beq,
  arith,
}
use melibea.Base.Text.{◌<>◌}
use melibea.Base.Json.{Json, View, object, string, other}
use melibea.Minimization.{MinimizedWindow}
use melibea.Niri.{
  NiriWindow, NiriEvent, windows_changed, minimized_windows_changed, window_opened_or_changed,
  window_closed, window_focus_changed, ignored,
}

pub data NiriEventError : Type 0 where
  json : String → NiriEventError
  invalid_envelope : NiriEventError
  payload : String → String → NiriEventError

-- Its `Display`
unfoldable pub event_error_text : NiriEventError → String
event_error_text (json error) = "invalid niri event JSON: " <> error
event_error_text invalid_envelope = "niri event must contain exactly one event variant"
event_error_text (payload event source) = "invalid `" <> event <> "` payload: " <> source

pub record NiriMinimizedWindow : Type 0 where
  pub id : ℕ
  pub title : Option String
  pub app_id : Option String

-- `NiriMinimizedWindow::into_window`
unfoldable pub into_window : NiriMinimizedWindow → MinimizedWindow
into_window w = record { id = w.id; app_id = w.app_id; title = w.title }

-- The payloads, each of which has one field.
pub record WindowsChangedPayload : Type 0 where
  pub windows : List NiriWindow

pub record MinimizedWindowsChangedPayload : Type 0 where
  pub windows : List NiriMinimizedWindow

pub record WindowChangedPayload : Type 0 where
  pub window : NiriWindow

pub record WindowIdPayload : Type 0 where
  pub id : ℕ

pub record OptionalWindowIdPayload : Type 0 where
  pub id : Option ℕ

-- `serde_json::from_value` at the type of each payload.
pub record Payloads (j : Json) : Type 0 where
  pub windows_changed_payload : j.Value → Result String WindowsChangedPayload
  pub minimized_windows_changed_payload : j.Value → Result String MinimizedWindowsChangedPayload
  pub window_changed_payload : j.Value → Result String WindowChangedPayload
  pub window_id_payload : j.Value → Result String WindowIdPayload
  pub optional_window_id_payload : j.Value → Result String OptionalWindowIdPayload

-- `decode_payload`, with the call of serde_json as an argument.
unfoldable pub decode_payload {ℓ κ} :
    {V : Type ℓ} {T : Type κ} → (V → Result String T) → String → V → Result NiriEventError T
decode_payload from_value name value = map_err (payload name) (from_value value)

-- `event_name` of main.rs
unfoldable pub event_name : NiriEvent → String
event_name (windows_changed windows) = "WindowsChanged"
event_name (minimized_windows_changed windows) = "MinimizedWindowsChanged"
event_name (window_opened_or_changed window) = "WindowOpenedOrChanged"
event_name (window_closed id) = "WindowClosed"
event_name (window_focus_changed id) = "WindowFocusChanged"
event_name (ignored name) = "Ignored"

-- The names of the events that are consumed.
abbrev pub IsRecognized : String → Type 0
IsRecognized name =
    (name ≡ "WindowsChanged")
    ⊎ (name ≡ "MinimizedWindowsChanged")
    ⊎ (name ≡ "WindowOpenedOrChanged")
    ⊎ (name ≡ "WindowClosed")
    ⊎ (name ≡ "WindowFocusChanged")

-- What may come of an envelope with one entry.
abbrev pub Reads : String → Result NiriEventError NiriEvent → Type 0
Reads name (ok event) =
    (IsRecognized name × (event_name event ≡ name))
    ⊎ ((IsRecognized name → ⊥) × (event ≡ ignored name))
Reads name (err e) = IsRecognized name × (reason : String) × (e ≡ payload name reason)

decoded {ℓ κ} :
    {V : Type ℓ} {T : Type κ} (from_value : V → Result String T) (make : T → NiriEvent)
    (name : String) (value : V)
    → IsRecognized name
    → ((t : T) → event_name (make t) ≡ name)
    → Reads name (decode_payload from_value name value >>= λ t. ok (make t))
unfolding decode_payload
decoded from_value make name value known named = elim (Result-cases (from_value value)) [
  | inl (t, e) ↦ rw e (inl (known, named t))
  | inr (reason, e) ↦ rw e (known, reason, refl)
]

unrecognized :
    (name : String)
    → (name =? "WindowsChanged") ≡ false
    → (name =? "MinimizedWindowsChanged") ≡ false
    → (name =? "WindowOpenedOrChanged") ≡ false
    → (name =? "WindowClosed") ≡ false
    → (name =? "WindowFocusChanged") ≡ false
    → IsRecognized name
    → ⊥
unrecognized name a b c d e (inl h) = ne_of_beq name _ a h
unrecognized name a b c d e (inr (inl h)) = ne_of_beq name _ b h
unrecognized name a b c d e (inr (inr (inl h))) = ne_of_beq name _ c h
unrecognized name a b c d e (inr (inr (inr (inl h)))) = ne_of_beq name _ d h
unrecognized name a b c d e (inr (inr (inr (inr h)))) = ne_of_beq name _ e h

module _ (j : Json) (p : Payloads j) where
  -- The `match` on the name.
  unfoldable pub decode_event : String → j.Value → Result NiriEventError NiriEvent
  unfolding decode_payload
  decode_event name value =
      if name =? "WindowsChanged"
      then (decode_payload p.windows_changed_payload name value >>= λ payload.
          ok (windows_changed payload.windows))
      else if name =? "MinimizedWindowsChanged"
      then (decode_payload p.minimized_windows_changed_payload name value >>= λ payload.
          ok (minimized_windows_changed (map into_window payload.windows)))
      else if name =? "WindowOpenedOrChanged"
      then (decode_payload p.window_changed_payload name value >>= λ payload.
          ok (window_opened_or_changed payload.window))
      else if name =? "WindowClosed"
      then (decode_payload p.window_id_payload name value >>= λ payload.
          ok (window_closed payload.id))
      else if name =? "WindowFocusChanged"
      then (decode_payload p.optional_window_id_payload name value >>= λ payload.
          ok (window_focus_changed payload.id))
      else ok (ignored name)

  -- What follows `from_str`.
  unfoldable pub decode_envelope : View j.Value → Result NiriEventError NiriEvent
  decode_envelope (object ((name, value) ∷ [])) = decode_event name value
  decode_envelope _ = err invalid_envelope

  unfoldable pub parse_event_line : String → Result NiriEventError NiriEvent
  parse_event_line line = map_err json (j.from_str line) >>= λ value. decode_envelope (j.view value)

  decode_event-Reads : (name : String) (value : j.Value) → Reads name (decode_event name value)
  unfolding decode_event event_name
  decode_event-Reads name value = elim (Bool-cases (name =? "WindowsChanged")) [
    | inl a ↦
        let e = eq_of_beq name "WindowsChanged" a in
        rw a (
          decoded p.windows_changed_payload (λ t. windows_changed t.windows) name value (inl e)
            (λ t. sym e))
    | inr a ↦ rw a (elim (Bool-cases (name =? "MinimizedWindowsChanged")) [
      | inl b ↦
          let e = eq_of_beq name "MinimizedWindowsChanged" b in
          rw b (
            decoded p.minimized_windows_changed_payload
              (λ t. minimized_windows_changed (map into_window t.windows)) name value (inr (inl e))
              (λ t. sym e))
      | inr b ↦ rw b (elim (Bool-cases (name =? "WindowOpenedOrChanged")) [
        | inl c ↦
            let e = eq_of_beq name "WindowOpenedOrChanged" c in
            rw c (
              decoded p.window_changed_payload (λ t. window_opened_or_changed t.window) name value
                (inr (inr (inl e))) (λ t. sym e))
        | inr c ↦ rw c (elim (Bool-cases (name =? "WindowClosed")) [
          | inl d ↦
              let e = eq_of_beq name "WindowClosed" d in
              rw d (
                decoded p.window_id_payload (λ t. window_closed t.id) name value
                  (inr (inr (inr (inl e)))) (λ t. sym e))
          | inr d ↦ rw d (elim (Bool-cases (name =? "WindowFocusChanged")) [
            | inl f ↦
                let e = eq_of_beq name "WindowFocusChanged" f in
                rw f (
                  decoded p.optional_window_id_payload (λ t. window_focus_changed t.id) name value
                    (inr (inr (inr (inr e)))) (λ t. sym e))
            | inr f ↦ rw f (inr (unrecognized name a b c d f, refl))
          ])
        ])
      ])
    ])
  ]

  -- An envelope: one entry, a name with its payload.
  abbrev pub IsEnvelope : j.Value → String → j.Value → Type 0
  IsEnvelope value name content = j.view value ≡ object ((name, content) ∷ [])

  -- What becomes of a line.
  abbrev pub Parses : String → Type 0
  Parses line =
      ((reason : String) × (j.from_str line ≡ err reason)
        × (parse_event_line line ≡ err (json reason)))
      ⊎ ((value : j.Value) × (j.from_str line ≡ ok value)
          × ((((name : String) (content : j.Value) → IsEnvelope value name content → ⊥)
                × (parse_event_line line ≡ err invalid_envelope))
              ⊎ ((name : String) × (content : j.Value) × IsEnvelope value name content
                  × Reads name (parse_event_line line))))

  decode_envelope-cases :
      (view : View j.Value)
      → (((name : String) (content : j.Value) → (view ≡ object ((name, content) ∷ [])) → ⊥)
          × (decode_envelope view ≡ err invalid_envelope))
        ⊎ ((name : String) × (content : j.Value) × (view ≡ object ((name, content) ∷ []))
            × Reads name (decode_envelope view))
  unfolding decode_envelope
  decode_envelope-cases (object []) = inl (λ name content e. ground (arith, e), refl)
  decode_envelope-cases (object ((name, content) ∷ [])) =
      inr (name, content, refl, decode_event-Reads name content)
  decode_envelope-cases (object (a ∷ b ∷ rest)) = inl (λ name content e. ground (arith, e), refl)
  decode_envelope-cases (string text) = inl (λ name content e. ground (arith, e), refl)
  decode_envelope-cases other = inl (λ name content e. ground (arith, e), refl)

  -- Of a line that is no JSON the error is serde_json's, and a JSON value that is no object with one
  -- entry is an invalid envelope. An entry with the name of an event that is consumed is read as an event
  -- of that name, or is refused for its payload under that name; one with any other name is ignored,
  -- whatever its payload, and keeps the name.
  pub parse_event_line-Parses : (line : String) → Parses line
  unfolding parse_event_line
  parse_event_line-Parses line = elim (Result-cases (j.from_str line)) [
    | inr (reason, e) ↦ inl (reason, e, rw e refl)
    | inl (value, e) ↦ inr (value, e, rw e (decode_envelope-cases (j.view value)))
  ]

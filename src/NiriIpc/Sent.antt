-- ===== src/NiriIpc/Sent.antt =====
-- niri_ipc.rs: what it takes for an action to be replied to.
use melibea.Base.{◌≡◌, ◌↔◌, inl, inr, false, String, ok, arith, Result-cases}
use melibea.Base.Text.{◌<>◌, text_is_empty}
use melibea.NiriIpc.{Transport, ActionReply}
use melibea.NiriIpc.Reply.{validate_action_reply}
use melibea.NiriIpc.Action.{NiriAction, action, Codec, finish_action, send_action}

module _ (c : Codec) where
  -- The action went out on its line and the line that came back is the reply.
  pub record IsReplied (t : Transport) (a : NiriAction) (reply : ActionReply) : Type 0 where
    pub request : String
    pub line : String
    pub encodes : c.to_string (action a) ≡ ok request
    pub written : t.write_all (request <> "\n") ≡ ok tt
    pub flushed : t.flush ≡ ok tt
    pub answered : t.read_line ≡ ok line
    pub some_line : text_is_empty line ≡ false
    pub reads : validate_action_reply c.json c.window_action_result line ≡ ok reply

  send_action-ok :
      (t : Transport) (a : NiriAction) (reply : ActionReply)
      → send_action c t a ≡ ok reply
      → IsReplied t a reply
  unfolding send_action finish_action
  send_action-ok t a reply h = elim (Result-cases (c.to_string (action a))) [
    | inr (x, e) ↦ absurd (ground (arith, h, e))
    | inl (request, e) ↦ elim (Result-cases t.read_line) [
      | inr (x, r) ↦ absurd (ground (arith, h, e, r))
      | inl (line, r) ↦ record {
        request = request;
        line = line;
        encodes = e;
        written = ground (arith, h, e, r);
        flushed = ground (arith, h, e, r);
        answered = r;
        some_line = ground (arith, h, e, r);
        reads = ground (arith, h, e, r);
      }
    ]
  ]

  pub send_action-IsReplied :
      (t : Transport) (a : NiriAction) (reply : ActionReply)
      → (send_action c t a ≡ ok reply) ↔ IsReplied t a reply
  unfolding send_action finish_action
  send_action-IsReplied t a reply = (
    send_action-ok t a reply,
    λ r. rw (r.encodes, r.written, r.flushed, r.answered, r.some_line) r.reads,
  )

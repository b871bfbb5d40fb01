-- ===== src/Bindings/Replies.antt =====
-- What `agent.reply` of src/bindings.c does with valid arguments.
use reactos_luagent.Base.{
  ◌≡◌, refl, sym, ap, subst, ◌⊎◌, inl, inr, true, false, ℕ, List, [], ◌∷◌, bytes_eq, if◌then◌else◌,
  Bytes, codes, some, ℤ, arith,
}
use reactos_luagent.Libc.{c_string}
use reactos_luagent.Machine.{Os, Trace, State, Rc, success, failure, ◌>>=◌}
use reactos_luagent.Session.{session_send_text, session_send_frame}
use reactos_luagent.Machine.Keeps.{if-action}
use reactos_luagent.Frame.{FrameType, type_code}
use reactos_luagent.Session.Refused.{
  can_send, IsUnsent, session_send_frame_refused, session_send_frame_sent,
}
use reactos_luagent.Session.Sent.{IsSent, session_send_frame_success}
use reactos_luagent.Bindings.{
  LuaApi, LuaResult, returns, nothing, raises, Scandir, cast_u, reply_type, argument, l_reply,
}

c_string-c_string : (b : Bytes) → c_string (c_string b) ≡ c_string b
unfolding c_string
c_string-c_string [] = refl
c_string-c_string (x ∷ xs) = ground (arith, c_string-c_string xs)

-- The kinds of a reply with the numbers of their frame types, and the number for any other.
abbrev named_kinds : List (Bytes × ℕ)
named_kinds = (codes "ACK", 2) ∷ (codes "OP_RESULT", 11) ∷ (codes "PONG", 51) ∷ []

abbrev code_in : List (Bytes × ℕ) → Bytes → ℕ
code_in [] kind = 11
code_in ((name, code) ∷ rest) kind =
    let other = code_in rest kind in if bytes_eq kind name then code else other

abbrev pub kind_code : Bytes → ℕ
kind_code = code_in named_kinds

reply_type-code : (kind : Bytes) → type_code (reply_type kind) ≡ kind_code kind
unfolding reply_type type_code
reply_type-code kind = ground arith

module _ (os : Os) (api : LuaApi) (scandir : Trace → Bytes → Scandir) (args : List api.Value)
    (req_id : ℤ) (kind payload : Bytes) where
  -- The arguments are an integer and two strings.
  abbrev pub ValidReply : Type 0
  ValidReply =
      (api.check_integer (argument os api scandir true args 1) ≡ some req_id)
      × (api.check_string (argument os api scandir true args 2) ≡ some kind)
      × (api.is_none_or_nil (argument os api scandir true args 3) ≡ false)
      × (api.check_string (argument os api scandir true args 3) ≡ some payload)

  reply_answer : Rc → LuaResult
  reply_answer success = returns nothing
  reply_answer failure = raises (codes "failed to send reply")

  l_reply_lem :
      (s : State)
      → ValidReply
      → l_reply os api scandir true args s ≡ (
          let (rc, s') =
            session_send_frame os
              (reply_type (c_string kind))
              (cast_u 32 req_id)
              (c_string payload)
              s in
          (reply_answer rc, s'))
  unfolding l_reply reply_answer session_send_text ◌>>=◌
  l_reply_lem s v = grind (arith, if-action, v.0, v.1, v.2, v.3, c_string-c_string payload)

  -- What a reply of type `t` comes to, by whether its frame can be sent.
  abbrev pub Replies : FrameType → State → LuaResult × State → Type 0
  Replies t s out =
      ((can_send os t (cast_u 32 req_id) (c_string payload) s ≡ true)
        × (out.0 ≡ returns nothing)
        × IsSent os t (cast_u 32 req_id) (c_string payload) s out.1)
      ⊎ ((can_send os t (cast_u 32 req_id) (c_string payload) s ≡ false)
          × (out.0 ≡ raises (codes "failed to send reply"))
          × IsUnsent s out.1)

  by_rc :
      (t : FrameType) (s : State) (r : Rc × State)
      → session_send_frame os t (cast_u 32 req_id) (c_string payload) s ≡ r
      → Replies t s (reply_answer r.0, r.1)
  unfolding reply_answer
  by_rc t s (success, s') e = inl (
    session_send_frame_sent os t (cast_u 32 req_id) (c_string payload) s (ap (λ r. r.0) e),
    refl,
    subst (λ r. IsSent os t (cast_u 32 req_id) (c_string payload) s r.1) e
        (session_send_frame_success os t (cast_u 32 req_id) (c_string payload) s (ap (λ r. r.0) e)),
  )
  by_rc t s (failure, s') e =
      let (refused, unsent) =
        session_send_frame_refused os t (cast_u 32 req_id) (c_string payload) s (ap (λ r. r.0) e) in
      inr (refused, refl, subst (λ r. IsUnsent s r.1) e unsent)

  -- With a valid request, kind and payload, the strings up to their first NUL, `agent.reply` sends one
  -- frame of the type 2 for ACK, 51 for PONG and 11 for OP_RESULT and any other kind, and returns
  -- nothing, if the session is open with room in its queue, the allocations succeed, the payload is no
  -- longer than LUAGENT_MAX_FRAME_PAYLOAD and libuv takes the write. Otherwise it raises "failed to send
  -- reply", and libuv holds no more than before.
  pub l_reply_sends :
      (s : State)
      → ValidReply
      → (t : FrameType) × (type_code t ≡ kind_code (c_string kind))
        × Replies t s (l_reply os api scandir true args s)
  l_reply_sends s v =
      let t = reply_type (c_string kind) in
      (
        t,
        reply_type-code (c_string kind),
        subst (λ out. Replies t s out) (sym (l_reply_lem s v))
            (by_rc t s (session_send_frame os t (cast_u 32 req_id) (c_string payload) s) refl),
      )

-- ===== src/Transfer/Chunks.antt =====
-- The handlers of an upload, on the bytes that its file holds.
use reactos_luagent.Base.{
  ℕ, ap, ◌∙◌, ◌+◌, ◌^◌, ◌<◌, ◌≤◌, ◌≡◌, refl, inl, inr, false, not, ◌||◌, ◌==◌, ◌∷◌, Bytes, length,
  length-append, arith, pos_part, is_neg, ltb, ℤ,
}
use reactos_luagent.Libc.{add_u64}
use reactos_luagent.Machine.{Os, State, Transfer, Action, failure, ◌>>◌, pure, modify, fs_write}
use reactos_luagent.Machine.Keeps.{Keeps}
use reactos_luagent.Machine.Leads.{
  Leads, Leads-Keeps, Leads-if, Leads-option, Leads-bind, Leads-then, Leads-get_session, Leads-call,
}
use reactos_luagent.Session.{session_send_error, write_completed, on_write_done}
use reactos_luagent.Invariant.{Kept, IsInvariant, stored, taken_of, write_at}
use reactos_luagent.Transfer.{upload_slot, transfer_abort_slot}
use reactos_luagent.Transfer.Stored.{
  IsStored, UpTo, Fresh, StoresBelowLimit, write_at-end, taken_of-all, abort-Fresh, aborts-UpTo,
  sends-UpTo, stored_rules, from_Fresh, put_begin_with-UpTo,
}
use reactos_luagent.Transfer.Upload.{
  set_upload, is_upload, transfer_handle_put_begin, put_chunk_write, transfer_handle_put_chunk,
  transfer_finalize_rename, put_end_failed, put_end_reply, transfer_handle_put_end,
}

-- From any state that is known to keep `UpTo`.
at_state :
    {A : Type 0} (os : Os) (s : State) (m : Action A)
    → Kept (UpTo os) s
    → Keeps (Kept (UpTo os)) m
    → Leads (λ s'. s' ≡ s) (Kept (UpTo os)) m
at_state os s m h k = Leads-Keeps (λ s'. s' ≡ s) (Kept (UpTo os)) m (λ s' e. rw e h) k

-- A state whose upload has not started, or is stored.
Keeps-of_cases :
    {A : Type 0} (os : Os) (m : Action A)
    → Leads (Kept (Fresh os)) (Kept (UpTo os)) m
    → ((s : State)
        → IsStored s.session.upload.active s.session.upload.offset s.session.upload.total_size
            (stored os s.trace)
        → Kept (UpTo os) (m s).1)
    → Keeps (Kept (UpTo os)) m
Keeps-of_cases os m f g = record { at = λ s h. elim h [ inl e ↦ f.at s e | inr e ↦ g s e ] }

write_at-length :
    (content b : Bytes) (offset : ℕ)
    → length content ≡ offset
    → length (write_at offset b content) ≡ offset + length b
write_at-length content b offset e =
    rw (← e) (ap length (write_at-end content b) ∙ length-append content b)

-- The state after the write of a chunk.
abbrev Written : Bytes → State → State → Type 0
Written payload s s' =
    s'
    ≡ record s { trace = fs_write s.session.upload.file payload s.session.upload.offset ∷ s.trace }

module _ (os : Os) (req_id : ℕ) where
  begin-Fresh :
      (payload : Bytes)
      → Leads (Kept (Fresh os)) (Kept (UpTo os)) (transfer_handle_put_begin os req_id payload)
  unfolding transfer_handle_put_begin
  begin-Fresh payload =
      search (stored_rules, put_begin_with-UpTo, from_Fresh, Leads-then, Leads-if, Leads-option)
        depth 40

  -- An active upload refuses a second one.
  put_begin-UpTo :
      (payload : Bytes) → Keeps (Kept (UpTo os)) (transfer_handle_put_begin os req_id payload)
  unfolding transfer_handle_put_begin
  put_begin-UpTo payload = Keeps-of_cases os _ (begin-Fresh payload) (λ s h.
      (Leads-get_session (λ s'. s' ≡ s) (Kept (UpTo os)) _
          (λ s' e.
            Leads-if (λ t. t ≡ s') (Kept (UpTo os)) s'.session.upload.active _ _
              (λ on. at_state os s' _ (rw e (inr h)) (search stored_rules depth 30))
              (λ off. absurd (ground (arith, h.is_active))))).at
        s refl)

  finalize_rename-UpTo : (t : Transfer) → Keeps (Kept (UpTo os)) (transfer_finalize_rename os t)
  unfolding transfer_finalize_rename
  finalize_rename-UpTo t = search stored_rules depth 30

  put_end_failed-UpTo : (rc : ℤ) → Keeps (Kept (UpTo os)) (put_end_failed os req_id rc)
  unfolding put_end_failed
  put_end_failed-UpTo rc = search stored_rules depth 30

  put_end_reply-UpTo : (t : Transfer) → Keeps (Kept (UpTo os)) (put_end_reply os req_id t)
  unfolding put_end_reply
  put_end_reply-UpTo t = search stored_rules depth 30

  put_end-UpTo : Keeps (Kept (UpTo os)) (transfer_handle_put_end os req_id)
  unfolding transfer_handle_put_end
  put_end-UpTo =
      search (stored_rules, finalize_rename-UpTo, put_end_failed-UpTo, put_end_reply-UpTo) depth 40

  -- Whatever the state was, an abort at the end leaves no upload.
  ends_in_abort :
      {B : Type 0} (P : State → Type 0) (m : Action B)
      → Leads P (Kept (UpTo os)) (do m; transfer_abort_slot upload_slot; pure failure)
  ends_in_abort P m =
      Leads-bind P (Kept (UpTo os)) (λ s. Unit) m _ (record { at = λ s h. tt })
        (λ _.
          Leads-bind (λ s. Unit) (Kept (UpTo os)) (Kept (Fresh os)) _ _ (abort-Fresh os (λ s. Unit))
            (λ _. from_Fresh os _ (search stored_rules)))

  -- A write that took all its bytes.
  taken :
      (payload : Bytes) (s : State)
      → StoresBelowLimit os
      → (is_neg (os.write_result s.trace s.session.upload.file payload s.session.upload.offset)
          || not (
              pos_part
                (os.write_result s.trace s.session.upload.file payload s.session.upload.offset)
              == length payload))
        ≡ false
      → s.session.upload.offset + length payload < 2 ^ 63
  taken payload s limit good =
      limit.below s.trace s.session.upload.file payload s.session.upload.offset (ground arith)
        (ground arith)

  -- The state after a write, and the offset that counts it.
  advance-UpTo :
      (payload : Bytes) (s : State)
      → IsStored s.session.upload.active s.session.upload.offset s.session.upload.total_size
          (stored os s.trace)
      → s.session.upload.offset + length payload ≤ s.session.upload.total_size
      → s.session.upload.offset + length payload < 2 ^ 63
      → taken_of
          (os.write_result s.trace s.session.upload.file payload s.session.upload.offset)
          payload
        ≡ payload
      → Leads
          (Written payload s)
          (Kept (UpTo os))
          (set_upload (λ t. record t { offset = add_u64 t.offset (length payload) }))
  unfolding modify
  advance-UpTo payload s h room below whole = record {
    at = λ s' e. rw e (
        inr (record {
          is_active = h.is_active;
          all_stored =
              ap (λ b. length (write_at s.session.upload.offset b (stored os s.trace))) whole
              ∙ write_at-length (stored os s.trace) payload s.session.upload.offset h.all_stored
              ∙ omega arith;
          in_size = omega arith;
          in_file = omega arith;
        }));
  }

  put_chunk_write-UpTo :
      (payload : Bytes) (s : State)
      → StoresBelowLimit os
      → IsStored s.session.upload.active s.session.upload.offset s.session.upload.total_size
          (stored os s.trace)
      → ltb s.session.upload.total_size (add_u64 s.session.upload.offset (length payload)) ≡ false
      → Leads (λ s'. s' ≡ s) (Kept (UpTo os)) (put_chunk_write os req_id payload s.session.upload)
  unfolding put_chunk_write
  put_chunk_write-UpTo payload s limit h fits =
      let room : s.session.upload.offset + length payload < 2 ^ 63
          → s.session.upload.offset + length payload ≤ s.session.upload.total_size =
        λ below. ground arith in
      Leads-call (λ s'. s' ≡ s) (Kept (UpTo os)) _ _ _
        (λ s' e. rw e (
          Leads-if (Written payload s) (Kept (UpTo os)) _ _ _
            (λ bad.
              Leads-bind (Written payload s) (Kept (UpTo os)) (λ s'. Unit) _ _
                (record { at = λ s' h. tt }) (λ _. ends_in_abort (λ s'. Unit) _))
            (λ good.
              Leads-bind (Written payload s) (Kept (UpTo os)) (Kept (UpTo os)) _ _
                (advance-UpTo payload s h (room (taken payload s limit good))
                  (taken payload s limit good) (taken_of-all _ payload good))
                (λ _.
                  Leads-Keeps (Kept (UpTo os)) (Kept (UpTo os)) _ (λ s' h'. h')
                    (search stored_rules depth 30)))))

  -- An error reply, as the end of a branch.
  refuses :
      (s : State) (code message : Bytes)
      → Kept (UpTo os) s
      → Leads
          (λ s'. s' ≡ s)
          (Kept (UpTo os))
          (do session_send_error os req_id code message; pure failure)
  refuses s code message h = at_state os s _ h (search stored_rules depth 30)

  -- A chunk that passes the tests.
  passes :
      (payload : Bytes) (s : State)
      → StoresBelowLimit os
      → Kept (UpTo os) s
      → (not s.session.upload.active || not (s.session.upload.req_id == req_id)) ≡ false
      → ltb s.session.upload.total_size (add_u64 s.session.upload.offset (length payload)) ≡ false
      → Leads (λ s'. s' ≡ s) (Kept (UpTo os)) (put_chunk_write os req_id payload s.session.upload)
  passes payload s limit (inl f) on fits = absurd (ground (arith, f.inactive))
  passes payload s limit (inr st) on fits = put_chunk_write-UpTo payload s limit st fits

  put_chunk-UpTo :
      StoresBelowLimit os
      → (payload : Bytes) → Keeps (Kept (UpTo os)) (transfer_handle_put_chunk os req_id payload)
  unfolding transfer_handle_put_chunk
  put_chunk-UpTo limit payload = record {
    at = λ s h.
        (Leads-get_session (λ s'. s' ≡ s) (Kept (UpTo os)) _
            (λ s' e. rw e (
              Leads-if (λ s'. s' ≡ s) (Kept (UpTo os))
                (not s.session.upload.active || not (s.session.upload.req_id == req_id)) _ _
                (λ no. refuses s _ _ h)
                (λ on.
                  Leads-if (λ s'. s' ≡ s) (Kept (UpTo os)) (not (is_upload s.session.upload.mode)) _
                    _ (λ no. refuses s _ _ h)
                    (λ mode.
                      Leads-if (λ s'. s' ≡ s) (Kept (UpTo os))
                        (ltb s.session.upload.total_size
                          (add_u64 s.session.upload.offset (length payload)))
                        _ _ (λ over. at_state os s _ h (search stored_rules depth 30))
                        (λ fits. passes payload s limit h on fits)))))).at
          s refl;
  }

completes-UpTo : (os : Os) (s : State) → Kept (UpTo os) s → Kept (UpTo os) (write_completed s)
unfolding write_completed on_write_done
completes-UpTo os s h = ground arith

hears-UpTo :
    (os : Os) (now : ℕ) → Keeps (Kept (UpTo os)) (modify (λ s. record s { last_rx_ms = now }))
unfolding modify
hears-UpTo os now = record { at = λ s h. h }

-- If a write that takes all its bytes ends below 2 ^ 63, then the handlers keep `UpTo`.
pub UpTo-IsInvariant : (os : Os) → StoresBelowLimit os → IsInvariant os (UpTo os)
UpTo-IsInvariant os limit = record {
  sends = sends-UpTo os;
  aborts = aborts-UpTo os;
  begins = put_begin-UpTo os;
  chunks = λ req_id payload. put_chunk-UpTo os req_id limit payload;
  ends = put_end-UpTo os;
  hears = hears-UpTo os;
  completes = completes-UpTo os;
}

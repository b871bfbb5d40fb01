-- ===== src/Invariant.antt =====
-- Invariants of a session that speak of its upload, its write queue and the bytes that it stored
-- in the file of the upload.
use reactos_luagent.Base.{
  ℤ, is_neg, pos_part, if◌then◌else◌, ℕ, ◌+◌, List, [], ◌∷◌, ◌++◌, Bytes, take, drop, length,
}
use reactos_luagent.Frame.{FrameType}
use reactos_luagent.Machine.{
  Os, Trace, Transfer, Counters, State, fs_open, fs_write, creat_trunc_wronly, util_now_ms, modify,
}
use reactos_luagent.Machine.Keeps.{Keeps, keeps_rules}
use reactos_luagent.Diag.{count_with}
use reactos_luagent.Session.{
  session_close, session_send_frame, session_send_text, session_send_error, write_completed,
}
use reactos_luagent.Transfer.{upload_slot, transfer_abort_slot}
use reactos_luagent.Transfer.Upload.{
  transfer_handle_put_begin, transfer_handle_put_chunk, transfer_handle_put_end,
}

-- A file after a write at an offset.
abbrev pub write_at : ℕ → Bytes → Bytes → Bytes
write_at offset bytes content =
    take offset content ++ (bytes ++ drop (offset + length bytes) content)

-- The bytes of a buffer that a write took: as many as its result counts, none if that is an error.
abbrev pub taken_of : ℤ → Bytes → Bytes
taken_of rc bytes = if is_neg rc then [] else take (pos_part rc) bytes

-- What the file that was last opened for writing holds, by the results of the writes. Only uploads
-- open and write files.
abbrev pub stored : Os → Trace → Bytes
stored os [] = []
stored os (fs_open p creat_trunc_wronly ∷ t) = []
stored os (fs_write f bytes offset ∷ t) =
    write_at offset (taken_of (os.write_result t f bytes offset) bytes) (stored os t)
stored os (e ∷ t) = stored os t

pub record View : Type 0 where
  pub upload : Transfer
  pub pending : ℕ
  pub in_flight : List ℕ
  pub stored_bytes : Os → Bytes
  pub last_rx : ℕ

abbrev pub view : State → View
view s = record {
  upload = s.session.upload;
  pending = s.session.pending_write_bytes;
  in_flight = s.in_flight;
  stored_bytes = λ os. stored os s.trace;
  last_rx = s.session.last_rx_ms;
}

abbrev pub Kept : (View → Type 0) → State → Type 0
Kept F s = F (view s)

-- What an invariant of this kind needs: that the operations that change the view keep it.
pub record IsInvariant (os : Os) (F : View → Type 0) : Type 0 where
  pub sends :
      (os : Os) (type : FrameType) (req_id : ℕ) (payload : Bytes)
      → Keeps (Kept F) (session_send_frame os type req_id payload)
  pub aborts : Keeps (Kept F) (transfer_abort_slot upload_slot)
  pub begins :
      (req_id : ℕ) (payload : Bytes) → Keeps (Kept F) (transfer_handle_put_begin os req_id payload)
  pub chunks :
      (req_id : ℕ) (payload : Bytes) → Keeps (Kept F) (transfer_handle_put_chunk os req_id payload)
  pub ends : (req_id : ℕ) → Keeps (Kept F) (transfer_handle_put_end os req_id)
  pub hears : (now : ℕ) → Keeps (Kept F) (modify (λ s. record s { last_rx_ms = now }))
  pub completes : (s : State) → Kept F s → Kept F (write_completed s)

module _ (F : View → Type 0) where
  pub count_with-Kept : (f : Counters → Counters) → Keeps (Kept F) (count_with f)
  unfolding count_with
  count_with-Kept f = record { at = λ s h. h }

  pub session_close-Kept : Keeps (Kept F) session_close
  unfolding session_close
  session_close-Kept = search (keeps_rules, count_with-Kept) depth 30

  pub util_now_ms-Kept : (os : Os) → Keeps (Kept F) (util_now_ms os)
  unfolding util_now_ms
  util_now_ms-Kept os = search keeps_rules

-- The two functions that send through `session_send_frame`.
module _ (F : View → Type 0)
    (sends : (os : Os) (type : FrameType) (req_id : ℕ) (payload : Bytes)
      → Keeps (Kept F) (session_send_frame os type req_id payload)) where
  pub session_send_text-Kept :
      (os : Os) (type : FrameType) (req_id : ℕ) (payload : Bytes)
      → Keeps (Kept F) (session_send_text os type req_id payload)
  unfolding session_send_text
  session_send_text-Kept os type req_id payload = sends os type req_id _

  pub session_send_error-Kept :
      (os : Os) (req_id : ℕ) (code message : Bytes)
      → Keeps (Kept F) (session_send_error os req_id code message)
  unfolding session_send_error
  session_send_error-Kept os req_id code message = search (keeps_rules, session_send_text-Kept)

pub ruleset kept_rules = (
  keeps_rules, count_with-Kept, session_close-Kept, util_now_ms-Kept, session_send_text-Kept,
  session_send_error-Kept,
)

-- ===== src/Transfer/Stored.antt =====
-- The upload and the file that it writes: the file holds the bytes of the chunks so far.
use reactos_luagent.Base.{
  ℕ, ap, sym, ◌∙◌, append-nil, ◌+◌, ◌^◌, ◌<◌, ◌≤◌, ◌≡◌, refl, ◌⊎◌, inl, inr, Bool, true, false,
  Option, none, some, [], ◌++◌, Bytes, length, take-all, drop-all, arith, pos_part, is_neg, ℤ, not,
  ◌||◌, ◌==◌,
}
use reactos_luagent.Frame.{FrameType}
use reactos_luagent.Machine.{
  modify, call, fs_open, creat_trunc_wronly, mode_upload, Os, State, Trace, Transfer, Action, ◌>>=◌,
}
use reactos_luagent.Machine.Keeps.{Keeps}
use reactos_luagent.Machine.Leads.{
  Leads, Leads-Keeps, Leads-if, Leads-option, Leads-bind, Leads-then,
}
use reactos_luagent.Session.{
  session_send_frame, send_allocated, send_encoded, send_buffer, uv_write,
}
use reactos_luagent.Invariant.{
  View, view, Kept, IsInvariant, stored, taken_of, write_at, kept_rules, count_with-Kept,
  session_close-Kept, util_now_ms-Kept, session_send_error-Kept, session_send_text-Kept,
}
use reactos_luagent.Transfer.{upload_slot, put_transfer, transfer_reset, transfer_abort_slot}
use reactos_luagent.Transfer.Upload.{set_upload, copy_paths, put_begin_open, put_begin_with}

-- What sending a frame leaves alone.
module _ (on : Os) (G : Transfer → Bytes → ℕ → Type 0) where
  abbrev pub OfUpload : View → Type 0
  OfUpload v = G v.upload (v.stored_bytes on) v.last_rx

  uv_write-Kept : (os : Os) (buf : Bytes) → Keeps (Kept OfUpload) (uv_write os buf)
  unfolding uv_write
  uv_write-Kept os buf = record { at = λ s h. ground arith }

  send_buffer-Kept : (os : Os) (buf : Bytes) → Keeps (Kept OfUpload) (send_buffer os buf)
  unfolding send_buffer
  send_buffer-Kept os buf = search (kept_rules, uv_write-Kept) depth 30

  send_encoded-Kept :
      (os : Os) (payload : Bytes) (head : Option Bytes)
      → Keeps (Kept OfUpload) (send_encoded os payload head)
  unfolding send_encoded
  send_encoded-Kept os payload none = search kept_rules
  send_encoded-Kept os payload (some head) = send_buffer-Kept os (head ++ payload)

  send_allocated-Kept :
      (os : Os) (type : FrameType) (req_id : ℕ) (payload : Bytes)
      → Keeps (Kept OfUpload) (send_allocated os type req_id payload)
  unfolding send_allocated
  send_allocated-Kept os type req_id payload = search (kept_rules, send_encoded-Kept) depth 30

  pub sends-OfUpload :
      (os : Os) (type : FrameType) (req_id : ℕ) (payload : Bytes)
      → Keeps (Kept OfUpload) (session_send_frame os type req_id payload)
  unfolding session_send_frame
  sends-OfUpload os type req_id payload = search (kept_rules, send_allocated-Kept) depth 30

-- An active upload and the content of its file.
pub record IsStored (active : Bool) (offset total_size : ℕ) (content : Bytes) : Type 0 where
  pub is_active : active ≡ true
  pub all_stored : length content ≡ offset
  pub in_size : offset ≤ total_size
  pub in_file : offset < 2 ^ 63

-- An upload that has not started.
pub record IsFresh (active : Bool) (offset : ℕ) : Type 0 where
  pub inactive : active ≡ false
  pub at_start : offset ≡ 0

abbrev pub IsUpTo : Transfer → Bytes → Type 0
IsUpTo u content = IsFresh u.active u.offset ⊎ IsStored u.active u.offset u.total_size content

abbrev pub UpTo : Os → View → Type 0
UpTo os = OfUpload os (λ u content last_rx. IsUpTo u content)

abbrev pub Fresh : Os → View → Type 0
Fresh os = OfUpload os (λ u content last_rx. IsFresh u.active u.offset)

-- The same, where its file was just opened.
abbrev Opened : Os → View → Type 0
Opened os = OfUpload os (λ u content last_rx. IsFresh u.active u.offset × (content ≡ []))

-- The offset of a file is a signed integer of 64 bits.
pub record StoresBelowLimit (os : Os) : Type 0 where
  pub below :
      (t : Trace) (fd : ℤ) (b : Bytes) (o : ℕ)
      → is_neg (os.write_result t fd b o) ≡ false
      → pos_part (os.write_result t fd b o) ≡ length b
      → o + length b < 2 ^ 63

pub write_at-end : (content b : Bytes) → write_at (length content) b content ≡ content ++ b
write_at-end content b =
    rw (take-all content, drop-all (length content + length b) content (omega arith), append-nil b)
      refl

-- A write that took all its bytes.
pub taken_of-all :
    (rc : ℤ) (b : Bytes) → (is_neg rc || not (pos_part rc == length b)) ≡ false → taken_of rc b ≡ b
taken_of-all rc b good =
    let fine : is_neg rc ≡ false = ground arith in
    let all : pos_part rc ≡ length b = ground arith in rw (fine, all) (take-all b)

pub abort-Fresh :
    (os : Os) (P : State → Type 0) → Leads P (Kept (Fresh os)) (transfer_abort_slot upload_slot)
unfolding transfer_abort_slot transfer_reset put_transfer ◌>>=◌
abort-Fresh os P = record { at = λ s h. record { inactive = refl; at_start = refl } }

pub aborts-UpTo : (os : Os) → Keeps (Kept (UpTo os)) (transfer_abort_slot upload_slot)
aborts-UpTo os = record { at = λ s h. inl ((abort-Fresh os (Kept (UpTo os))).at s h) }

pub resets-UpTo : (os : Os) → Keeps (Kept (UpTo os)) (transfer_reset upload_slot)
unfolding transfer_reset put_transfer modify
resets-UpTo os = record { at = λ s h. inl (record { inactive = refl; at_start = refl }) }

pub sends-UpTo :
    (on os : Os) (type : FrameType) (req_id : ℕ) (payload : Bytes)
    → Keeps (Kept (UpTo on)) (session_send_frame os type req_id payload)
sends-UpTo on = sends-OfUpload on (λ u content last_rx. IsUpTo u content)

pub ruleset stored_rules = (kept_rules, sends-UpTo, aborts-UpTo, resets-UpTo)

-- Where the upload has not started, what keeps `UpTo` leads to it.
pub from_Fresh :
    {A : Type 0} (os : Os) (m : Action A)
    → Keeps (Kept (UpTo os)) m
    → Leads (Kept (Fresh os)) (Kept (UpTo os)) m
from_Fresh os m k = Leads-Keeps (Kept (Fresh os)) (Kept (UpTo os)) m (λ s h. inl h) k

module _ (os : Os) (req_id : ℕ) where
  copy_paths-Fresh : (path tmp_path : Bytes) → Keeps (Kept (Fresh os)) (copy_paths os path tmp_path)
  unfolding copy_paths
  copy_paths-Fresh path tmp_path = search kept_rules depth 30

  restart-Fresh :
      (o : Bool) (size : ℕ)
      → Keeps (Kept (Fresh os)) (
          set_upload (λ t. record t {
            overwrite = o;
            mode = mode_upload;
            req_id = req_id;
            total_size = size;
            offset = 0;
          }))
  unfolding modify
  restart-Fresh o size = record { at = λ s h. record { inactive = h.inactive; at_start = refl } }

  open-Opened :
      (tmp_path : Bytes) (answer : Trace → ℤ)
      → Leads
          (Kept (Fresh os))
          (Kept (Opened os))
          (call (fs_open tmp_path creat_trunc_wronly) answer)
  unfolding call
  open-Opened tmp_path answer = record { at = λ s h. (h, refl) }

  start-UpTo :
      (fd : ℤ)
      → Leads
          (Kept (Opened os))
          (Kept (UpTo os))
          (set_upload (λ t. record t { file = fd; active = true }))
  unfolding modify
  start-UpTo fd = record {
    at = λ s h. inr (record {
      is_active = refl;
      all_stored = ap length h.1 ∙ sym h.0.at_start;
      in_size = omega (arith, h.0.at_start);
      in_file = omega (arith, h.0.at_start);
    });
  }

  put_begin_open-UpTo :
      (path tmp_path : Bytes) (size : ℕ)
      → Leads (Kept (Fresh os)) (Kept (UpTo os)) (put_begin_open os req_id path tmp_path size)
  unfolding put_begin_open
  put_begin_open-UpTo path tmp_path size =
      Leads-bind (Kept (Fresh os)) (Kept (UpTo os)) (Kept (Opened os)) _ _ (open-Opened tmp_path _)
        (λ rc.
          Leads-if (Kept (Opened os)) (Kept (UpTo os)) (is_neg rc) _ _
            (λ e.
              Leads-Keeps (Kept (Opened os)) (Kept (UpTo os)) _ (λ s h. inl h.0)
                (search stored_rules depth 30))
            (λ e.
              Leads-bind (Kept (Opened os)) (Kept (UpTo os)) (Kept (UpTo os)) _ _ (start-UpTo rc)
                (λ _.
                  Leads-Keeps (Kept (UpTo os)) (Kept (UpTo os)) _ (λ s h. h)
                    (search stored_rules depth 30))))

  pub put_begin_with-UpTo :
      (payload path : Bytes) (size : ℕ)
      → Leads (Kept (Fresh os)) (Kept (UpTo os)) (put_begin_with os req_id payload path size)
  unfolding put_begin_with
  put_begin_with-UpTo payload path size =
      search
        (
          kept_rules, sends-UpTo, aborts-UpTo, copy_paths-Fresh, restart-Fresh, put_begin_open-UpTo,
          from_Fresh, Leads-then, Leads-if, Leads-option,
        )
        depth 40

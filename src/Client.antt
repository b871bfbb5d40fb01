-- ===== src/Client.antt =====
-- tests/host_client/client.c: a client of the server that uploads one file.
pub mod Sent
pub mod Wires
pub mod Uploaded
pub mod Closed
pub mod Answered
pub mod Working
pub mod Succeeds
use reactos_luagent.Base.{
  ℕ, zero, suc, ◌+◌, ◌-◌, ◌*◌, ◌<◌, ◌≤◌, Bool, true, false, ltb, ◌==◌, if◌then◌else◌, List, [], ◌∷◌,
  ◌++◌, Bytes, codes, bytes_eq, length, get_or, take, drop, Option, none, some, not,
}
use reactos_luagent.Libc.{decimal, to_u32}
use reactos_luagent.Frame.{magic, magic_size, read_u32le, write_u32le, frame_header_size}

-- The bytes that the connection took and gave so far.
pub record Wire : Type 0 where
  pub sent : Bytes
  pub received : Bytes

-- The sockets: how many bytes of a buffer `send` takes after those before, none where it fails; and what
-- `recv` gives for a size after what it gave before, nothing where it fails or the server has closed.
-- `calloc` as a function of what was received.
pub record Network : Type 0 where
  pub send : Bytes → Bytes → ℕ
  pub recv : Bytes → ℕ → Bytes
  pub calloc : Bytes → ℕ → Bool

-- Each function of the client returns a value, or ends in its error code.
pub data Result (A : Type 0) : Type 0 where
  ok : A → Wire → Result A
  failed : Wire → Result A

abbrev pub Client : Type 0 → Type 0
Client A = Wire → Result A

abbrev pub return : {A : Type 0} → A → Client A
return a w = ok a w

abbrev pub fail : {A : Type 0} → Client A
fail w = failed w

unfoldable pub bind : {A B : Type 0} → Result A → (A → Client B) → Result B
bind (ok a w) f = f a w
bind (failed w) f = failed w

infixl 5 ◌>>=◌ ◌>>◌
unfoldable pub ◌>>=◌ : {A B : Type 0} → Client A → (A → Client B) → Client B
unfolding bind
◌>>=◌ m f w = bind (m w) f

abbrev pub ◌>>◌ : {A B : Type 0} → Client A → Client B → Client B
m >> k = m >>= λ _. k

abbrev pub when : Bool → Client Unit → Client Unit
when c m = if c then m else return tt

-- The client's own `read_u32le` and `write_u32le` are those of src/frame.c.
abbrev pub header : ℕ → ℕ → ℕ → Bytes
header type req_id payload_len =
    magic ++ type ∷ 0 ∷ (write_u32le req_id ++ write_u32le (to_u32 payload_len))

-- What `recv_frame` stores.
pub record Reply : Type 0 where
  pub type : ℕ
  pub req_id : ℕ
  pub payload : Bytes

-- FRAME_ERROR, FRAME_PUT_BEGIN, FRAME_PUT_CHUNK, FRAME_PUT_END
abbrev pub frame_error : ℕ
frame_error = 3

abbrev pub frame_put_begin : ℕ
frame_put_begin = 20

abbrev pub frame_put_chunk : ℕ
frame_put_chunk = 21

abbrev pub frame_put_end : ℕ
frame_put_end = 22

abbrev pub req_id : ℕ
req_id = 100

-- `begin_payload` for a path without a NUL: its 1024 bytes end with one.
abbrev pub begin_text : Bytes → ℕ → Bytes
begin_text path file_size =
    codes "path=" ++ path ++ codes "\nsize=" ++ decimal file_size ++ codes "\noverwrite=1"

abbrev pub begin_payload : Bytes → ℕ → Bytes
begin_payload path file_size = take 1023 (begin_text path file_size)

-- `rc` of `send`, and the loop after it.
unfoldable pub sent_some : ℕ → Bytes → Client Unit → Client Unit
sent_some zero p more w = failed w
sent_some (suc k) p more w = more (record w { sent = w.sent ++ take (suc k) p })

-- What `recv` gave, and the loop after it.
unfoldable pub received_some : Bytes → Client Bytes → Client Bytes
received_some [] more w = failed w
received_some (c ∷ cs) more w = more (record w { received = w.received ++ (c ∷ cs) })

module _ (net : Network) where
  -- The loop runs once for each byte at most, since each round but the last takes some.
  unfoldable pub send_loop : ℕ → Bytes → Client Unit
  send_loop zero p w = ok tt w
  send_loop (suc n) [] w = ok tt w
  send_loop (suc n) (c ∷ cs) w =
      let rc = net.send w.sent (c ∷ cs) in sent_some rc (c ∷ cs) (send_loop n (drop rc (c ∷ cs))) w

  abbrev pub send_all : Bytes → Client Unit
  send_all buf = send_loop (length buf) buf

  -- `got` is what stands in the buffer, `len` what is still wanted.
  unfoldable pub recv_loop : ℕ → ℕ → Bytes → Client Bytes
  recv_loop n zero got w = ok got w
  recv_loop zero (suc len) got w = ok got w
  recv_loop (suc n) (suc len) got w =
      let more = net.recv w.received (suc len) in
      received_some more (recv_loop n (suc len - length more) (got ++ more)) w

  abbrev pub recv_all : ℕ → Client Bytes
  recv_all len = recv_loop len len []

  unfoldable pub send_frame : ℕ → ℕ → Bytes → Client Unit
  send_frame type req_id payload = do
    send_all (header type req_id (length payload))
    when (ltb 0 (length payload)) (send_all payload)

  unfoldable pub recv_payload : Bytes → ℕ → Client Reply
  recv_payload hdr payload_len = do
    when (ltb (1024 * 1024) payload_len) fail
    (λ w. when (not (net.calloc w.received (payload_len + 1))) fail w)
    payload ← if ltb 0 payload_len then recv_all payload_len else return []
    return record { type = get_or hdr 4 0; req_id = read_u32le (drop 6 hdr); payload = payload }

  unfoldable pub recv_frame : Client Reply
  recv_frame = do
    hdr ← recv_all frame_header_size
    when (not (bytes_eq (take magic_size hdr) magic)) fail
    recv_payload hdr (read_u32le (drop 10 hdr))

  unfoldable pub await_reply : Client Unit
  await_reply = do reply ← recv_frame; when (reply.type == frame_error) fail

  -- What `fread` gives call by call, a full chunk of 4096 bytes or what was left, and what `ferror` says
  -- after the last.
  unfoldable pub put_chunks : Bool → List Bytes → Client Unit
  put_chunks ferror [] = when ferror fail
  put_chunks ferror (got ∷ reads) = do
    when (ltb 0 (length got)) (send_frame frame_put_chunk req_id got)
    if ltb (length got) 4096 then when ferror fail else put_chunks ferror reads

  -- `main` from the connection on.
  unfoldable pub upload : Bytes → ℕ → Bool → List Bytes → Client Unit
  upload path file_size ferror reads = do
    send_frame frame_put_begin req_id (begin_payload path file_size)
    await_reply
    put_chunks ferror reads
    send_frame frame_put_end req_id []
    await_reply

pub data Event : Type 0 where
  fopen fclose socket close_socket freeaddrinfo : Event

-- For each address of the host, whether a socket is made for it, and whether it connects.
unfoldable pub connect_loop : List (Bool × Bool) → Bool × List Event
connect_loop [] = (false, freeaddrinfo ∷ [])
connect_loop ((false, connects) ∷ it) = connect_loop it
connect_loop ((true, true) ∷ it) = (true, socket ∷ freeaddrinfo ∷ [])
connect_loop ((true, false) ∷ it) =
    let (connected, events) = connect_loop it in (connected, socket ∷ close_socket ∷ events)

-- `none` where `getaddrinfo` fails.
unfoldable pub connect_tcp : Option (List (Bool × Bool)) → Bool × List Event
connect_tcp none = (false, [])
connect_tcp (some addresses) = connect_loop addresses

-- What the system gives a run: the arguments, whether the file opens, its size if it can be told, the
-- addresses, and what is read from the file.
pub record Run : Type 0 where
  pub argc : ℕ
  pub path : Bytes
  pub opens : Bool
  pub file_size : Option ℕ
  pub addresses : Option (List (Bool × Bool))
  pub ferror : Bool
  pub reads : List Bytes

abbrev pub exit_code : {A : Type 0} → Result A → ℕ
exit_code (ok a w) = 0
exit_code (failed w) = 1

-- The exit code, and what was opened and closed.
unfoldable pub connected_main : Network → Run → Wire → ℕ → Bool × List Event → ℕ × List Event
connected_main net run w size (false, events) = (1, fopen ∷ (events ++ (fclose ∷ [])))
connected_main net run w size (true, events) = (
  exit_code (upload net run.path size run.ferror run.reads w),
  fopen ∷ (events ++ (fclose ∷ close_socket ∷ [])),
)

unfoldable pub opened_main : Network → Run → Wire → Option ℕ → ℕ × List Event
opened_main net run w none = (1, fopen ∷ fclose ∷ [])
opened_main net run w (some size) = connected_main net run w size (connect_tcp run.addresses)

unfoldable pub main : Network → Run → Wire → ℕ × List Event
main net run w =
    if not (run.argc == 5)
    then (2, [])
    else if not run.opens
    then (1, [])
    else opened_main net run w run.file_size

-- ===== src/Client/Succeeds.antt =====
-- A run of tests/host_client/client.c that goes well.
use reactos_luagent.Base.{
  ℕ, ◌*◌, ◌^◌, ◌<◌, ◌≤◌, ◌≡◌, ◌≢◌, refl, ap, subst, false, List, [], ◌++◌, Bytes, length, All,
}
use reactos_luagent.Client.{
  Wire, Network, Result, ok, failed, Reply, header, frame_error, frame_put_begin, frame_put_end,
  begin_payload, send_frame, put_chunks, upload, await_reply, req_id,
}
use reactos_luagent.Client.Sent.{Writes}
use reactos_luagent.Client.Wires.{Decodes}
use reactos_luagent.Client.Uploaded.{IsRead, joined, IsChunk, upload_frames, upload_sends}
use reactos_luagent.Client.Working.{Works, Returns, Returns-then}
use reactos_luagent.Client.Answered.{
  Left, await_reply-Returns, send_frame-Returns, put_chunks-Returns,
}

-- A reply of the server that is no error.
pub record IsAccepted (r : Reply) : Type 0 where
  pub req_id_u32 : r.req_id < 2 ^ 32
  pub fits : length r.payload ≤ 1024 * 1024
  pub no_error : r.type ≢ frame_error

abbrev pub replied : Reply → Bytes
replied r = header r.type r.req_id (length r.payload) ++ r.payload

abbrev pub answers : Reply → Reply → Bytes
answers first last = replied first ++ (replied last ++ [])

module _ (net : Network) (first last : Reply) (a : IsAccepted first) (b : IsAccepted last) where
  module _ (works : Works net (answers first last)) where
    upload-Returns :
        (path : Bytes) (size : ℕ) (reads : List Bytes) (w : Wire)
        → w.received ≡ []
        → Returns (Left net (answers first last) works []) (upload net path size false reads w)
    unfolding upload
    upload-Returns path size reads w fresh =
        let more = replied last ++ [] in
        let all = Left net (answers first last) works (answers first last) in
        let later = Left net (answers first last) works more in
        let none_left = Left net (answers first last) works [] in
        let payload = begin_payload path size in
        Returns-then all none_left w (send_frame net frame_put_begin req_id payload) _
          (send_frame-Returns net (answers first last) works frame_put_begin req_id payload
            (answers first last) w (ap (λ x. x ++ answers first last) fresh))
          (λ u1 w1 at1.
            Returns-then later none_left w1 (await_reply net) _
              (await_reply-Returns net (answers first last) works first.type first.req_id
                first.payload more w1 a.req_id_u32 a.fits a.no_error at1)
              (λ u2 w2 at2.
                Returns-then later none_left w2 (put_chunks net false reads) _
                  (put_chunks-Returns net (answers first last) works reads more w2 at2)
                  (λ u3 w3 at3.
                    Returns-then later none_left w3 (send_frame net frame_put_end req_id []) _
                      (send_frame-Returns net (answers first last) works frame_put_end req_id []
                        more w3 at3)
                      (λ u4 w4 at4.
                        await_reply-Returns net (answers first last) works last.type last.req_id
                          last.payload [] w4 b.req_id_u32 b.fits b.no_error at4))))

is_ok : (P : Unit → Wire → Type 0) (r : Result Unit) → Returns P r → (w : Wire) × (r ≡ ok tt w)
is_ok P (ok u w) h = (w, refl)
is_ok P (failed w) h = absurd h

-- Over a network that works, against a server whose two answers are replies and no errors, the client
-- uploads a file without an error: what it has sent is the frames of the upload, its chunks joined are
-- the file, and `frame_decode_header` of the server reads these frames and nothing else.
pub upload_succeeds :
    (net : Network) (first last : Reply) (path : Bytes) (size : ℕ) (content : Bytes)
    (reads : List Bytes) (w : Wire)
    → IsAccepted first
    → IsAccepted last
    → Works net (answers first last)
    → IsRead content reads
    → w.received ≡ []
    → (w' : Wire) × (upload net path size false reads w ≡ ok tt w')
      × (chunks : List Bytes) × (joined chunks ≡ content)
      × All IsChunk chunks
      × (out : Bytes) × Decodes out (upload_frames path size chunks)
      × (w'.sent ≡ w.sent ++ out)
upload_succeeds net first last path size content reads w a b works h fresh =
    let (w', e) =
      is_ok _ (upload net path size false reads w)
        (upload-Returns net first last a b works path size reads w fresh) in
    let (chunks, whole, each, out, decodes, written) =
      upload_sends net path size false content reads w h in
    (w', e, chunks, whole, each, out, decodes, subst (λ r. Writes out w r) e written)

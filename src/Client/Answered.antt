-- ===== src/Client/Answered.antt =====
-- The functions of tests/host_client/client.c over a network that works.
use reactos_luagent.Base.{
  ℕ, zero, suc, ◌+◌, ◌-◌, ◌*◌, ◌^◌, ◌<◌, ◌≤◌, ◌≡◌, ◌≢◌, drop-drop, refl, sym, ap, subst, ◌∙◌, Bool,
  true, false, not, ltb, ◌==◌, if◌then◌else◌, List, [], ◌∷◌, ◌++◌, Bytes, bytes_eq, length,
  length-drop, length-take, length-append, take, drop, drop-append, take-append-drop, take-add,
  take-append, append_assoc, append-nil, arith, get_or,
}
use reactos_luagent.Frame.{magic, magic_size, read_u32le, frame_header_size}
use reactos_luagent.Client.Wires.{length-header}
use reactos_luagent.Client.{
  Wire, Network, Result, Client, return, fail, when, send_loop, sent_some, send_all, recv_loop,
  received_some, recv_all, header, send_frame, Reply, recv_payload, recv_frame, await_reply,
  frame_error, put_chunks, frame_put_chunk, req_id,
}
use reactos_luagent.Client.Working.{
  Returns, Returns-then, Works, check-Returns, header_length, header_req_id,
}

module _ (net : Network) (answers : Bytes) (works : Works net answers) where
  -- What the server has answered and is still to be received.
  abbrev pub Left : {A : Type 0} → Bytes → A → Wire → Type 0
  Left rest a w = w.received ++ rest ≡ answers

  sent_some-Returns :
      (k : ℕ) (p rest : Bytes) (more : Client Unit) (w : Wire)
      → 0 < k
      → w.received ++ rest ≡ answers
      → ((w' : Wire) → w'.received ++ rest ≡ answers → Returns (Left rest) (more w'))
      → Returns (Left rest) (sent_some k p more w)
  unfolding sent_some
  sent_some-Returns zero p rest more w h at left = absurd (omega arith)
  sent_some-Returns (suc k) p rest more w h at left =
      left (record w { sent = w.sent ++ take (suc k) p }) at

  send_loop-Returns :
      (n : ℕ) (p rest : Bytes) (w : Wire)
      → w.received ++ rest ≡ answers
      → Returns (Left rest) (send_loop net n p w)
  unfolding send_loop
  send_loop-Returns zero p rest w at = at
  send_loop-Returns (suc n) [] rest w at = at
  send_loop-Returns (suc n) (c ∷ cs) rest w at =
      let rc = net.send w.sent (c ∷ cs) in
      sent_some-Returns rc (c ∷ cs) rest (send_loop net n (drop rc (c ∷ cs))) w
        (works.sends w.sent c cs) at (λ w' at'. send_loop-Returns n (drop rc (c ∷ cs)) rest w' at')

  -- The bytes that were wanted, and what is left after them.
  abbrev pub Got : Bytes → Bytes → Bytes → Wire → Type 0
  Got bs rest a w = (a ≡ bs) × (w.received ++ rest ≡ answers)

  received_some-Returns :
      (more bs rest after : Bytes) (next : Client Bytes) (w : Wire)
      → 0 < length more
      → w.received ++ (more ++ rest) ≡ answers
      → ((w' : Wire) → w'.received ++ rest ≡ answers → Returns (Got bs after) (next w'))
      → Returns (Got bs after) (received_some more next w)
  unfolding received_some
  received_some-Returns [] bs rest after next w h at left = absurd (omega arith)
  received_some-Returns (c ∷ cs) bs rest after next w h at left =
      left (record w { received = w.received ++ (c ∷ cs) })
        (append_assoc w.received (c ∷ cs) rest ∙ at)

  Got-eq :
      (bs bs' after after' : Bytes) (r : Result Bytes)
      → bs ≡ bs'
      → after ≡ after'
      → Returns (Got bs after) r
      → Returns (Got bs' after') r
  Got-eq bs bs' after after' r e f got =
      subst (λ x. Returns (Got bs' x) r) f (subst (λ x. Returns (Got x after) r) e got)

  taken_on :
      (k m n : ℕ) (got rest : Bytes)
      → k + m ≡ n
      → (got ++ take k rest) ++ take m (drop k rest) ≡ got ++ take n rest
  taken_on k m n got rest e =
      append_assoc got (take k rest) (take m (drop k rest))
      ∙ ap (λ x. got ++ x) (sym (take-add k m rest) ∙ ap (λ x. take x rest) e)

  recv_loop-Returns :
      (n len : ℕ) (got rest : Bytes) (w : Wire)
      → len ≤ n
      → len ≤ length rest
      → w.received ++ rest ≡ answers
      → Returns (Got (got ++ take len rest) (drop len rest)) (recv_loop net n len got w)
  unfolding recv_loop
  recv_loop-Returns n zero got rest w h room at = (sym (append-nil got), at)
  recv_loop-Returns zero (suc len) got rest w h room at = absurd (omega arith)
  recv_loop-Returns (suc n) (suc len) got rest w h room at =
      let (k, some, few, e) = works.answered w.received rest (suc len) at (omega arith) room in
      rw e (
        received_some-Returns (take k rest) (got ++ take (suc len) rest) (drop k rest)
          (drop (suc len) rest)
          (recv_loop net n (suc len - length (take k rest)) (got ++ take k rest)) w
          (omega (arith, length-take k rest, some, few, room))
          (ap (λ x. w.received ++ x) (take-append-drop k rest) ∙ at)
          (λ w' at'.
            let m = suc len - length (take k rest) in
            let split : k + m ≡ suc len = omega (arith, length-take k rest, few, room) in
            Got-eq _ _ _ _ (recv_loop net n m (got ++ take k rest) w')
              (taken_on k m (suc len) got rest split)
              (sym (drop-drop k m rest) ∙ ap (λ x. drop x rest) split)
              (recv_loop-Returns n m (got ++ take k rest) (drop k rest) w'
                (omega (arith, split, some, h)) (omega (arith, split, length-drop k rest, room))
                at')))

  recv_all-Returns :
      (xs rest : Bytes) (n : ℕ) (w : Wire)
      → length xs ≡ n
      → w.received ++ (xs ++ rest) ≡ answers
      → Returns (Got xs rest) (recv_all net n w)
  recv_all-Returns xs rest n w e at =
      Got-eq _ _ _ _ (recv_all net n w) (take-append n xs rest e) (drop-append n xs rest e) (
        recv_loop-Returns n n [] (xs ++ rest) w (omega arith)
          (omega (arith, length-append xs rest, e)) at)

  recv_rest-Returns :
      (xs rest : Bytes) (w : Wire)
      → w.received ++ (xs ++ rest) ≡ answers
      → Returns
          (Got xs rest)
          ((if ltb 0 (length xs) then recv_all net (length xs) else return []) w)
  recv_rest-Returns [] rest w at = (refl, at)
  recv_rest-Returns (c ∷ cs) rest w at =
      let more : ltb 0 (length (c ∷ cs)) ≡ true = ground arith in
      rw more (recv_all-Returns (c ∷ cs) rest (length (c ∷ cs)) w refl at)

  -- A reply of the server, received.
  abbrev pub Replied : Reply → Bytes → Reply → Wire → Type 0
  Replied reply rest a w = (a ≡ reply) × (w.received ++ rest ≡ answers)

  recv_payload-Returns :
      (type id : ℕ) (hdr payload rest : Bytes) (w : Wire)
      → length payload ≤ 1024 * 1024
      → get_or hdr 4 0 ≡ type
      → read_u32le (drop 6 hdr) ≡ id
      → w.received ++ (payload ++ rest) ≡ answers
      → Returns
          (Replied (record { type = type; req_id = id; payload = payload }) rest)
          (recv_payload net hdr (length payload) w)
  unfolding recv_payload
  recv_payload-Returns type id hdr payload rest w small t i at =
      let r : Reply = record { type = type; req_id = id; payload = payload } in
      Returns-then (Left (payload ++ rest)) (Replied r rest) w
        (when (ltb (1024 * 1024) (length payload)) fail) _
        (check-Returns (Left (payload ++ rest)) (ltb (1024 * 1024) (length payload)) w
          (ground (arith, small)) at)
        (λ a w1 at1.
          Returns-then (Left (payload ++ rest)) (Replied r rest) w1
            (λ w'. when (not (net.calloc w'.received (length payload + 1))) fail w') _
            (check-Returns (Left (payload ++ rest))
              (not (net.calloc w1.received (length payload + 1))) w1
              (ap (λ b. not b) (works.allocates w1.received (length payload + 1))) at1)
            (λ b w2 at2.
              Returns-then (Got payload rest) (Replied r rest) w2 _ _
                (recv_rest-Returns payload rest w2 at2)
                (λ p w3 got. rw (t, i, got.0) (refl, got.1))))

  recv_frame-Returns :
      (type id : ℕ) (payload rest : Bytes) (w : Wire)
      → id < 2 ^ 32
      → length payload ≤ 1024 * 1024
      → w.received ++ ((header type id (length payload) ++ payload) ++ rest) ≡ answers
      → Returns
          (Replied (record { type = type; req_id = id; payload = payload }) rest)
          (recv_frame net w)
  unfolding recv_frame
  recv_frame-Returns type id payload rest w id_u32 small at =
      let hdr = header type id (length payload) in
      let r : Reply = record { type = type; req_id = id; payload = payload } in
      Returns-then (Got hdr (payload ++ rest)) (Replied r rest) w (recv_all net frame_header_size) _
        (recv_all-Returns hdr (payload ++ rest) frame_header_size w
          (length-header type id (length payload))
          (ap (λ x. w.received ++ x) (sym (append_assoc hdr payload rest)) ∙ at))
        (λ a w1 got. rw got.0 (
          Returns-then (Left (payload ++ rest)) (Replied r rest) w1
            (when (not (bytes_eq (take magic_size hdr) magic)) fail) _
            (check-Returns (Left (payload ++ rest)) (not (bytes_eq (take magic_size hdr) magic)) w1
              refl got.1)
            (λ b w2 at2.
              subst (λ n. Returns (Replied r rest) (recv_payload net hdr n w2))
                (sym (header_length type id (length payload) (omega (arith, small))))
                (recv_payload-Returns type id hdr payload rest w2 small refl
                  (header_req_id type id (length payload) id_u32) at2))))

  pub await_reply-Returns :
      (type id : ℕ) (payload rest : Bytes) (w : Wire)
      → id < 2 ^ 32
      → length payload ≤ 1024 * 1024
      → type ≢ frame_error
      → w.received ++ ((header type id (length payload) ++ payload) ++ rest) ≡ answers
      → Returns (Left rest) (await_reply net w)
  unfolding await_reply
  await_reply-Returns type id payload rest w id_u32 small no_error at =
      let r : Reply = record { type = type; req_id = id; payload = payload } in
      Returns-then (Replied r rest) (Left rest) w (recv_frame net) _
        (recv_frame-Returns type id payload rest w id_u32 small at)
        (λ a w1 replied.
          check-Returns (Left rest) (a.type == frame_error) w1
            (ap (λ x. x.type == frame_error) replied.0 ∙ ground (arith, no_error)) replied.1)

  send_all-Returns :
      (p rest : Bytes) (w : Wire)
      → w.received ++ rest ≡ answers
      → Returns (Left rest) (send_all net p w)
  send_all-Returns p rest w at = send_loop-Returns (length p) p rest w at

  send_some-Returns :
      (c : Bool) (m : Client Unit) (rest : Bytes) (w : Wire)
      → w.received ++ rest ≡ answers
      → Returns (Left rest) (m w)
      → Returns (Left rest) (when c m w)
  send_some-Returns true m rest w at returns = returns
  send_some-Returns false m rest w at returns = at

  pub send_frame-Returns :
      (type id : ℕ) (payload rest : Bytes) (w : Wire)
      → w.received ++ rest ≡ answers
      → Returns (Left rest) (send_frame net type id payload w)
  unfolding send_frame
  send_frame-Returns type id payload rest w at =
      Returns-then (Left rest) (Left rest) w (send_all net (header type id (length payload))) _
        (send_all-Returns (header type id (length payload)) rest w at)
        (λ a w1 at1.
          send_some-Returns (ltb 0 (length payload)) (send_all net payload) rest w1 at1
            (send_all-Returns payload rest w1 at1))

  pub put_chunks-Returns :
      (reads : List Bytes) (rest : Bytes) (w : Wire)
      → w.received ++ rest ≡ answers
      → Returns (Left rest) (put_chunks net false reads w)
  unfolding put_chunks
  put_chunks-Returns [] rest w at = at
  put_chunks-Returns (got ∷ reads) rest w at =
      Returns-then (Left rest) (Left rest) w
        (when (ltb 0 (length got)) (send_frame net frame_put_chunk req_id got)) _
        (send_some-Returns (ltb 0 (length got)) (send_frame net frame_put_chunk req_id got) rest w
          at (send_frame-Returns frame_put_chunk req_id got rest w at))
        (λ a w1 at1.
          ends (ltb (length got) 4096) (put_chunks net false reads) rest w1 at1
            (put_chunks-Returns reads rest w1 at1))
    where
      ends :
          (c : Bool) (m : Client Unit) (rest : Bytes) (w : Wire)
          → w.received ++ rest ≡ answers
          → Returns (Left rest) (m w)
          → Returns (Left rest) ((if c then when false fail else m) w)
      ends true m rest w at returns = at
      ends false m rest w at returns = returns

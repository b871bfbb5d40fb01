-- ===== src/Client/Sent.antt =====
-- What the functions of tests/host_client/client.c send, whatever the network answers.
use reactos_luagent.Base.{
  ℕ, zero, suc, ◌+◌, ◌-◌, ◌*◌, ◌==◌, not, bytes_eq, subst, ◌<◌, ◌≤◌, ◌≡◌, refl, sym, ap, ◌∙◌, Bool,
  true, false, ltb, [], ◌∷◌, ◌++◌, Bytes, length, length-drop, take, drop, take-append-drop,
  append_assoc, append-nil, arith, if◌then◌else◌,
}
use reactos_luagent.Frame.{magic, magic_size, read_u32le}
use reactos_luagent.Client.{
  sent_some, received_some, Wire, Network, Result, ok, failed, Client, return, fail, bind, when,
  send_loop, send_all, recv_loop, recv_all, header, send_frame, recv_payload, recv_frame,
  await_reply, req_id, ◌>>=◌,
}

-- A call that returns has sent `bs`, and one that fails a first part of them.
abbrev pub Writes : {A : Type 0} → Bytes → Wire → Result A → Type 0
Writes bs w (ok a w') = w'.sent ≡ w.sent ++ bs
Writes bs w (failed w') = (rest : Bytes) × (w'.sent ++ rest ≡ w.sent ++ bs)

pub Writes-nothing : (A : Type 0) (w : Wire) → Writes {A = A} [] w (failed w)
Writes-nothing A w = ([], refl)

-- After the first part, the second.
Writes-after :
    {B : Type 0}
    → (xs ys : Bytes) (w w' : Wire) (r : Result B) → w'.sent ≡ w.sent ++ xs
    → Writes ys w' r
    → Writes (xs ++ ys) w r
Writes-after xs ys w w' (ok b w'') before after =
    after ∙ ap (λ s. s ++ ys) before ∙ append_assoc w.sent xs ys
Writes-after xs ys w w' (failed w'') before (rest, after) =
    (rest, after ∙ ap (λ s. s ++ ys) before ∙ append_assoc w.sent xs ys)

Writes-bind :
    {A B : Type 0}
    → (xs ys : Bytes) (w : Wire) (r : Result A) (f : A → Client B) → Writes xs w r
    → ((a : A) (w' : Wire) → Writes ys w' (f a w'))
    → Writes (xs ++ ys) w (bind r f)
unfolding bind
Writes-bind xs ys w (ok a w') f first second = Writes-after xs ys w w' (f a w') first (second a w')
Writes-bind xs ys w (failed w') f (rest, first) second = (
  rest ++ ys,
  sym (append_assoc w'.sent rest ys) ∙ ap (λ s. s ++ ys) first ∙ append_assoc w.sent xs ys,
)

pub Writes-then :
    {A B : Type 0}
    → (xs ys : Bytes) (w : Wire) (m : Client A) (f : A → Client B) → Writes xs w (m w)
    → ((a : A) (w' : Wire) → Writes ys w' (f a w'))
    → Writes (xs ++ ys) w ((m >>= f) w)
unfolding ◌>>=◌
Writes-then xs ys w m f first second = Writes-bind xs ys w (m w) f first second

-- A test that ends the run where it fails, and sends nothing.
pub check-Writes : (c : Bool) (w : Wire) → Writes [] w (when c fail w)
check-Writes true w = Writes-nothing Unit w
check-Writes false w = sym (append-nil w.sent)

-- The network takes some bytes of a buffer, and what is left is sent.
sent_some-Writes :
    (k : ℕ) (p : Bytes) (more : Client Unit) (w : Wire)
    → (0 < k → (w' : Wire) → Writes (drop k p) w' (more w'))
    → Writes p w (sent_some k p more w)
unfolding sent_some
sent_some-Writes zero p more w left = (p, refl)
sent_some-Writes (suc k) p more w left =
    subst (λ x. Writes x w (more (record w { sent = w.sent ++ take (suc k) p })))
      (take-append-drop (suc k) p)
      (Writes-after (take (suc k) p) (drop (suc k) p) w
        (record w { sent = w.sent ++ take (suc k) p })
        (more (record w { sent = w.sent ++ take (suc k) p })) refl
        (left (omega arith) (record w { sent = w.sent ++ take (suc k) p })))

received_some-Writes :
    (got : Bytes) (more : Client Bytes) (w : Wire)
    → ((w' : Wire) → w'.sent ≡ w.sent → Writes [] w' (more w'))
    → Writes [] w (received_some got more w)
unfolding received_some
received_some-Writes [] more w left = Writes-nothing Bytes w
received_some-Writes (c ∷ cs) more w left =
    Writes-after [] [] w (record w { received = w.received ++ (c ∷ cs) })
      (more (record w { received = w.received ++ (c ∷ cs) })) (sym (append-nil w.sent))
      (left (record w { received = w.received ++ (c ∷ cs) }) refl)

module _ (net : Network) where
  send_loop-Writes :
      (n : ℕ) (p : Bytes) (w : Wire) → length p ≤ n → Writes p w (send_loop net n p w)
  unfolding send_loop
  send_loop-Writes zero [] w h = sym (append-nil w.sent)
  send_loop-Writes zero (c ∷ cs) w h = absurd (omega arith)
  send_loop-Writes (suc n) [] w h = sym (append-nil w.sent)
  send_loop-Writes (suc n) (c ∷ cs) w h =
      let rc = net.send w.sent (c ∷ cs) in
      sent_some-Writes rc (c ∷ cs) (send_loop net n (drop rc (c ∷ cs))) w (λ some w'.
        send_loop-Writes n (drop rc (c ∷ cs)) w' (omega (arith, length-drop rc (c ∷ cs), h, some)))

  recv_loop-Writes : (n len : ℕ) (got : Bytes) (w : Wire) → Writes [] w (recv_loop net n len got w)
  unfolding recv_loop
  recv_loop-Writes n zero got w = sym (append-nil w.sent)
  recv_loop-Writes zero (suc len) got w = sym (append-nil w.sent)
  recv_loop-Writes (suc n) (suc len) got w =
      let more = net.recv w.received (suc len) in
      received_some-Writes more (recv_loop net n (suc len - length more) (got ++ more)) w
        (λ w' same. recv_loop-Writes n (suc len - length more) (got ++ more) w')

  recv_rest-Writes :
      (c : Bool) (n : ℕ) (w : Wire) → Writes [] w ((if c then recv_all net n else return []) w)
  recv_rest-Writes true n w = recv_loop-Writes n n [] w
  recv_rest-Writes false n w = sym (append-nil w.sent)

  recv_payload-Writes : (hdr : Bytes) (n : ℕ) (w : Wire) → Writes [] w (recv_payload net hdr n w)
  unfolding recv_payload
  recv_payload-Writes hdr n w =
      Writes-then [] [] w (when (ltb (1024 * 1024) n) fail) _ (check-Writes (ltb (1024 * 1024) n) w)
        (λ a w1.
          Writes-then [] [] w1 (λ w'. when (not (net.calloc w'.received (n + 1))) fail w') _
            (check-Writes (not (net.calloc w1.received (n + 1))) w1)
            (λ b w2.
              Writes-then [] [] w2 (if ltb 0 n then recv_all net n else return []) _
                (recv_rest-Writes (ltb 0 n) n w2) (λ c w3. sym (append-nil w3.sent))))

  recv_frame-Writes : (w : Wire) → Writes [] w (recv_frame net w)
  unfolding recv_frame
  recv_frame-Writes w =
      Writes-then [] [] w (recv_all net 14) _ (recv_loop-Writes 14 14 [] w) (λ hdr w1.
        Writes-then [] [] w1 (when (not (bytes_eq (take magic_size hdr) magic)) fail) _
          (check-Writes (not (bytes_eq (take magic_size hdr) magic)) w1)
          (λ a w2. recv_payload-Writes hdr (read_u32le (drop 10 hdr)) w2))

  pub await_reply-Writes : (w : Wire) → Writes [] w (await_reply net w)
  unfolding await_reply
  await_reply-Writes w =
      Writes-then [] [] w (recv_frame net) _ (recv_frame-Writes w)
        (λ reply w1. check-Writes (reply.type == 3) w1)

  send_all-Writes : (p : Bytes) (w : Wire) → Writes p w (send_all net p w)
  send_all-Writes p w = send_loop-Writes (length p) p w (omega arith)

  send_some-Writes :
      (p : Bytes) (w : Wire) → Writes p w (when (ltb 0 (length p)) (send_all net p) w)
  send_some-Writes [] w = sym (append-nil w.sent)
  send_some-Writes (c ∷ cs) w = rw (the_length) (send_all-Writes (c ∷ cs) w)
    where
      the_length : ltb 0 (length (c ∷ cs)) ≡ true
      the_length = ground arith

  pub send_frame-Writes :
      (type req_id : ℕ) (payload : Bytes) (w : Wire)
      → Writes
          (header type req_id (length payload) ++ payload)
          w
          (send_frame net type req_id payload w)
  unfolding send_frame
  send_frame-Writes type req_id payload w =
      Writes-then (header type req_id (length payload)) payload w
        (send_all net (header type req_id (length payload))) _
        (send_all-Writes (header type req_id (length payload)) w)
        (λ a w1. send_some-Writes payload w1)

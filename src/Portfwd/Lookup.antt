-- ===== src/Portfwd/Lookup.antt =====
-- The walks over the list of relays that read it: `portfwd_close` and `portfwd_push_list`.
use reactos_luagent.Base.{
  All, ℕ, zero, suc, ◌+◌, ◌<◌, ◌==◌, ◌≡◌, refl, ap, sym, subst, ◌∙◌, if◌then◌else◌, Bool, true,
  false, List, [], ◌∷◌, length, Option, none, some, arith,
}
use reactos_luagent.Diag.{bump, relay_close}
use reactos_luagent.Portfwd.{
  Relay, Cell, freed, client_cell, relay_cell, conn_cell, World, Run, ok, put, pure, ◌>>=◌, ◌>>◌,
  get_relay, diag_count_relay_close,
}
use reactos_luagent.Portfwd.Forward.Close.{if-run}
use reactos_luagent.Portfwd.Engine.{
  Link, head_link, next_link, relay_destroy, RelayRc, relay_ok, uv_enoent, close_loop,
  portfwd_close, Row, row_of, owned_by, list_loop, portfwd_push_list,
}
use reactos_luagent.Portfwd.Listed.{Listed, links, get_relay_next}
use reactos_luagent.Portfwd.Destroy.{
  relay_destroy_lem, IsDestroyed, after_destroy, after_destroy-IsDestroyed,
}
use reactos_luagent.Portfwd.Walk.{IsOpen, test_cell}
use reactos_luagent.Portfwd.Walk.Steps.{Listed-points}
use reactos_luagent.Portfwd.Walk.Session.{IsEngine}

-- The relays that a pointer leads to.
abbrev pub Chain : World → Option ℕ → List ℕ → Type 0
Chain w p [] = p ≡ none
Chain w p (a ∷ xs) = (p ≡ some a) × (x : Relay) × (w.heap a ≡ relay_cell x) × Chain w x.next xs

Listed→Chain :
    (w : World) (it : Link) (p : Option ℕ) (xs : List ℕ)
    → links w it ≡ some p
    → Listed (links w) it xs
    → Chain w p xs
Listed→Chain w it p [] e h = ground (arith, e, h)
Listed→Chain w it p (a ∷ xs) e h =
    let (q, eq, to) = Listed-points (links w) (next_link a) xs h.1 in
    let (x, cell, n) = get_relay_next w a q eq in
    (
      ground (arith, e, h.0),
      x,
      cell,
      Listed→Chain w (next_link a) x.next xs (eq ∙ ap (λ q'. some q') (sym n)) h.1,
    )

-- The first relay that has the id.
abbrev pub find_id : World → ℕ → List ℕ → Option ℕ
find_id w relay_id [] = none
find_id w relay_id (a ∷ xs) =
    if test_cell (λ r. r.relay_id == relay_id) (w.heap a) then some a else find_id w relay_id xs

abbrev pub rows_at : World → Option ℕ → List ℕ → List Row
rows_at w session [] = []
rows_at w session (a ∷ xs) = row_at (w.heap a) (rows_at w session xs)
  where
    row_at : Cell → List Row → List Row
    row_at (relay_cell r) rows = if owned_by session r then row_of r ∷ rows else rows
    row_at freed rows = rows
    row_at client_cell rows = rows
    row_at (conn_cell k) rows = rows

list_loop_rows :
    (fuel : ℕ) (session : Option ℕ) (w : World) (p : Option ℕ) (xs : List ℕ)
    → Chain w p xs
    → length xs < fuel
    → list_loop fuel session p w ≡ ok (rows_at w session xs) w
unfolding list_loop
list_loop_rows zero session w p xs h enough = absurd (omega arith)
list_loop_rows (suc fuel) session w p [] h enough = ap (λ q. list_loop (suc fuel) session q w) h
list_loop_rows (suc fuel) session w p (a ∷ xs) h enough =
    let (e, x, cell, rest) = h in
    ap (λ q. list_loop (suc fuel) session q w) e
    ∙ grind (arith, if-run, cell, list_loop_rows fuel session w x.next xs rest (omega arith))

-- If the list of the engine has fewer relays than the bound, then the table for Lua has a row
-- for each relay of the session, in the order of the list.
pub portfwd_push_list_rows :
    (bound : ℕ) (session : Option ℕ) (w : World) (xs : List ℕ)
    → Listed (links w) head_link xs
    → length xs < bound
    → portfwd_push_list bound session w ≡ ok (rows_at w session xs) w
unfolding portfwd_push_list
portfwd_push_list_rows bound session w xs h room =
    list_loop_rows (bound + 1) session w w.relays xs (Listed→Chain w head_link w.relays xs refl h)
      (omega arith)

-- What `portfwd_close` does with a relay that it found.
abbrev close_found : ℕ → ℕ → World → Run RelayRc
close_found bound a = do
  r ← get_relay a
  diag_count_relay_close r.owner
  relay_destroy bound a
  pure relay_ok

abbrev close_result : ℕ → World → Option ℕ → Run RelayRc
close_result bound w none = ok uv_enoent w
close_result bound w (some a) = close_found bound a w

close_loop_finds :
    (bound fuel relay_id : ℕ) (w : World) (p : Option ℕ) (xs : List ℕ)
    → Chain w p xs
    → length xs < fuel
    → close_loop bound fuel relay_id p w ≡ close_result bound w (find_id w relay_id xs)
unfolding close_loop
close_loop_finds bound zero relay_id w p xs h enough = absurd (omega arith)
close_loop_finds bound (suc fuel) relay_id w p [] h enough =
    ap (λ q. close_loop bound (suc fuel) relay_id q w) h
close_loop_finds bound (suc fuel) relay_id w p (a ∷ xs) h enough =
    let (e, x, cell, rest) = h in
    ap (λ q. close_loop bound (suc fuel) relay_id q w) e
    ∙ grind
        (arith, if-run, cell, close_loop_finds bound fuel relay_id w x.next xs rest (omega arith))

find_id-IsOpen :
    (w : World) (relay_id a : ℕ) (xs : List ℕ)
    → All (IsOpen w) xs
    → find_id w relay_id xs ≡ some a
    → IsOpen w a
find_id-IsOpen w relay_id a [] h e = absurd (ground arith)
find_id-IsOpen w relay_id a (b ∷ xs) h e =
    by_test (test_cell (λ r. r.relay_id == relay_id) (w.heap b)) e
      (find_id-IsOpen w relay_id a xs h.1)
  where
    by_test :
        (t : Bool)
        → (if t then some b else find_id w relay_id xs) ≡ some a
        → (find_id w relay_id xs ≡ some a → IsOpen w a)
        → IsOpen w a
    by_test true e' rest = subst (λ c. IsOpen w c) (ground arith) h.0
    by_test false e' rest = rest e'

-- The world after `diag_count_relay_close`.
abbrev pub close_counted : ℕ → World → World
close_counted owner w = record w {
  global = bump relay_close w.global;
  counters = put w.counters owner (bump relay_close (w.counters owner));
}

close_found_lem :
    (bound : ℕ) (w : World) (a : ℕ) (xs : List ℕ) (o : IsOpen w a)
    → Listed (links w) head_link xs
    → length xs < bound
    → close_found bound a w
      ≡ ok relay_ok (after_destroy (close_counted o.relay.owner w) a o.relay o.live xs)
close_found_lem bound w a xs o listed room =
    let w1 = close_counted o.relay.owner w in
    grind (
      arith,
      o.cell,
      relay_destroy_lem bound w1 a o.relay o.live xs o.cell o.not_closing listed room,
    )

-- What `portfwd_close` does, by the first relay that has the id.
abbrev pub CloseOutcome : ℕ → ℕ → World → List ℕ → Option ℕ → Type 0
CloseOutcome bound relay_id w xs none = portfwd_close bound relay_id w ≡ ok uv_enoent w
CloseOutcome bound relay_id w xs (some a) =
    (o : IsOpen w a) × (w' : World) × (portfwd_close bound relay_id w ≡ ok relay_ok w')
    × IsDestroyed (close_counted o.relay.owner w) a o.relay o.live xs w'

-- If the list of the engine has fewer relays than the bound, each open and once, then
-- `portfwd_close` answers UV_ENOENT and changes nothing if no relay has the id; else it counts the
-- close of the first relay that has it, destroys this one as `relay_destroy` does, and answers 0.
pub portfwd_close_finds :
    (bound relay_id : ℕ) (w : World) (xs : List ℕ)
    → IsEngine w xs
    → length xs < bound
    → CloseOutcome bound relay_id w xs (find_id w relay_id xs)
unfolding portfwd_close
portfwd_close_finds bound relay_id w xs h room = by_found (find_id w relay_id xs) refl
  where
    found : portfwd_close bound relay_id w ≡ close_result bound w (find_id w relay_id xs)
    found =
        close_loop_finds bound (bound + 1) relay_id w w.relays xs
          (Listed→Chain w head_link w.relays xs refl h.listed) (omega arith)

    by_found : (o : Option ℕ) → find_id w relay_id xs ≡ o → CloseOutcome bound relay_id w xs o
    by_found none e = found ∙ ap (close_result bound w) e
    by_found (some a) e =
        let o = find_id-IsOpen w relay_id a xs h.all_open e in
        let w1 = close_counted o.relay.owner w in
        (
          o,
          after_destroy w1 a o.relay o.live xs,
          found ∙ ap (close_result bound w) e ∙ close_found_lem bound w a xs o h.listed room,
          after_destroy-IsDestroyed w1 a o.relay o.live xs o.cell h.listed h.once,
        )

-- ===== src/Client/Closed.antt =====
-- What `main` of tests/host_client/client.c opens it closes.
use reactos_luagent.Base.{
  ℕ, suc, ◌+◌, ◌≡◌, refl, Bool, true, false, not, ◌==◌, if◌then◌else◌, List, [], ◌∷◌, ◌++◌, Option,
  none, some, arith,
}
use reactos_luagent.Client.{
  Wire, Network, Event, fopen, fclose, socket, close_socket, freeaddrinfo, connect_loop,
  connect_tcp, Run, connected_main, opened_main, main,
}

abbrev code : Event → ℕ
code fopen = 0
code fclose = 1
code socket = 2
code close_socket = 3
code freeaddrinfo = 4

-- How often an event stands in a list.
abbrev pub times : Event → List Event → ℕ
times e [] = 0
times e (x ∷ xs) = let rest = times e xs in if code x == code e then suc rest else rest

times-append : (e : Event) (xs ys : List Event) → times e (xs ++ ys) ≡ times e xs + times e ys
times-append e [] ys = omega arith
times-append e (x ∷ xs) ys = ground (arith, times-append e xs ys)

abbrev still_open : Bool → ℕ
still_open true = 1
still_open false = 0

-- A connection leaves its one socket open, a failure none, and the file alone.
record Leaves (r : Bool × List Event) : Type 0 where
  sockets : times socket r.1 ≡ times close_socket r.1 + still_open r.0
  no_fopen : times fopen r.1 ≡ 0
  no_fclose : times fclose r.1 ≡ 0

connect_loop-Leaves : (it : List (Bool × Bool)) → Leaves (connect_loop it)
unfolding connect_loop
connect_loop-Leaves [] = record { sockets = refl; no_fopen = refl; no_fclose = refl }
connect_loop-Leaves ((false, connects) ∷ it) = connect_loop-Leaves it
connect_loop-Leaves ((true, true) ∷ it) = record {
  sockets = refl;
  no_fopen = refl;
  no_fclose = refl;
}
connect_loop-Leaves ((true, false) ∷ it) =
    let l = connect_loop-Leaves it in
    record { sockets = omega (arith, l.sockets); no_fopen = l.no_fopen; no_fclose = l.no_fclose }

connect_tcp-Leaves : (addresses : Option (List (Bool × Bool))) → Leaves (connect_tcp addresses)
unfolding connect_tcp
connect_tcp-Leaves none = record { sockets = refl; no_fopen = refl; no_fclose = refl }
connect_tcp-Leaves (some addresses) = connect_loop-Leaves addresses

abbrev pub Balanced : List Event → Type 0
Balanced es = (times fopen es ≡ times fclose es) × (times socket es ≡ times close_socket es)

connected_closes :
    (net : Network) (run : Run) (w : Wire) (size : ℕ) (r : Bool × List Event)
    → Leaves r
    → Balanced (connected_main net run w size r).1
unfolding connected_main
connected_closes net run w size (false, es) l = (
  omega (
    arith,
    times-append fopen es (fclose ∷ []),
    times-append fclose es (fclose ∷ []),
    l.no_fopen,
    l.no_fclose,
  ),
  omega (
    arith,
    times-append socket es (fclose ∷ []),
    times-append close_socket es (fclose ∷ []),
    l.sockets,
  ),
)
connected_closes net run w size (true, es) l = (
  omega (
    arith,
    times-append fopen es (fclose ∷ close_socket ∷ []),
    times-append fclose es (fclose ∷ close_socket ∷ []),
    l.no_fopen,
    l.no_fclose,
  ),
  omega (
    arith,
    times-append socket es (fclose ∷ close_socket ∷ []),
    times-append close_socket es (fclose ∷ close_socket ∷ []),
    l.sockets,
  ),
)

opened_closes :
    (net : Network) (run : Run) (w : Wire) (size : Option ℕ)
    → Balanced (opened_main net run w size).1
unfolding opened_main
opened_closes net run w none = (refl, refl)
opened_closes net run w (some size) =
    connected_closes net run w size (connect_tcp run.addresses) (connect_tcp-Leaves run.addresses)

branches :
    (c : Bool) (x y : ℕ × List Event)
    → Balanced x.1
    → Balanced y.1
    → Balanced (if c then x else y).1
branches true x y first second = first
branches false x y first second = second

-- On every path `main` closes the file and each socket as often as it opens them.
pub main_closes : (net : Network) (run : Run) (w : Wire) → Balanced (main net run w).1
unfolding main
main_closes net run w =
    branches (not (run.argc == 5)) _ _ (refl, refl)
      (branches (not run.opens) _ _ (refl, refl) (opened_closes net run w run.file_size))

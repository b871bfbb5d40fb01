-- ===== src/Portfwd/Walk/Session.antt =====
-- What the loops that close relays leave: `portfwd_close_session` and `portfwd_engine_close`.
use reactos_luagent.Base.{
  All, ℕ, zero, suc, ◌+◌, ◌<◌, ◌==◌, ◌≡◌, refl, ap, sym, ◌∙◌, Bool, true, false, not, List, [], ◌∷◌,
  Bool-cases, inl, inr, ◌++◌, if◌then◌else◌, append_assoc, subst, length, Option, none, some, arith,
}
use reactos_luagent.Portfwd.{Relay, relay_cell, World, ok}
use reactos_luagent.Portfwd.Engine.{
  head_link, destroy_loop, portfwd_close_session, portfwd_engine_close,
}
use reactos_luagent.Portfwd.Listed.{Listed, links}
use reactos_luagent.Portfwd.Listed.Unlink.{Once, Without, remove, shape}
use reactos_luagent.Portfwd.Listed.Middle.{Once-middle, remove-middle}
use reactos_luagent.Portfwd.Destroy.{detached, IsDestroyed}
use reactos_luagent.Portfwd.Walk.{IsOpen, chosen_at, filter, relay_of_shape}
use reactos_luagent.Portfwd.Walk.Steps.{
  IsWalking, PointsTo, after_chosen, after_chosen-IsDestroyed, after_chosen-IsWalking, next_points,
  destroy_loop_chosen, destroy_loop_passed, passed-IsWalking,
}

-- A relay that is closing and has no connection any more.
pub record IsDetached (w : World) (a : ℕ) : Type 0 where
  pub relay : Relay
  pub cell : w.heap a ≡ relay_cell (detached relay)

detached_of_shape :
    (w : World) (a : ℕ) (x : Relay)
    → shape (w.heap a) ≡ shape (relay_cell (detached x))
    → IsDetached w a
detached_of_shape w a x h =
    let (p, e) = relay_of_shape (w.heap a) (detached x) h in
    record { relay = record x { next = p }; cell = e }

-- These relays of the list `xs`, each open, are destroyed one after the other.
abbrev pub Destroys : World → List ℕ → List ℕ → World → Type 0
Destroys w xs [] w' = w' ≡ w
Destroys w xs (a ∷ rest) w' =
    (o : IsOpen w a) × (w1 : World) × IsDestroyed w a o.relay o.live xs w1
    × Destroys w1 (remove a xs) rest w'

-- A walk from `w` that has kept some relays left `w'`: the chosen ones of `ys` were destroyed in their
-- order, each is detached and out of the list, and the others are in it in their order. A relay that was
-- not chosen changed at most in its place, a connection at most in whether it is closing.
pub record IsWalked (sel : ℕ → Bool) (w : World) (kept ys : List ℕ) (w' : World) : Type 0 where
  pub listed : Listed (links w') head_link (kept ++ filter (λ a. not (sel a)) ys)
  pub elsewhere : (b : ℕ) → Without b (filter sel ys) → shape (w'.heap b) ≡ shape (w.heap b)
  pub closed : All (IsDetached w') (filter sel ys)
  pub steps : Destroys w (kept ++ ys) (filter sel ys) w'

filter-Without : (sel : ℕ → Bool) (r : ℕ) (xs : List ℕ) → Without r xs → Without r (filter sel xs)
filter-Without sel r [] h = tt
filter-Without sel r (x ∷ xs) h =
    elim (sel x) as (λ b. Without r (if b then x ∷ filter sel xs else filter sel xs)) [
      | true ↦ (h.0, filter-Without sel r xs h.1)
      | false ↦ filter-Without sel r xs h.1
    ]

other_sym : (a b : ℕ) → (a == b) ≡ false → (b == a) ≡ false
other_sym a b h = ground arith

abbrev pub Walked :
    (fuel bound : ℕ) (chosen : Relay → Bool) (sel : ℕ → Bool) (w : World) (p : Option ℕ)
    (kept ys : List ℕ)
    → Type 0
Walked fuel bound chosen sel w p kept ys =
    (w' : World) × (destroy_loop bound fuel chosen p w ≡ ok tt w') × IsWalked sel w kept ys w'

module _ (bound : ℕ) (chosen : Relay → Bool) (sel : ℕ → Bool)
    (stable : (x : Relay) (p : Option ℕ) → chosen (record x { next = p }) ≡ chosen x) where
  IsWalked-chosen :
      (w : World) (kept : List ℕ) (a : ℕ) (ys : List ℕ)
      (h : IsWalking bound chosen sel w kept (a ∷ ys)) (w' : World)
      → sel a ≡ true
      → IsWalked sel (after_chosen bound chosen sel stable w kept a ys h) kept ys w'
      → IsWalked sel w kept (a ∷ ys) w'
  IsWalked-chosen w kept a ys h w' is_chosen r =
      let d = after_chosen-IsDestroyed bound chosen sel stable w kept a ys h in
      let out = (Once-middle a kept ys h.once).0 in
      let this =
        detached_of_shape w' a h.all_open.0.relay
          (r.elsewhere a (filter-Without sel a ys out) ∙ d.itself) in
      record {
        listed =
            subst
              (λ b. Listed (links w') head_link (
                kept
                ++ (if not b
                    then a ∷ filter (λ a'. not (sel a')) ys
                    else filter (λ a'. not (sel a')) ys)))
              (sym is_chosen) r.listed;
        elsewhere = λ b ne.
            let (other, rest) =
              subst (λ t. Without b (if t then a ∷ filter sel ys else filter sel ys)) is_chosen
                ne in
            r.elsewhere b rest ∙ d.elsewhere b (other_sym a b other);
        closed =
            subst (λ b. All (IsDetached w') (if b then a ∷ filter sel ys else filter sel ys))
              (sym is_chosen) (this, r.closed);
        steps =
            subst
              (λ b. Destroys w (kept ++ a ∷ ys) (if b then a ∷ filter sel ys else filter sel ys) w')
              (sym is_chosen)
              (
                h.all_open.0,
                after_chosen bound chosen sel stable w kept a ys h,
                d,
                subst
                    (λ l.
                      Destroys (after_chosen bound chosen sel stable w kept a ys h) l
                        (filter sel ys) w')
                    (sym (remove-middle a kept ys h.once)) r.steps,
              );
      }

  IsWalked-passed :
      (w : World) (kept : List ℕ) (a : ℕ) (ys : List ℕ) (w' : World)
      → sel a ≡ false
      → IsWalked sel w (kept ++ a ∷ []) ys w'
      → IsWalked sel w kept (a ∷ ys) w'
  IsWalked-passed w kept a ys w' is_kept r = record {
    listed =
        subst
          (λ b. Listed (links w') head_link (
            kept
            ++ (if not b
                then a ∷ filter (λ a'. not (sel a')) ys
                else filter (λ a'. not (sel a')) ys)))
          (sym is_kept)
          (subst (λ l. Listed (links w') head_link l)
            (append_assoc kept (a ∷ []) (filter (λ a'. not (sel a')) ys)) r.listed);
    elsewhere = λ b ne.
        r.elsewhere b
          (subst (λ t. Without b (if t then a ∷ filter sel ys else filter sel ys)) is_kept ne);
    closed =
        subst (λ b. All (IsDetached w') (if b then a ∷ filter sel ys else filter sel ys))
          (sym is_kept) r.closed;
    steps =
        subst (λ b. Destroys w (kept ++ a ∷ ys) (if b then a ∷ filter sel ys else filter sel ys) w')
          (sym is_kept)
          (subst (λ l. Destroys w l (filter sel ys) w') (append_assoc kept (a ∷ []) ys) r.steps);
  }

  -- From a pointer to the relays ahead, with a turn for each and one more.
  pub destroy_loop_walks :
      (fuel : ℕ) (w : World) (p : Option ℕ) (kept ys : List ℕ)
      → IsWalking bound chosen sel w kept ys
      → PointsTo p ys
      → length ys < fuel
      → Walked fuel bound chosen sel w p kept ys
  unfolding destroy_loop
  destroy_loop_walks zero w p kept ys h at enough = absurd (omega arith)
  destroy_loop_walks (suc fuel) w p kept [] h at enough = (
    w,
    ap (λ q. destroy_loop bound (suc fuel) chosen q w) at,
    record { listed = h.listed; elsewhere = λ b ne. refl; closed = tt; steps = refl },
  )
  destroy_loop_walks (suc fuel) w p kept (a ∷ ys) h at enough =
      let (q, n, to) = next_points bound chosen sel stable w kept a ys h in
      elim (Bool-cases (sel a)) [
        | inl is_chosen ↦
            let w1 = after_chosen bound chosen sel stable w kept a ys h in
            let (w', run, r) =
              destroy_loop_walks fuel w1 q kept ys
                (after_chosen-IsWalking bound chosen sel stable w kept a ys h) to (omega arith) in
            (
              w',
              ap (λ p'. destroy_loop bound (suc fuel) chosen p' w) at
                  ∙ destroy_loop_chosen bound chosen sel stable w kept a ys h fuel is_chosen
                  ∙ ap (λ q'. destroy_loop bound fuel chosen q' w1) n
                  ∙ run,
              IsWalked-chosen w kept a ys h w' is_chosen r,
            )
        | inr is_kept ↦
            let (w', run, r) =
              destroy_loop_walks fuel w q (kept ++ a ∷ []) ys
                (passed-IsWalking bound chosen sel stable w kept a ys h) to (omega arith) in
            (
              w',
              ap (λ p'. destroy_loop bound (suc fuel) chosen p' w) at
                  ∙ destroy_loop_passed bound chosen sel stable w kept a ys h fuel is_kept
                  ∙ ap (λ q'. destroy_loop bound fuel chosen q' w) n
                  ∙ run,
              IsWalked-passed w kept a ys w' is_kept r,
            )
      ]

-- An engine whose list has these relays, each once and open.
pub record IsEngine (w : World) (xs : List ℕ) : Type 0 where
  pub listed : Listed (links w) head_link xs
  pub once : Once xs
  pub all_open : All (IsOpen w) xs

chosen_refl :
    (w : World) (chosen : Relay → Bool) (xs : List ℕ)
    → All (λ a. chosen_at w chosen a ≡ chosen_at w chosen a) xs
chosen_refl w chosen [] = tt
chosen_refl w chosen (x ∷ xs) = (refl, chosen_refl w chosen xs)

abbrev pub owned_at : World → ℕ → ℕ → Bool
owned_at w session = chosen_at w (λ r. r.owner == session)

head_points : (w : World) (xs : List ℕ) → Listed (links w) head_link xs → PointsTo w.relays xs
head_points w [] h = ground arith
head_points w (a ∷ xs) h = ground (arith, h.0)

-- If the engine's list has fewer relays than the bound, each open and once, then
-- `portfwd_close_session` ends. It destroys the relays of the session one after the other, in the order
-- of the list, each with the calls that close its handles and those of its connection; in the end they
-- are detached and out of the list, which keeps the others in their order. A relay of another session
-- changes at most in its place in the list, and a connection at most in whether it is closing.
pub portfwd_close_session_walks :
    (bound session : ℕ) (w : World) (xs : List ℕ)
    → IsEngine w xs
    → length xs < bound
    → (w' : World) × (portfwd_close_session bound session w ≡ ok tt w')
      × IsWalked (owned_at w session) w [] xs w'
unfolding portfwd_close_session
portfwd_close_session_walks bound session w xs h room =
    destroy_loop_walks bound (λ r. r.owner == session) (owned_at w session) (λ x p. refl)
      (bound + 1) w w.relays [] xs
      (record {
        listed = h.listed;
        once = h.once;
        room = room;
        all_open = h.all_open;
        answers = chosen_refl w _ xs;
      })
      (head_points w xs h.listed) (omega arith)

filter_all : (xs : List ℕ) → filter (λ a. true) xs ≡ xs
filter_all [] = refl
filter_all (x ∷ xs) = ap (λ l. x ∷ l) (filter_all xs)

filter_none : (xs : List ℕ) → filter (λ a. false) xs ≡ []
filter_none [] = refl
filter_none (x ∷ xs) = filter_none xs

All-chosen_at :
    (w : World) (xs : List ℕ) → All (IsOpen w) xs → All (λ a. chosen_at w (λ r. true) a ≡ true) xs
All-chosen_at w [] h = tt
All-chosen_at w (x ∷ xs) h = (ground (arith, h.0.cell), All-chosen_at w xs h.1)

-- If the engine's list has fewer relays than the bound, each open and once, then
-- `portfwd_engine_close` ends with an empty list and each of these relays detached.
pub portfwd_engine_close_empties :
    (bound : ℕ) (w : World) (xs : List ℕ)
    → IsEngine w xs
    → length xs < bound
    → (w' : World) × (portfwd_engine_close bound w ≡ ok tt w')
      × (w'.relays ≡ none)
      × All (IsDetached w') xs
unfolding portfwd_engine_close
portfwd_engine_close_empties bound w xs h room =
    let (w', run, r) =
      destroy_loop_walks bound (λ x. true) (λ a. true) (λ x p. refl) (bound + 1) w w.relays [] xs
        (record {
          listed = h.listed;
          once = h.once;
          room = room;
          all_open = h.all_open;
          answers = All-chosen_at w xs h.all_open;
        })
        (head_points w xs h.listed) (omega arith) in
    let empty : links w' head_link ≡ some none =
      subst (λ l. Listed (links w') head_link l) (filter_none xs) r.listed in
    (w', run, ground (arith, empty), subst (λ l. All (IsDetached w') l) (filter_all xs) r.closed)

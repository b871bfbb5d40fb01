-- ===== src/Portfwd/Walk/Steps.antt =====
-- One turn of the loops that close relays.
use reactos_luagent.Base.{
  All, ℕ, suc, ◌<◌, ◌≡◌, refl, sym, ◌∙◌, Bool, true, false, List, [], ◌∷◌, ◌++◌, append_assoc,
  subst, length, length-append, Option, none, some, arith,
}
use reactos_luagent.Portfwd.{Relay, relay_cell, World}
use reactos_luagent.Portfwd.Engine.{Link, head_link, next_link, destroy_loop}
use reactos_luagent.Portfwd.Forward.Close.{if-run}
use reactos_luagent.Portfwd.Listed.{Listed, links, next_of}
use reactos_luagent.Portfwd.Listed.Unlink.{Once, Without}
use reactos_luagent.Portfwd.Listed.Middle.{Once-middle, remove-middle}
use reactos_luagent.Portfwd.Destroy.{
  after_destroy, relay_destroy_lem, IsDestroyed, after_destroy-IsDestroyed,
}
use reactos_luagent.Portfwd.Walk.{IsOpen, SameBut, SameBut-IsOpen, chosen_at, chosen_at-shape}

-- A pointer to the first relay of a list.
abbrev pub PointsTo : Option ℕ → List ℕ → Type 0
PointsTo p [] = p ≡ none
PointsTo p (a ∷ xs) = p ≡ some a

pub Listed-points :
    (f : Link → Option (Option ℕ)) (it : Link) (xs : List ℕ)
    → Listed f it xs
    → (p : Option ℕ) × (f it ≡ some p) × PointsTo p xs
Listed-points f it [] h = (none, h, refl)
Listed-points f it (a ∷ xs) h = (some a, h.0, refl)

pub Listed-drop :
    (f : Link → Option (Option ℕ)) (it : Link) (xs : List ℕ) (a : ℕ) (ys : List ℕ)
    → Listed f it (xs ++ a ∷ ys)
    → Listed f (next_link a) ys
Listed-drop f it [] a ys h = h.1
Listed-drop f it (x ∷ xs) a ys h = Listed-drop f (next_link x) xs a ys h.1

-- A walk that has kept some relays and has others before it, each open, with the answers that its
-- test gives for them.
pub record IsWalking (bound : ℕ) (chosen : Relay → Bool) (sel : ℕ → Bool) (w : World)
    (kept ys : List ℕ) : Type 0 where
  pub listed : Listed (links w) head_link (kept ++ ys)
  pub once : Once (kept ++ ys)
  pub room : length (kept ++ ys) < bound
  pub all_open : All (IsOpen w) ys
  pub answers : All (λ a. chosen_at w chosen a ≡ sel a) ys

module _ (bound : ℕ) (chosen : Relay → Bool) (sel : ℕ → Bool)
    (stable : (x : Relay) (p : Option ℕ) → chosen (record x { next = p }) ≡ chosen x) where
  -- What is true of the relays ahead stays true if another one is destroyed.
  ahead-SameBut :
      (r : ℕ) (w w' : World) (x : Relay) (ys : List ℕ)
      → w.heap r ≡ relay_cell x
      → SameBut r w w'
      → Without r ys
      → All (IsOpen w) ys
      → All (λ a. chosen_at w chosen a ≡ sel a) ys
      → All (IsOpen w') ys × All (λ a. chosen_at w' chosen a ≡ sel a) ys
  ahead-SameBut r w w' x [] h same out o s = (tt, tt)
  ahead-SameBut r w w' x (y ∷ ys) h same out o s =
      let (os, ss) = ahead-SameBut r w w' x ys h same out.1 o.1 s.1 in
      (
        (SameBut-IsOpen r w w' x y h same out.0 o.0, os),
        (chosen_at-shape chosen stable (w'.heap y) (w.heap y) (same y out.0) ∙ s.0, ss),
      )

  abbrev pub after_chosen :
      (w : World) (kept : List ℕ) (a : ℕ) (ys : List ℕ)
      → IsWalking bound chosen sel w kept (a ∷ ys)
      → World
  after_chosen w kept a ys h =
      after_destroy w a h.all_open.0.relay h.all_open.0.live (kept ++ a ∷ ys)

  module _ (w : World) (kept : List ℕ) (a : ℕ) (ys : List ℕ)
      (h : IsWalking bound chosen sel w kept (a ∷ ys)) where
    pub after_chosen-IsDestroyed :
        IsDestroyed w a h.all_open.0.relay h.all_open.0.live
          (kept ++ a ∷ ys)
          (after_chosen w kept a ys h)
    after_chosen-IsDestroyed =
        after_destroy-IsDestroyed w a h.all_open.0.relay h.all_open.0.live (kept ++ a ∷ ys)
          h.all_open.0.cell h.listed h.once

    pub after_chosen-IsWalking : IsWalking bound chosen sel (after_chosen w kept a ys h) kept ys
    after_chosen-IsWalking =
        let d = after_chosen-IsDestroyed in
        let (out, once) = Once-middle a kept ys h.once in
        let (os, ss) =
          ahead-SameBut a w (after_chosen w kept a ys h) h.all_open.0.relay ys h.all_open.0.cell
            d.elsewhere out h.all_open.1 h.answers.1 in
        record {
          listed =
              subst (λ l. Listed (links (after_chosen w kept a ys h)) head_link l)
                (remove-middle a kept ys h.once) d.listed;
          once = once;
          room = omega (arith, h.room, length-append kept (a ∷ ys), length-append kept ys);
          all_open = os;
          answers = ss;
        }

    -- The relay is read, destroyed if it is chosen, and the walk goes on from its old `next`.
    pub next_points : (q : Option ℕ) × (h.all_open.0.relay.next ≡ q) × PointsTo q ys
    next_points =
        let (q, e, p) =
          Listed-points (links w) (next_link a) ys
            (Listed-drop (links w) head_link kept a ys h.listed) in
        (q, next_here q e, p)
      where
        next_here : (q : Option ℕ) → next_of (w.heap a) ≡ some q → h.all_open.0.relay.next ≡ q
        next_here q e = ground (arith, h.all_open.0.cell)

    pub destroy_loop_chosen :
        (fuel : ℕ)
        → sel a ≡ true
        → destroy_loop bound (suc fuel) chosen (some a) w
          ≡ destroy_loop bound fuel chosen h.all_open.0.relay.next (after_chosen w kept a ys h)
    unfolding destroy_loop
    destroy_loop_chosen fuel is_chosen =
        let o = h.all_open.0 in
        grind (
          arith,
          if-run,
          o.cell,
          h.answers.0,
          relay_destroy_lem bound w a o.relay o.live (kept ++ a ∷ ys) o.cell o.not_closing h.listed
              h.room,
        )

    pub destroy_loop_passed :
        (fuel : ℕ)
        → sel a ≡ false
        → destroy_loop bound (suc fuel) chosen (some a) w
          ≡ destroy_loop bound fuel chosen h.all_open.0.relay.next w
    unfolding destroy_loop
    destroy_loop_passed fuel is_kept =
        let o = h.all_open.0 in grind (arith, if-run, o.cell, h.answers.0)

    pub passed-IsWalking : IsWalking bound chosen sel w (kept ++ a ∷ []) ys
    passed-IsWalking =
        let e = sym (append_assoc kept (a ∷ []) ys) in
        record {
          listed = subst (λ l. Listed (links w) head_link l) e h.listed;
          once = subst (λ l. Once l) e h.once;
          room = subst (λ l. length l < bound) e h.room;
          all_open = h.all_open.1;
          answers = h.answers.1;
        }

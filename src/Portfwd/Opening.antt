-- ===== src/Portfwd/Opening.antt =====
-- What `portfwd_open` leaves, on each of its branches.
pub mod Runs
pub mod Branches
use reactos_luagent.Base.{
  true, [], All, ℕ, ◌==◌, ◌≡◌, ◌≢◌, sym, ap, ◌∙◌, subst, false, List, ◌∷◌, Option, none, some,
  arith, ==_iff, Bool-cases, inl, inr,
}
use reactos_luagent.Portfwd.{Relay, Cell, freed, relay_cell, conn_cell, World}
use reactos_luagent.Portfwd.Engine.{head_link, next_link}
use reactos_luagent.Portfwd.Listed.{links, next_of}
use reactos_luagent.Portfwd.Listed.Unlink.{Without, Listed-agree}
use reactos_luagent.Portfwd.Destroy.{ConnLive}
use reactos_luagent.Portfwd.Walk.{IsOpen}
use reactos_luagent.Portfwd.Walk.Session.{IsEngine}

-- Worlds that have the same cells but for one that was free.
pub record IsAround (w : World) (a : ℕ) (w' : World) : Type 0 where
  pub new : w.heap a ≡ freed
  pub same : (b : ℕ) → (b == a) ≡ false → w'.heap b ≡ w.heap b

module _ (w : World) (a : ℕ) (w' : World) (h : IsAround w a w') where
  -- What is allocated is not the new address.
  old-Apart : (b : ℕ) (c : Cell) → w.heap b ≡ c → c ≢ freed → (b == a) ≡ false
  old-Apart b c e ne = elim (Bool-cases (b == a)) [
    | inl here ↦ absurd (ne (sym e ∙ ap w.heap ((==_iff b a).0 here) ∙ h.new))
    | inr there ↦ there
  ]

  ConnLive-around : (conn : Option ℕ) → ConnLive w conn → ConnLive w' conn
  ConnLive-around none live = tt
  ConnLive-around (some c) (k, e) =
      (k, h.same c (old-Apart c (conn_cell k) e (λ z. absurd (ground arith))) ∙ e)

  relay-Apart : (b : ℕ) → IsOpen w b → (b == a) ≡ false
  relay-Apart b o = old-Apart b (relay_cell o.relay) o.cell (λ z. absurd (ground arith))

  IsOpen-around : (b : ℕ) → IsOpen w b → IsOpen w' b
  IsOpen-around b o = record {
    relay = o.relay;
    cell = h.same b (relay-Apart b o) ∙ o.cell;
    not_closing = o.not_closing;
    live = ConnLive-around o.relay.conn o.live;
  }

  All-IsOpen : (xs : List ℕ) → All (IsOpen w) xs → All (IsOpen w') xs
  All-IsOpen [] hs = tt
  All-IsOpen (b ∷ xs) hs = (IsOpen-around b hs.0, All-IsOpen xs hs.1)

  All-Without : (xs : List ℕ) → All (IsOpen w) xs → Without a xs
  All-Without [] hs = tt
  All-Without (b ∷ xs) hs = (relay-Apart b hs.0, All-Without xs hs.1)

  All-links :
      (xs : List ℕ)
      → All (IsOpen w) xs
      → All (λ b. links w' (next_link b) ≡ links w (next_link b)) xs
  All-links [] hs = tt
  All-links (b ∷ xs) hs = (ap next_of (h.same b (relay-Apart b hs.0)), All-links xs hs.1)

  -- The list is the old one if its head is.
  pub IsEngine-kept : (xs : List ℕ) → IsEngine w xs → w'.relays ≡ w.relays → IsEngine w' xs
  IsEngine-kept xs e head = record {
    listed =
        Listed-agree (links w) (links w') head_link head_link xs (ap (λ p. some p) head)
          (All-links xs e.all_open) e.listed;
    once = e.once;
    all_open = All-IsOpen xs e.all_open;
  }

  -- An open relay without a connection, put before the old list.
  pub IsEngine-new :
      (xs : List ℕ) (x : Relay)
      → IsEngine w xs
      → w'.heap a ≡ relay_cell x
      → x.next ≡ w.relays
      → w'.relays ≡ some a
      → x.closing ≡ false
      → x.conn ≡ none
      → IsEngine w' (a ∷ xs)
  IsEngine-new xs x e cell next head not_closing alone = record {
    listed = (
      ap (λ p. some p) head,
      Listed-agree (links w) (links w') head_link (next_link a) xs
          (ap next_of cell ∙ ap (λ p. some p) next) (All-links xs e.all_open) e.listed,
    );
    once = (All-Without xs e.all_open, e.once);
    all_open = (
      record {
        relay = x;
        cell = cell;
        not_closing = not_closing;
        live = subst (λ o. ConnLive w' o) (sym alone) tt;
      },
      All-IsOpen xs e.all_open,
    );
  }

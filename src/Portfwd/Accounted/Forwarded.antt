-- ===== src/Portfwd/Accounted/Forwarded.antt =====
-- The callbacks of a connection keep the account.
use reactos_luagent.Base.{ℕ, refl, true, Option, ℤ}
use reactos_luagent.Portfwd.{set_conn}
use reactos_luagent.Portfwd.Forward.{
  relay_maybe_free, relay_close_cb, relay_close, relay_connect_cb, Side, inbound_side,
  outbound_side, mark_closed,
}
use reactos_luagent.Portfwd.Keeps.{Keeps, keeps_rules}
use reactos_luagent.Portfwd.Accounted.{Accounted}
use reactos_luagent.Portfwd.Accounted.Kept.{
  call_-Accounted, set_relay-Accounted, set_conn-Accounted, free-Accounted,
}

pub relay_maybe_free-Accounted : (c : ℕ) → Keeps Accounted (relay_maybe_free c)
unfolding relay_maybe_free
relay_maybe_free-Accounted c = search (keeps_rules, set_relay-Accounted, free-Accounted) depth 30

mark_closed-Accounted : (side : Side) (c : ℕ) → Keeps Accounted (set_conn c (mark_closed side))
mark_closed-Accounted inbound_side c = set_conn-Accounted c _ (λ k. refl) (λ k. refl)
mark_closed-Accounted outbound_side c = set_conn-Accounted c _ (λ k. refl) (λ k. refl)

pub relay_close_cb-Accounted :
    (holder : ℕ) (side : Side) → Keeps Accounted (relay_close_cb holder side)
unfolding relay_close_cb
relay_close_cb-Accounted holder side =
    search (keeps_rules, mark_closed-Accounted, relay_maybe_free-Accounted) depth 30

closing-Accounted : (c : ℕ) → Keeps Accounted (set_conn c (λ x. record x { closing = true }))
closing-Accounted c = set_conn-Accounted c _ (λ k. refl) (λ k. refl)

pub relay_close-Accounted : (conn : Option ℕ) → Keeps Accounted (relay_close conn)
unfolding relay_close
relay_close-Accounted conn = search (keeps_rules, closing-Accounted, call_-Accounted) depth 30

connected-Accounted :
    (c : ℕ) → Keeps Accounted (set_conn c (λ x. record x { outbound_connected = true }))
connected-Accounted c = set_conn-Accounted c _ (λ k. refl) (λ k. refl)

pub relay_connect_cb-Accounted : (c : ℕ) (status : ℤ) → Keeps Accounted (relay_connect_cb c status)
unfolding relay_connect_cb
relay_connect_cb-Accounted c status =
    search (keeps_rules, connected-Accounted, relay_close-Accounted, call_-Accounted) depth 30

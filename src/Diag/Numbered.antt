-- ===== src/Diag/Numbered.antt =====
-- The table of transfers of src/diag.c, as the active transfers in order and numbered.
use reactos_luagent.Base.{
  ℕ, ◌+◌, ◌≡◌, refl, if◌then◌else◌, Bool, true, false, List, [], ◌∷◌, ◌++◌, Bytes, String, codes,
  length, Option, none, some,
}
use reactos_luagent.Machine.{Session, Transfer}
use reactos_luagent.Diag.Tables.{
  Table, integer, text, lua_integer, table_set_u64, table_set_str, upload_rows, download_rows,
  diag_push_transfers,
}

-- The key "xfer.i.name" for a number of one digit.
abbrev pub key : ℕ → String → Bytes
key i name = codes "xfer." ++ ((48 + i) ∷ codes "." ++ codes name)

abbrev pub text_or_empty : Option Bytes → Bytes
text_or_empty none = []
text_or_empty (some t) = t

abbrev pub numbered_row : ℕ → String → Transfer → Table
numbered_row i kind t =
    (key i "req_id", integer (lua_integer t.req_id))
    ∷ (key i "kind", text (codes kind))
    ∷ (key i "path", text (text_or_empty t.path))
    ∷ (key i "offset", integer (lua_integer t.offset))
    ∷ (key i "total", integer (lua_integer t.total_size))
    ∷ (key i "last_progress_ms", integer (lua_integer t.last_progress_ms))
    ∷ []

abbrev pub numbered : ℕ → List (String × Transfer) → Table
numbered i [] = []
numbered i ((kind, t) ∷ ts) = numbered_row i kind t ++ numbered (i + 1) ts

abbrev pub if_active : String → Transfer → List (String × Transfer) → List (String × Transfer)
if_active kind t ts = if t.active then (kind, t) ∷ ts else ts

abbrev pub active_transfers : Session → List (String × Transfer)
active_transfers s = if_active "upload" s.upload (if_active "download" s.download [])

-- The table has the active transfers, the upload before the download, each under the next number
-- from 1, and their count.
pub diag_push_transfers-numbered :
    (s : Session)
    → diag_push_transfers s
      ≡ numbered 1 (active_transfers s)
        ++ ((codes "count", integer (lua_integer (length (active_transfers s)))) ∷ [])
unfolding diag_push_transfers upload_rows download_rows table_set_u64 table_set_str
diag_push_transfers-numbered s =
    by_fields s.upload.active s.download.active s.upload.path s.download.path
  where
    at : Bool → Bool → Option Bytes → Option Bytes → Session
    at a b p q = record s {
      upload = record s.upload { active = a; path = p };
      download = record s.download { active = b; path = q };
    }

    by_fields :
        (a b : Bool) (p q : Option Bytes)
        → diag_push_transfers (at a b p q)
          ≡ numbered 1 (active_transfers (at a b p q))
            ++ ((codes "count", integer (lua_integer (length (active_transfers (at a b p q)))))
                ∷ [])
    by_fields false false p q = refl
    by_fields true false none q = refl
    by_fields true false (some x) q = refl
    by_fields false true p none = refl
    by_fields false true p (some y) = refl
    by_fields true true none none = refl
    by_fields true true none (some y) = refl
    by_fields true true (some x) none = refl
    by_fields true true (some x) (some y) = refl

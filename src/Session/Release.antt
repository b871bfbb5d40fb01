-- ===== src/Session/Release.antt =====
-- The references of a session in src/session.c: each handle of a session that closes gives one
-- back, and the last one frees it, with its transfers, its process and its relays.
use reactos_luagent.Base.{
  ℕ, zero, suc, ◌-◌, ◌<◌, ltb, ◌≡◌, refl, ap, ◌∙◌, if◌then◌else◌, List, [], ◌∷◌, Option, none, some,
  Bytes, is_neg, length, arith,
}
use reactos_luagent.Machine.{
  Trace, Session, process_kill, fs_close, fs_unlink, Transfer, State, Action, ◌>>=◌, ◌>>◌,
}
use reactos_luagent.Machine.Keeps.{if-action}
use reactos_luagent.Transfer.{
  upload_slot, download_slot, reset_transfer, put_transfer, transfer_at, transfer_abort_slot,
  transfer_reset, unlink_if_set,
}
use reactos_luagent.Proc.{proc_abort}
use reactos_luagent.Portfwd.{World, Run, ok}
use reactos_luagent.Portfwd.Engine.{portfwd_close_session}
use reactos_luagent.Portfwd.Walk.Session.{IsEngine, IsWalked, owned_at, portfwd_close_session_walks}

-- After a reference was given back: the session is still held, or it is freed and its relays are
-- closed.
pub data Released : Type 0 where
  held : State → World → Released
  freed : State → Run Unit → Released

-- What is aborted before the session is freed.
unfoldable pub abort_all : Action Unit
unfolding proc_abort transfer_abort_slot
abort_all = do transfer_abort_slot upload_slot; transfer_abort_slot download_slot; proc_abort

-- The calls that give up a transfer: its file is closed if it was opened, and the file that was being
-- written is deleted.
abbrev pub given_up : Transfer → Trace → Trace
given_up t calls =
    let closed = if is_neg t.file then calls else fs_close t.file ∷ calls in
    deleted t.tmp_path closed
  where
    deleted : Option Bytes → Trace → Trace
    deleted none calls = calls
    deleted (some p) calls = fs_unlink p ∷ calls

-- The calls when a session is freed: both transfers are given up, and a process that runs is killed.
abbrev pub freed_calls : Session → Trace → Trace
freed_calls s calls =
    let transfers = given_up s.download (given_up s.upload calls) in
    if s.proc.active then process_kill ∷ transfers else transfers

upload_aborted :
    (s : State)
    → ((transfer_abort_slot upload_slot s).1.session ≡ record s.session { upload = reset_transfer })
      × ((transfer_abort_slot upload_slot s).1.trace ≡ given_up s.session.upload s.trace)
unfolding transfer_abort_slot unlink_if_set transfer_reset put_transfer transfer_at ◌>>=◌
upload_aborted s = (grind (arith, if-action), grind (arith, if-action))

download_aborted :
    (s : State)
    → ((transfer_abort_slot download_slot s).1.session
        ≡ record s.session { download = reset_transfer })
      × ((transfer_abort_slot download_slot s).1.trace ≡ given_up s.session.download s.trace)
unfolding transfer_abort_slot unlink_if_set transfer_reset put_transfer transfer_at ◌>>=◌
download_aborted s = (grind (arith, if-action), grind (arith, if-action))

proc_aborted :
    (s : State)
    → ((proc_abort s).1.session.upload ≡ s.session.upload)
      × ((proc_abort s).1.session.download ≡ s.session.download)
      × ((proc_abort s).1.trace
          ≡ (if s.session.proc.active then process_kill ∷ s.trace else s.trace))
unfolding proc_abort ◌>>=◌
proc_aborted s = (grind (arith, if-action), grind (arith, if-action), grind (arith, if-action))

-- The transfers are given up and reset.
abbrev pub IsAborted : State → State → Type 0
IsAborted s s' =
    (s'.trace ≡ freed_calls s.session s.trace)
    × (s'.session.upload ≡ reset_transfer)
    × (s'.session.download ≡ reset_transfer)

abort_all-IsAborted : (s : State) → IsAborted s (abort_all s).1
unfolding abort_all ◌>>=◌
abort_all-IsAborted s =
    let s1 = (transfer_abort_slot upload_slot s).1 in
    let s2 = (transfer_abort_slot download_slot s1).1 in
    let (up, up_calls) = upload_aborted s in
    let (down, down_calls) = download_aborted s1 in
    let (same_up, same_down, calls) = proc_aborted s2 in
    let session : s2.session
        ≡ record s.session { upload = reset_transfer; download = reset_transfer } =
      down ∙ ap (λ (x : Session). record x { download = reset_transfer }) up in
    let transfers : s2.trace ≡ given_up s.session.download (given_up s.session.upload s.trace) =
      down_calls
      ∙ ap (λ (x : Session). given_up x.download s1.trace) up
      ∙ ap (λ t. given_up s.session.download t) up_calls in
    (
      calls
          ∙ ap (λ (x : Session). if x.proc.active then process_kill ∷ s2.trace else s2.trace)
              session
          ∙ ap (λ t. if s.session.proc.active then process_kill ∷ t else t) transfers,
      same_up ∙ ap (λ (x : Session). x.upload) session,
      same_down ∙ ap (λ (x : Session). x.download) session,
    )

module _ (bound self : ℕ) where
  -- `close_refs` is an `int`; below 1 the session is freed too.
  unfoldable pub maybe_free_session : State → World → Released
  unfolding abort_all portfwd_close_session
  maybe_free_session s w =
      let s' = record s { session = record s.session { close_refs = s.session.close_refs - 1 } } in
      if ltb 0 s'.session.close_refs
      then held s' w
      else freed (abort_all s').1 (portfwd_close_session bound self w)

  -- The functions that give a reference back: `on_close_done` is the close callback of the connection
  -- and of the timer, `on_proc_handle_closed` that of the process and its pipes.
  abbrev pub session_release_ref : State → World → Released
  session_release_ref = maybe_free_session

  abbrev pub on_close_done : State → World → Released
  on_close_done = maybe_free_session

  abbrev pub on_proc_handle_closed : State → World → Released
  on_proc_handle_closed = session_release_ref

  abbrev pub after_release : Released → (State → World → Released) → Released
  after_release (held s w) next = next s w
  after_release (freed s run) next = freed s run

  -- As many handles close, one after the other, for as long as the session is held.
  unfoldable pub handles_closed : ℕ → State → World → Released
  unfolding maybe_free_session
  handles_closed zero s w = held s w
  handles_closed (suc n) s w = after_release (maybe_free_session s w) (handles_closed n)

  -- The state with fewer references.
  abbrev pub without_refs : ℕ → State → State
  without_refs n s = record s {
    session = record s.session { close_refs = s.session.close_refs - n };
  }

  abbrev with_refs : ℕ → State → State
  with_refs n s = record s { session = record s.session { close_refs = n } }

  last_closes :
      (left : ℕ) (s : State) (w : World)
      → s.session.close_refs ≡ suc left
      → handles_closed (suc left) s w
        ≡ freed (abort_all (with_refs 0 s)).1 (portfwd_close_session bound self w)
  unfolding handles_closed maybe_free_session
  last_closes zero s w e = grind arith
  last_closes (suc left) s w e = grind (arith, last_closes left (with_refs (suc left) s) w refl)

  -- If fewer handles close than there are references, then the session is held, with so many
  -- references fewer and nothing else changed.
  pub handles_closed_held :
      (n : ℕ) (s : State) (w : World)
      → n < s.session.close_refs
      → handles_closed n s w ≡ held (without_refs n s) w
  unfolding handles_closed maybe_free_session
  handles_closed_held zero s w room = ground arith
  handles_closed_held (suc n) s w room =
      grind (arith, handles_closed_held n (without_refs 1 s) w (omega arith))

  -- If as many handles close as the session has references, at least one, and the engine's list has
  -- fewer relays than the bound, each open and once, then the last of them frees the session. Of each
  -- transfer, the upload first, the file is closed if it was opened and its part file is deleted, and
  -- both are reset; then the process is killed if it runs. The relays of the session are destroyed, one
  -- after the other, detached and out of the list, which keeps the others in their order.
  pub handles_closed_free :
      (left : ℕ) (s : State) (w : World) (xs : List ℕ)
      → s.session.close_refs ≡ suc left
      → IsEngine w xs
      → length xs < bound
      → (s' : State) × (w' : World) × (handles_closed (suc left) s w ≡ freed s' (ok tt w'))
        × IsAborted s s'
        × IsWalked (owned_at w self) w [] xs w'
  handles_closed_free left s w xs e h room =
      let (w', run, walked) = portfwd_close_session_walks bound self w xs h room in
      (
        (abort_all (with_refs 0 s)).1,
        w',
        last_closes left s w e ∙ ap (freed (abort_all (with_refs 0 s)).1) run,
        abort_all-IsAborted (with_refs 0 s),
        walked,
      )

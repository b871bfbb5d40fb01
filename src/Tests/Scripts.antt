-- ===== src/Tests/Scripts.antt =====
-- The examples of the theorems on scripts, on tables for Lua and on the release of a session.
use reactos_luagent.Base.{
  ℕ, ◌≡◌, refl, arith, List, [], ◌∷◌, ◌++◌, Bytes, codes, Bool, true, false, Option, none, some, ℤ,
  pos, inr,
}
use reactos_luagent.Libc.{c_string}
use reactos_luagent.Machine.{State}
use reactos_luagent.Invariant.{Kept}
use reactos_luagent.Session.Queue.{Queued}
use reactos_luagent.Session.Release.{freed, IsAborted, handles_closed, handles_closed_free}
use reactos_luagent.Transfer.Stored.{UpTo}
use reactos_luagent.Libc.{c_string}
use reactos_luagent.Portfwd.{World, ok}
use reactos_luagent.Portfwd.Walk.Session.{IsWalked, owned_at}
use reactos_luagent.Server.{received}
use reactos_luagent.Server.Run.{Callback, client_read, timer_fired, write_done}
use reactos_luagent.Bindings.{LuaApi, scanned, returns, nothing, l_reply}
use reactos_luagent.Bindings.Replies.{kind_code, Replies, l_reply_sends}
use reactos_luagent.Frame.{FrameType, type_code}
use reactos_luagent.Bindings.Scripts.{
  Script, finished, calls, answered, port_list, Engine, run_engines, reply, proc_spawn,
  scripts-Queued, scripts-Stored,
}
use reactos_luagent.Tests.{calm_os, new_state, uploading}
use reactos_luagent.Tests.Life.{new_state-Queued, uploading-IsStored, calm_os-StoresBelowLimit}
use reactos_luagent.Tests.Relays.{two_relays, two_relays-IsEngine}

-- Values that are integers, strings or nothing.
data TestValue : Type 0 where
  absent : TestValue
  of_integer : ℤ → TestValue
  of_string : Bytes → TestValue

abbrev string_in : TestValue → Option Bytes
string_in absent = none
string_in (of_integer n) = none
string_in (of_string s) = some s

abbrev integer_in : TestValue → Option ℤ
integer_in absent = none
integer_in (of_integer n) = some n
integer_in (of_string s) = none

abbrev is_absent : TestValue → Bool
is_absent absent = true
is_absent (of_integer n) = false
is_absent (of_string s) = false

abbrev small_api : LuaApi
small_api = record {
  Value = TestValue;
  no_value = absent;
  is_none_or_nil = is_absent;
  check_string = string_in;
  check_integer = integer_in;
  check_table = λ v. none;
}

abbrev reply_args : List TestValue
reply_args = of_integer (pos 4) ∷ of_string (codes "ACK") ∷ of_string (codes "ok") ∷ []

-- Replies, spawns a process, whatever the answer was, and lists no relays.
abbrev reply_and_spawn : State → ℕ → Bytes → Script TestValue
reply_and_spawn s req_id payload = calls reply reply_args λ r.
    calls proc_spawn (of_string payload ∷ [])
      λ r'. answered port_list (returns nothing) false (finished true)

abbrev small_engine : Engine TestValue
small_engine = record { defined = λ s. true; dispatch = reply_and_spawn }

-- An OP frame of the client with the payload `ls`, which runs the script.
abbrev op_ls : Bytes
op_ls = codes "RXSH" ++ (10 ∷ 0 ∷ 4 ∷ 0 ∷ 0 ∷ 0 ∷ 2 ∷ 0 ∷ 0 ∷ 0 ∷ 108 ∷ 115 ∷ [])

abbrev scripted_runs : List (Callback × Engine TestValue)
scripted_runs =
    (client_read (received op_ls), small_engine)
    ∷ (timer_fired, small_engine)
    ∷ (write_done, small_engine)
    ∷ []

scripts-Queued_example :
    Queued (run_engines calm_os small_api (λ t p. scanned []) scripted_runs new_state)
scripts-Queued_example =
    scripts-Queued calm_os small_api (λ t p. scanned []) scripted_runs new_state new_state-Queued

scripts-Stored_example :
    Kept (UpTo calm_os) (run_engines calm_os small_api (λ t p. scanned []) scripted_runs uploading)
scripts-Stored_example =
    scripts-Stored calm_os small_api (λ t p. scanned []) calm_os-StoresBelowLimit scripted_runs
      uploading (inr uploading-IsStored)

l_reply_sends_example :
    (t : FrameType) × (type_code t ≡ kind_code (c_string (codes "ACK")))
    × Replies calm_os small_api
        (λ t p. scanned [])
        reply_args
        (pos 4)
        (codes "ACK")
        (codes "ok")
        t
        new_state
        (l_reply calm_os small_api (λ t p. scanned []) true reply_args new_state)
l_reply_sends_example =
    l_reply_sends calm_os small_api (λ t p. scanned []) reply_args (pos 4) (codes "ACK")
      (codes "ok") new_state (refl, refl, refl, refl)

-- Three references, as after a process has exited, and an upload that has begun.
abbrev three_refs : State
three_refs = record uploading { session = record uploading.session { close_refs = 3 } }

handles_closed_free_example :
    (s' : State) × (w' : World) × (handles_closed 5 7 3 three_refs two_relays ≡ freed s' (ok tt w'))
    × IsAborted three_refs s'
    × IsWalked (owned_at two_relays 7) two_relays [] (1 ∷ 0 ∷ []) w'
handles_closed_free_example =
    handles_closed_free 5 7 2 three_refs two_relays (1 ∷ 0 ∷ []) refl two_relays-IsEngine
      (omega arith)

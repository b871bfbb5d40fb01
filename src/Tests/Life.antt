-- ===== src/Tests/Life.antt =====
-- The examples of the theorems on what a session does.
use reactos_luagent.Base.{
  length, List, negsuc, ℕ, ◌≡◌, ◌≢◌, ◌≤◌, refl, ◌+◌, inr, true, false, [], ◌∷◌, arith, Bytes, codes,
  pos, is_neg, length-take,
}
use reactos_luagent.Libc.{decimal, digits_loop}
use reactos_luagent.Diag.{count_with}
use reactos_luagent.Frame.{type_code, frame_encode_header}
use reactos_luagent.Machine.{
  State, timer_start, timer_init, ◌>>=◌, util_now_ms, Os, success, tcp_handle, timer_handle,
  timer_stop, close,
}
use reactos_luagent.Machine.Keeps.{Keeps, Keeps-pure}
use reactos_luagent.Session.{
  max_write_queue_bytes, session_send_frame, send_allocated, send_encoded, frame_header,
  send_buffer, uv_write, util_snprintf,
}
use reactos_luagent.Session.Queue.{Queued}
use reactos_luagent.Invariant.{Kept, stored}
use reactos_luagent.Transfer.{reset_transfer}
use reactos_luagent.Transfer.Upload.{
  put_chunk_write, transfer_finalize_rename, put_end_reply, end_reply, transfer_handle_put_chunk,
  transfer_handle_put_end,
}
use reactos_luagent.Transfer.Stored.{IsStored, StoresBelowLimit, UpTo}
use reactos_luagent.Transfer.Complete.{before_rename, put_end_complete}
use reactos_luagent.Transfer.Whole.{joined, put_chunks, upload_whole}
use reactos_luagent.Transfer.Download.{get_round, get_sent, get_loop, finished, out_of_fuel}
use reactos_luagent.Transfer.Bounded.{ReadsAtMost, InBounds, get_loop_fits, get_loop_enough}
use reactos_luagent.Server.Silent.{silent_closes}
use reactos_luagent.Proc.{ended}
use reactos_luagent.Server.{received, rx_capacity}
use reactos_luagent.Server.Accept.{
  accept_timers, on_new_connection, on_new_connection_starts, timer_closed_twice,
}
use reactos_luagent.Server.Run.{
  Callback, run_callback, stdout_read, run_callbacks, client_read, timer_fired, write_done,
  run-Queued, run-Stored,
}
use reactos_luagent.Tests.{
  new_session, calm_os, idle_lua, new_state, uploading, uploaded, downloading,
}

pub new_state-Queued : Queued new_state
new_state-Queued = record { counted = refl; bounded = omega arith }

idle_lua-Queued : (req_id : ℕ) (payload : Bytes) → Keeps Queued (idle_lua.pcall req_id payload)
idle_lua-Queued req_id payload = Keeps-pure true

pub calm_os-StoresBelowLimit : StoresBelowLimit calm_os
calm_os-StoresBelowLimit = record { below = λ t fd b o ok whole. ground arith }

calm_os-ReadsAtMost : ReadsAtMost calm_os
calm_os-ReadsAtMost = record {
  at_most = λ t fd n o b e. ground (arith, length-take n (codes "................"));
}

idle_lua-Stored :
    (req_id : ℕ) (payload : Bytes) → Keeps (Kept (UpTo calm_os)) (idle_lua.pcall req_id payload)
idle_lua-Stored req_id payload = Keeps-pure true

-- A PING frame of the client.
abbrev pub ping_bytes : Bytes
ping_bytes = 82 ∷ 88 ∷ 83 ∷ 72 ∷ 50 ∷ 0 ∷ 1 ∷ 0 ∷ 0 ∷ 0 ∷ 0 ∷ 0 ∷ 0 ∷ 0 ∷ []

run-Queued_example : Queued (
    run_callbacks calm_os idle_lua
      (client_read (received ping_bytes) ∷ timer_fired ∷ write_done ∷ [])
      new_state)
run-Queued_example =
    run-Queued calm_os idle_lua idle_lua-Queued
      (client_read (received ping_bytes) ∷ timer_fired ∷ write_done ∷ []) new_state new_state-Queued

pub uploading-IsStored : IsStored true 0 3 []
uploading-IsStored = record {
  is_active = refl;
  all_stored = refl;
  in_size = omega arith;
  in_file = omega arith;
}

run-Stored_example : Kept (UpTo calm_os) (
    run_callbacks calm_os idle_lua
      (client_read (received ping_bytes) ∷ timer_fired ∷ write_done ∷ [])
      uploading)
run-Stored_example =
    run-Stored calm_os idle_lua calm_os-StoresBelowLimit idle_lua-Stored
      (client_read (received ping_bytes) ∷ timer_fired ∷ write_done ∷ []) uploading
      (inr uploading-IsStored)

abbrev chunk : Bytes
chunk = 120 ∷ 121 ∷ 122 ∷ []

chunk-success : (transfer_handle_put_chunk calm_os 9 chunk uploading).0 ≡ success
unfolding transfer_handle_put_chunk ◌>>=◌ put_chunk_write
chunk-success = refl

end-success : (transfer_handle_put_end calm_os 9 uploaded).0 ≡ success
unfolding transfer_handle_put_end ◌>>=◌ transfer_finalize_rename put_end_reply util_snprintf
    end_reply decimal digits_loop
end-success = refl

put_end_complete_example :
    (uploaded.session.upload.active ≡ true)
    × (uploaded.session.upload.req_id ≡ 9)
    × (uploaded.session.upload.offset ≡ uploaded.session.upload.total_size)
    × (is_neg (calm_os.close_result [] (pos 5)) ≡ false)
    × (is_neg (
          calm_os.rename_result
            (before_rename uploaded.session.upload [])
            (codes "a.part")
            (codes "a"))
        ≡ false)
    × ((transfer_handle_put_end calm_os 9 uploaded).1.session.upload ≡ reset_transfer)
put_end_complete_example = put_end_complete calm_os 9 uploaded end-success

downloading-InBounds : InBounds calm_os 9 downloading
downloading-InBounds = record {
  in_size = omega arith;
  size_u64 = omega arith;
  in_queue = omega arith;
}

loop-finished : (get_loop calm_os 7 9 downloading).0 ≡ finished
unfolding get_loop get_round ◌>>=◌ get_sent session_send_frame send_allocated send_encoded
    frame_encode_header frame_header type_code send_buffer uv_write util_now_ms count_with
loop-finished = refl

get_loop_fits_example : 0 + 6 ≤ max_write_queue_bytes
get_loop_fits_example =
    get_loop_fits calm_os 9 7 downloading calm_os-ReadsAtMost downloading-InBounds loop-finished

get_loop_enough_example : (get_loop calm_os 7 9 downloading).0 ≢ out_of_fuel
get_loop_enough_example =
    get_loop_enough calm_os 9 7 downloading calm_os-ReadsAtMost downloading-InBounds (omega arith)

-- The clock of the session at 20 seconds.
abbrev late_os : Os
late_os = record calm_os { nanoseconds = λ t. 20000000000 }

abbrev silent_life : List Callback
silent_life = write_done ∷ stdout_read ended ∷ []

silent_closes_example :
    (run_callback late_os idle_lua timer_fired
      (run_callbacks late_os idle_lua silent_life new_state)).session.closed
    ≡ true
silent_closes_example =
    silent_closes late_os idle_lua silent_life new_state (refl, (refl, tt)) (omega arith)
      (omega arith)

on_new_connection_starts_example :
    Queued (on_new_connection calm_os 2 new_state).1
    × Kept (UpTo calm_os) (on_new_connection calm_os 2 new_state).1
    × ((on_new_connection calm_os 2 new_state).1.session.rx_cap ≡ rx_capacity)
on_new_connection_starts_example = on_new_connection_starts calm_os 2 new_state refl

-- A system whose timers do not start, and a session before its timer.
abbrev stuck_os : Os
stuck_os = record calm_os { timer_start_result = λ t. negsuc 0 }

abbrev untimed : State
untimed = record new_state { session = record new_session { timer_started = false } }

timer_closed_twice_example :
    (accept_timers stuck_os untimed).1.trace
    ≡ close tcp_handle
      ∷ close timer_handle
      ∷ timer_stop
      ∷ close timer_handle
      ∷ timer_start
      ∷ timer_init
      ∷ []
timer_closed_twice_example = timer_closed_twice stuck_os untimed refl refl refl

-- The upload of three bytes in two chunks.
abbrev two_chunks : List Bytes
two_chunks = (120 ∷ []) ∷ (121 ∷ 122 ∷ []) ∷ []

two_chunks-success : (put_chunks calm_os 9 two_chunks uploading).0 ≡ true
unfolding put_chunks transfer_handle_put_chunk ◌>>=◌ put_chunk_write util_now_ms
two_chunks-success = refl

two_chunks_end :
    (transfer_handle_put_end calm_os 9 (put_chunks calm_os 9 two_chunks uploading).1).0 ≡ success
unfolding put_chunks transfer_handle_put_chunk ◌>>=◌ put_chunk_write util_now_ms
    transfer_handle_put_end transfer_finalize_rename put_end_reply util_snprintf end_reply decimal
    digits_loop
two_chunks_end = refl

upload_whole_example :
    (stored calm_os (put_chunks calm_os 9 two_chunks uploading).1.trace ≡ joined two_chunks)
    × (length (joined two_chunks) ≡ 3)
upload_whole_example =
    upload_whole calm_os 9 calm_os-StoresBelowLimit two_chunks uploading uploading-IsStored
      two_chunks-success two_chunks_end

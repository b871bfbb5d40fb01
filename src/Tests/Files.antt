-- ===== src/Tests/Files.antt =====
-- The examples of a download that is served whole, and of a process that ends.
use reactos_luagent.Base.{
  List, [], ◌∷◌, pos, ◌≡◌, refl, Bytes, codes, some, take, drop, length-take, take-length-take,
  arith,
}
use reactos_luagent.Kv.{kv_copy, kv_value, kv_value_loop, line_matches, kv_u64_default}
use reactos_luagent.Libc.{decimal, digits_loop, c_string, strchr}
use reactos_luagent.Diag.{count_with}
use reactos_luagent.Frame.{type_code, frame_encode_header}
use reactos_luagent.Machine.{Os, success, ◌>>=◌, util_now_ms}
use reactos_luagent.Session.{
  session_send_frame, session_send_text, send_allocated, send_encoded, frame_header, send_buffer,
  uv_write, util_snprintf,
}
use reactos_luagent.Transfer.{transfer_reset, put_transfer}
use reactos_luagent.Transfer.Upload.{begin_reply}
use reactos_luagent.Transfer.Download.{
  transfer_handle_get_begin, get_open, get_send, get_loop, get_round, get_sent, get_finish,
}
use reactos_luagent.Transfer.Bounded.{ReadsAtMost}
use reactos_luagent.Transfer.Served.{Serves}
use reactos_luagent.Transfer.Fetched.{HoldsFile, get_begin-Serves}
use reactos_luagent.Proc.{ended, bytes}
use reactos_luagent.Proc.Life.{Done}
use reactos_luagent.Proc.Closes.{proc_view}
use reactos_luagent.Server.Run.{
  Callback, timer_fired, stdout_read, stderr_read, process_exited, run_callbacks,
}
use reactos_luagent.Server.Finalized.{process_finalizes}
use reactos_luagent.Tests.{calm_os, idle_lua, new_state, running}

-- A system with one file.
abbrev six_bytes : Bytes
six_bytes = codes "abcdef"

abbrev file_os : Os
file_os = record calm_os { read_result = λ t f n o. some (take n (drop o six_bytes)) }

file_os-HoldsFile : HoldsFile file_os six_bytes
file_os-HoldsFile = record {
  reads =
      λ fd. record { prefix = λ t n o b e. ground (arith, take-length-take n (drop o six_bytes)) };
  status = λ t fd. refl;
}

file_os-ReadsAtMost : ReadsAtMost file_os
file_os-ReadsAtMost = record {
  at_most = λ t fd n o b e. ground (arith, length-take n (drop o six_bytes));
}

abbrev get_a : Bytes
get_a = codes "path=a\nchunk_size=4"

get_a-success : (transfer_handle_get_begin file_os 9 get_a new_state).0 ≡ success
unfolding transfer_handle_get_begin get_open get_send get_loop get_round get_sent get_finish ◌>>=◌
    kv_copy kv_value kv_value_loop strchr line_matches kv_u64_default decimal digits_loop c_string
    session_send_frame session_send_text send_allocated send_encoded frame_encode_header
    frame_header type_code send_buffer uv_write util_now_ms count_with util_snprintf begin_reply
    transfer_reset put_transfer
get_a-success = refl

get_begin-Serves_example :
    (path : Bytes) × (kv_copy 512 get_a (codes "path") ≡ some path)
    × Serves file_os 9 path six_bytes new_state
        (transfer_handle_get_begin file_os 9 get_a new_state)
get_begin-Serves_example =
    get_begin-Serves file_os 9 get_a six_bytes new_state file_os-HoldsFile file_os-ReadsAtMost
      (omega arith) get_a-success

-- A process writes, exits, and closes its streams.
abbrev ending : List Callback
ending =
    stdout_read (bytes (codes "ok"))
    ∷ process_exited (pos 0)
    ∷ stderr_read ended
    ∷ timer_fired
    ∷ stdout_read ended
    ∷ []

process_finalizes_example : Done 0 0 0 (proc_view (run_callbacks calm_os idle_lua ending running))
process_finalizes_example =
    process_finalizes calm_os idle_lua ending running refl refl refl
      (refl, (refl, (refl, (refl, (refl, refl, refl)))))

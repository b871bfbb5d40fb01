-- ===== src/Tests/Serial.antt =====
-- The examples of the theorems on the serial shell, the client and the arguments of a process.
use reactos_luagent.Base.{
  ℕ, ◌+◌, ◌≡◌, refl, sym, ap, ◌∙◌, drop, drop-append, length, true, false, List, All, [], ◌∷◌, ◌++◌,
  Bytes, codes, none, some, arith, take,
}
use reactos_luagent.Libc.{strchr, decimal, digits_loop}
use reactos_luagent.Kv.{kv_copy, kv_value, kv_value_loop, line_matches}
use reactos_luagent.Machine.{◌>>=◌}
use reactos_luagent.Session.{util_snprintf}
use reactos_luagent.Shell.{
  wrote, create_process, overread, close_handle, read_end, write_end, nul, Input, repl_readline,
}
use reactos_luagent.Shell.Commands.{Windows, same_text, run_cmd, repl_loop}
use reactos_luagent.Shell.Pipe.{pipe_output, terminal, pipe_output-crlf}
use reactos_luagent.Shell.Handles.{opened, closed, run_cmd_closes}
use reactos_luagent.Shell.Script.{IsLine, script, run_script, repl_runs_script}
use reactos_luagent.Shell.Screen.{Reads, repl_readline_shows}
use reactos_luagent.Shell.Overread.{tried, run_cmd_overreads}
use reactos_luagent.Client.{Wire, Network, Reply, ok, upload}
use reactos_luagent.Client.Working.{Works}
use reactos_luagent.Client.Succeeds.{IsAccepted, answers, upload_succeeds}
use reactos_luagent.Client.Sent.{Writes}
use reactos_luagent.Client.Wires.{Decodes}
use reactos_luagent.Client.Uploaded.{joined, IsChunk, upload_frames, upload_sends}
use reactos_luagent.Proc.Args.{
  argv_value, argv_key, count_args, copy_args, copy_one, proc_build_args,
}
use reactos_luagent.Proc.Vector.{Built, counted, proc_build_args_builds}
use reactos_luagent.Tests.{calm_os, new_state}

abbrev calm_windows : Windows
calm_windows = record {
  directory_ok = λ t d. true;
  directory = λ t. some (codes "C:\\");
  pipe_ok = λ t. true;
  process_ok = λ t c. true;
  thread_ok = λ t. true;
  times_out = λ t. false;
  last_error = λ t. 2;
}

pipe_output-crlf_example :
    terminal (pipe_output (some (codes "a\nb") ∷ some (codes "\n") ∷ none ∷ []) []).1
    ≡ codes "a\r\nb\r\n"
pipe_output-crlf_example = pipe_output-crlf (some (codes "a\nb") ∷ some (codes "\n") ∷ none ∷ []) []

run_cmd_closes_example :
    opened calm_windows nul (run_cmd calm_windows (codes "dir") []).1 + closed nul []
    ≡ opened calm_windows nul [] + closed nul (run_cmd calm_windows (codes "dir") []).1
run_cmd_closes_example = run_cmd_closes calm_windows nul (codes "dir") []

dir-IsLine : IsLine (codes "dir")
unfolding same_text
dir-IsLine = record {
  typed = ((refl, omega arith), ((refl, omega arith), ((refl, omega arith), tt)));
  not_empty = omega arith;
  fits = omega arith;
  stays = refl;
}

repl_runs_script_example :
    repl_loop calm_windows (script (codes "dir" ∷ []) []) []
    ≡ run_script calm_windows
        (codes "dir" ∷ [])
        (wrote (codes "\r\n=== ReactOS Serial Shell ===\r\n") ∷ [])
repl_runs_script_example = repl_runs_script calm_windows (codes "dir" ∷ []) [] [] (dir-IsLine, tt)

-- `dor`, corrected to `dir`, after the prompt.
abbrev corrected : Input
corrected =
    some 100 ∷ some 111 ∷ some 114 ∷ none ∷ some 8 ∷ some 127 ∷ some 105 ∷ some 114 ∷ some 13 ∷ []

repl_readline_shows_example :
    let r = repl_readline 256 corrected [] in Reads 256 corrected (codes "$ ") [] [] r.0 r.1
repl_readline_shows_example = repl_readline_shows 256 corrected [] (codes "$ ") (omega arith)

-- A Windows that starts no program, and a long line.
abbrev bare_windows : Windows
bare_windows = record calm_windows { process_ok = λ t c. false }

abbrev xs : ℕ → Bytes
xs n = take n (ten ++ ten ++ ten)
  where
    ten : Bytes
    ten =
        codes
          "xxxxxxxxxxxxxxxxxxxxxxxxxxxxxxxxxxxxxxxxxxxxxxxxxxxxxxxxxxxxxxxxxxxxxxxxxxxxxxxxxxxxxxxxxxxxxxxxxxxx"

run_cmd_overreads_example :
    (run_cmd bare_windows (xs 240) []).1
    ≡ tried bare_windows (xs 240) []
      ++ (create_process (codes "cmd.exe /c " ++ xs 240) ∷ [])
      ++ (overread ∷ [])
      ++ (close_handle write_end ∷ [])
      ++ (close_handle nul ∷ [])
      ++ (close_handle read_end ∷ [])
run_cmd_overreads_example = run_cmd_overreads bare_windows (xs 240) [] refl refl refl (omega arith)

-- A request with two arguments.
abbrev two_arguments : Bytes
two_arguments = codes "path=p\nargv0=a\nargv1=b"

two_arguments-built :
    (proc_build_args calm_os two_arguments (codes "p") new_state).0
    ≡ some (codes "a" ∷ codes "b" ∷ [])
unfolding proc_build_args argv_value argv_key count_args copy_args copy_one ◌>>=◌ util_snprintf
    decimal digits_loop kv_copy kv_value kv_value_loop line_matches strchr
two_arguments-built = refl

proc_build_args_builds_example :
    (argv_value two_arguments (counted two_arguments) ≡ none)
    × Built two_arguments (codes "p") (counted two_arguments) (codes "a" ∷ codes "b" ∷ [])
proc_build_args_builds_example =
    proc_build_args_builds calm_os two_arguments (codes "p") new_state (codes "a" ∷ codes "b" ∷ [])
      (omega arith) two_arguments-built

-- A network that takes two bytes at a time, and a server that answers with an empty ACK.
abbrev slow_network : Network
slow_network = record {
  send = λ sent p. 2;
  recv = λ received n. take n (codes "RXSH" ++ (2 ∷ 0 ∷ 100 ∷ 0 ∷ 0 ∷ 0 ∷ 0 ∷ 0 ∷ 0 ∷ 0 ∷ []));
  calloc = λ received n. true;
}

abbrev unsent : Wire
unsent = record { sent = []; received = [] }

upload_sends_example :
    (chunks : List Bytes) × (joined chunks ≡ codes "abc")
    × All IsChunk chunks
    × (out : Bytes) × Decodes out (upload_frames (codes "p") 3 chunks)
    × Writes out unsent (upload slow_network (codes "p") 3 false (codes "abc" ∷ []) unsent)
upload_sends_example =
    upload_sends slow_network (codes "p") 3 false (codes "abc") (codes "abc" ∷ []) unsent
      (refl, refl)

-- A network that takes two bytes at a time and gives all that are wanted of two empty ACKs.
abbrev ack_reply : Reply
ack_reply = record { type = 2; req_id = 100; payload = [] }

ack_reply-IsAccepted : IsAccepted ack_reply
ack_reply-IsAccepted = record {
  req_id_u32 = omega arith;
  fits = omega arith;
  no_error = omega arith;
}

abbrev two_acks : Network
two_acks = record slow_network {
  recv = λ received n. take n (drop (length received) (answers ack_reply ack_reply));
}

two_acks-Works : Works two_acks (answers ack_reply ack_reply)
two_acks-Works = record {
  sends = λ sent c cs. omega arith;
  allocates = λ received n. refl;
  answered = λ received rest n at some room. (
    n,
    some,
    omega arith,
    ap (λ all. take n (drop (length received) all)) (sym at)
        ∙ ap (λ r. take n r) (drop-append (length received) received rest refl),
  );
}

upload_succeeds_example :
    (w' : Wire) × (upload two_acks (codes "p") 3 false (codes "abc" ∷ []) unsent ≡ ok tt w')
    × (chunks : List Bytes) × (joined chunks ≡ codes "abc")
    × All IsChunk chunks
    × (out : Bytes) × Decodes out (upload_frames (codes "p") 3 chunks)
    × (w'.sent ≡ [] ++ out)
upload_succeeds_example =
    upload_succeeds two_acks ack_reply ack_reply (codes "p") 3 (codes "abc") (codes "abc" ∷ [])
      unsent ack_reply-IsAccepted ack_reply-IsAccepted two_acks-Works (refl, refl) refl

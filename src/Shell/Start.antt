-- ===== src/Shell/Start.antt =====
-- The start of the serial shell of hello.c: the choice of its transport, and `main`.
use reactos_luagent.Base.{Bool, true, false, if◌then◌else◌, List, [], ◌∷◌, Bytes, codes, bytes_eq}
use reactos_luagent.Shell.{
  Trace, transport, debug, close_handle, open_com2, configure_com2, get_std_handles, Shell, pure,
  emit, ask, ◌>>=◌, ◌>>◌, when, Input,
}
use reactos_luagent.Shell.Commands.{Windows, repl_loop}

-- Whether COM2 can be opened, and whether the two standard handles are one handle that is valid.
pub record Ports : Type 0 where
  pub com2_ok : Trace → Bool
  pub std_same : Trace → Bool

module _ (w : Windows) (p : Ports) where
  -- The settings have no result that is looked at.
  unfoldable pub init_com2 : Shell Bool
  init_com2 = do opened ← ask open_com2 p.com2_ok; when opened (emit configure_com2); pure opened

  -- Whether `hIn` and `hOut` are one valid handle then.
  unfoldable pub init_stdio : Shell Bool
  init_stdio = ask get_std_handles p.std_same

  abbrev pub init_either : Bool → Shell Bool
  init_either true = do emit (debug (codes "serial-shell: ready on COM2\n")); pure true
  init_either false = do
    emit (debug (codes "serial-shell: Failed to open COM2, using stdio\n"))
    init_stdio

  -- With the arguments behind the name of the program.
  unfoldable pub init_transport : List Bytes → Shell Bool
  unfolding init_com2 init_stdio
  init_transport [] = do opened ← init_com2; init_either opened
  init_transport (first ∷ more) =
      if bytes_eq first (codes "--stdio")
      then init_stdio
      else (do opened ← init_com2; init_either opened)

  -- Where the loop waits for ever, the handle stays open.
  unfoldable pub shell_main : List Bytes → Input → Shell Bool
  unfolding init_transport
  shell_main args input = do
    one_handle ← init_transport args
    ended ← repl_loop w input
    if ended then (do when one_handle (emit (close_handle transport)); pure true) else pure false

-- ===== src/Runtime/Endings.antt =====
-- When `serve` ends without an error.
use certael_agent.Protocol.Messages.{BoundAgentLaunch}
use certael_agent.Runtime.Admission.{broken, Tools, disconnected, Incoming, arrived}
use certael_agent.Runtime.{finished, Outcome, RuntimeState}
use certael_agent.Prelude.{◌≡◌, is_empty, err, true}
use certael_agent.Ipc.{io, Frame, shutdown}
use certael_agent.Runtime.Deadlines.{Loop}

-- The game said so, its channel could not be read (at its end, or in the middle of a frame), or the
-- reader thread is gone.
pub data IsClosing : Incoming → Type 0 where
  told : {f : Frame} → f.message_type ≡ shutdown → is_empty f.payload ≡ true → IsClosing (arrived f)
  cut : IsClosing (broken io)
  gone : IsClosing disconnected

module _ (t : Tools) (state : RuntimeState) (b : BoundAgentLaunch) where
  record EndsBy (i : Incoming) (o : Outcome Loop) : Type 0 where
    ends : o.result ≡ err finished → IsClosing i

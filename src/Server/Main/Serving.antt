-- ===== src/Server/Main/Serving.antt =====
-- The main loop goes on over short frames and rounds of the time-out thread.
use internet_course.Base.{ℕ, List, [], ◌∷◌, ◌++◌, length}
use internet_course.Iface.{SrIf}
use internet_course.Route.{SrRt}
use internet_course.Router.Send.{packet_message}
use internet_course.Router.Returning.Sweeping.{Mapped}
use internet_course.Server.Session.{Session, World}
use internet_course.Server.Main.{Turn, reads, sweeps}
use internet_course.Server.Main.Steady.{Carried, IsHandled}

-- What happens to the router in this second.
pub data Step : Type 0 where
  frame_comes : Carried → Step
  thread_wakes : Step

-- What the server sends in these steps.
abbrev pub stream : List Step → List ℕ
stream [] = []
stream (frame_comes m ∷ steps) = packet_message m.frame (length m.frame) m.name ++ stream steps
stream (thread_wakes ∷ steps) = stream steps

module _ (w : World) (fuel now : ℕ) (ifs : List SrIf) (table : List SrRt) where
  -- The turns of the main loop and the thread.
  abbrev pub turns_of : List Step → List Turn → List Turn
  turns_of [] turns = turns
  turns_of (frame_comes m ∷ steps) turns = reads now ∷ turns_of steps turns
  turns_of (thread_wakes ∷ steps) turns = sweeps now ∷ turns_of steps turns

  -- A frame that can be handled, or a round of the thread that finds mapped memory.
  abbrev pub IsServed : Step → Type 0
  IsServed (frame_comes m) = IsHandled ifs m
  IsServed thread_wakes = Mapped w.env table

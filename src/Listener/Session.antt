-- ===== src/Listener/Session.antt =====
-- internal/runtime/listener/server.go: a session, with the loop runSessionLoop as a step relation. A
-- client is a number, and `opened` has the connections that are not closed. What the loop does with a
-- connection while it has it, and its goroutines, are not modelled. Other goroutines close the client
-- of a session, or record an error in it, between the steps of its loop.
pub mod Laws
use awiki_cli.Base.{
  ℕ, ◌*◌, ◌≡◌, Bool, true, false, not, ◌&&◌, List, [], ◌∷◌, Option, none, some, if◌then◌else◌, ltb,
  ◌==◌,
}
use awiki_cli.Text.{Text}

-- A failure; `cancelled` is one that is context.Canceled.
pub data Failure : Type 0 where
  cancelled : Failure
  failure : Text → Failure

pub data Phase : Type 0 where
  connecting : Phase
  serving : Phase
  sleeping : Phase
  ended : Phase

-- `initial` is what initResult was sent, if it was; `delay` and `local` are the variables delay and
-- client of the loop.
pub record Session : Type 0 where
  pub did : Option Text
  pub client : Option ℕ
  pub connected : Bool
  pub last_error : Text
  pub initial : Option (Option Failure)
  pub opened : List ℕ
  pub delay : ℕ
  pub local : Option ℕ
  pub phase : Phase

-- In nanoseconds.
abbrev pub session_reconnect_base_delay : ℕ
session_reconnect_base_delay = 1000000000

abbrev pub session_reconnect_max_delay : ℕ
session_reconnect_max_delay = 30000000000

unfoldable pub min_duration : ℕ → ℕ → ℕ
min_duration value max = if ltb max value then max else value

-- Close of a client.
unfoldable pub close : ℕ → List ℕ → List ℕ
close c [] = []
close c (d ∷ ds) = if d == c then close c ds else d ∷ close c ds

unfoldable pub close_some : Option ℕ → List ℕ → List ℕ
close_some none ds = ds
close_some (some c) ds = close c ds

-- The client that markConnected closes: one that is not the new one.
unfoldable pub close_other : Option ℕ → ℕ → List ℕ → List ℕ
close_other none c ds = ds
close_other (some d) c ds = if d == c then ds else close d ds

unfoldable pub mark_connected : Text → ℕ → Session → Session
mark_connected did c s = record s {
  did = some did;
  client = some c;
  connected = true;
  last_error = [];
  opened = close_other s.client c s.opened;
}

abbrev pub error_after : Option Failure → Text → Text
error_after none last = last
error_after (some cancelled) last = last
error_after (some (failure e)) last = e

unfoldable pub mark_disconnected : Option Failure → Session → Session
mark_disconnected e s = record s {
  client = none;
  connected = false;
  last_error = error_after e s.last_error;
  opened = close_some s.client s.opened;
}

unfoldable pub close_current_client : Session → Session
close_current_client s = record s {
  client = none;
  connected = false;
  opened = close_some s.client s.opened;
}

abbrev pub first_signal : Option Failure → Option (Option Failure) → Option (Option Failure)
first_signal e none = some e
first_signal e (some first) = some first

-- Only the first signal is sent.
unfoldable pub signal_initial : Option Failure → Session → Session
signal_initial e s = record s { initial = first_signal e s.initial }

-- The delay behind a sleep.
unfoldable pub longer : Session → Session
longer s = record s {
  delay = min_duration (s.delay * 2) session_reconnect_max_delay;
  phase = connecting;
}

-- A connection is dialled: one that was not open is.
unfoldable pub dialled : ℕ → Session → Session
dialled c s = record s {
  opened = c ∷ s.opened;
  local = some c;
  delay = session_reconnect_base_delay;
  phase = serving;
}

unfoldable pub lost : Option Failure → Session → Session
lost e s = mark_disconnected e (record s { opened = close_some s.local s.opened })

-- A session as ensureSession makes it, when the loop begins.
abbrev pub new_session : Session
new_session = record {
  did = none;
  client = none;
  connected = false;
  last_error = [];
  initial = none;
  opened = [];
  delay = session_reconnect_base_delay;
  local = none;
  phase = connecting;
}

-- The steps of the loop, each between two points at which it waits or looks at the context, and at any
-- time those of the supervisor: Close, and recordSessionError, which has an error.
pub data Step : Session → Session → Type 0 where
  done :
      (s : Session)
      → s.phase ≡ connecting
      → Step s (record (close_current_client s) { phase = ended })
  refused :
      (s : Session) (e : Failure)
      → s.phase ≡ connecting
      → Step s
          (signal_initial (some e) (mark_disconnected (some e) (record s { phase = sleeping })))
  connect :
      (s : Session) (did : Text) (c : ℕ)
      → s.phase ≡ connecting
      → Step s (signal_initial none (mark_connected did c (dialled c s)))
  drop :
      (s : Session) (e : Option Failure)
      → s.phase ≡ serving
      → Step s (lost e (record s { phase = sleeping }))
  stop :
      (s : Session) (e : Option Failure)
      → s.phase ≡ serving
      → Step s (lost e (record s { phase = ended }))
  wake : (s : Session) → s.phase ≡ sleeping → Step s (longer s)
  cancel : (s : Session) → s.phase ≡ sleeping → Step s (record s { phase = ended })
  close_all : (s : Session) → Step s (close_current_client s)
  record_error : (s : Session) (e : Failure) → Step s (mark_disconnected (some e) s)

pub data Steps (s : Session) : Session → Type 0 where
  here : Steps s s
  then_step : (t u : Session) → Steps s t → Step t u → Steps s u

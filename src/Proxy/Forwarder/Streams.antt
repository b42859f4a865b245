-- ===== src/Proxy/Forwarder/Streams.antt =====
-- The two directions of Forward (proxy/forwarder.go) and its select loop, as three processes that
-- take steps in any order. A channel of size one is the last phase of the goroutine that sends on it.
pub mod Order
pub mod Delivery
pub mod Settling
use g_rpcat.Base.{
  ℕ, ◌≡◌, ◌≢◌, Bool, true, false, not, List, [], ◌∷◌, ◌++◌, Option, none, some, if◌then◌else◌,
}
use g_rpcat.Proxy.Forwarder.Errors.{Error, is_eof}

abbrev pub Message : Type 0
Message = List ℕ

-- backendReport
pub record BackendReport : Type 0 where
  pub error : Error
  pub backend_done : Bool

-- Where a goroutine is: about to call RecvMsg, about to call SendMsg, or ended, with what it sent on
-- its channel, until that is taken.
pub data Phase (R : Type 0) : Type 0 where
  receiving : Phase R
  sending : Message → Phase R
  stopped : R → Phase R
  taken : Phase R

-- Where Forward is: at the select, at `<-s2cCh` with the error that it returns then, or returned.
pub data Main : Type 0 where
  selecting : Main
  draining : Error → Main
  returned : Option Error → Main

-- The backend's headers: Header is still waiting for them, it gave none, or they were sent on.
pub data HeaderState : Type 0 where
  awaited absent forwarded : HeaderState

-- What is left to come from each side, what each side was sent, the calls on the streams, and
-- whether serverStream.Context() has ended.
pub record Session : Type 0 where
  pub from_client : List Message
  pub to_backend : List Message
  pub up : Phase Error
  pub from_backend : List Message
  pub to_client : List Message
  pub down : Phase BackendReport
  pub header : HeaderState
  pub main : Main
  pub half_closed : Bool
  pub trailer_set : Bool
  pub cancelled : Bool
  pub context_done : Bool

-- The session when the loop starts: the client sends `cs` and the backend `bs`, `sent` being the
-- first frame, if there was one.
unfoldable pub start_session : List Message → List Message → List Message → Session
start_session sent cs bs = record {
  from_client = cs;
  to_backend = sent;
  up = receiving;
  from_backend = bs;
  to_client = [];
  down = receiving;
  header = awaited;
  main = selecting;
  half_closed = false;
  trailer_set = false;
  cancelled = false;
  context_done = false;
}

-- case res := <-s2cCh
unfoldable pub take_report : BackendReport → Session → Session
take_report res s =
    if not res.backend_done
    then record s { down = taken; cancelled = true; main = returned (some res.error) }
    else if is_eof res.error
    then record s { down = taken; trailer_set = true; main = returned none }
    else record s {
      down = taken;
      trailer_set = true;
      cancelled = true;
      main = returned (some res.error);
    }

-- case c2sErr := <-c2sErrChan
unfoldable pub take_client_error : Error → Session → Session
take_client_error e s =
    if not (is_eof e)
    then record s {
      up = taken;
      cancelled = true;
      main = if s.context_done then draining e else returned (some e);
    }
    else record s { up = taken; half_closed = true }

-- The steps. RecvMsg gives io.EOF only behind the last message, and any other error at any time;
-- SendMsg can fail at any time. The backend's messages follow its headers, and the context can end
-- at any time.
pub data Step : Session → Session → Type 0 where
  up_receives :
      (s : Session) (x : Message) (xs : List Message)
      → s.up ≡ receiving
      → s.from_client ≡ x ∷ xs
      → Step s (record s { up = sending x; from_client = xs })
  up_ends :
      (s : Session) (e : Error)
      → s.up ≡ receiving
      → (is_eof e ≡ true → s.from_client ≡ [])
      → Step s (record s { up = stopped e })
  up_sends :
      (s : Session) (x : Message)
      → s.up ≡ sending x
      → Step s (record s { up = receiving; to_backend = s.to_backend ++ x ∷ [] })
  up_fails_to_send :
      (s : Session) (x : Message) (e : Error)
      → s.up ≡ sending x
      → Step s (record s { up = stopped e })
  -- Header gives none when the stream has ended without them.
  header_is_absent :
      (s : Session)
      → s.down ≡ receiving
      → s.header ≡ awaited
      → Step s (record s { header = absent })
  header_comes :
      (s : Session)
      → s.down ≡ receiving
      → s.header ≡ awaited
      → Step s (record s { header = forwarded })
  header_fails :
      (s : Session) (e : Error)
      → s.down ≡ receiving
      → s.header ≡ awaited
      → Step s (record s { down = stopped (record { error = e; backend_done = false }) })
  down_receives :
      (s : Session) (x : Message) (xs : List Message)
      → s.down ≡ receiving
      → s.header ≡ forwarded
      → s.from_backend ≡ x ∷ xs
      → Step s (record s { down = sending x; from_backend = xs })
  down_ends :
      (s : Session) (e : Error)
      → s.down ≡ receiving
      → s.header ≢ awaited
      → (is_eof e ≡ true → s.from_backend ≡ [])
      → Step s (record s { down = stopped (record { error = e; backend_done = true }) })
  down_sends :
      (s : Session) (x : Message)
      → s.down ≡ sending x
      → Step s (record s { down = receiving; to_client = s.to_client ++ x ∷ [] })
  down_fails_to_send :
      (s : Session) (x : Message) (e : Error)
      → s.down ≡ sending x
      → Step s (record s { down = stopped (record { error = e; backend_done = false }) })
  main_takes_report :
      (s : Session) (res : BackendReport)
      → s.main ≡ selecting
      → s.down ≡ stopped res
      → Step s (take_report res s)
  main_takes_client_error :
      (s : Session) (e : Error)
      → s.main ≡ selecting
      → s.up ≡ stopped e
      → Step s (take_client_error e s)
  main_drains :
      (s : Session) (e : Error) (res : BackendReport)
      → s.main ≡ draining e
      → s.down ≡ stopped res
      → Step s (record s { down = taken; main = returned (some e) })
  context_ends : (s : Session) → s.context_done ≡ false → Step s (record s { context_done = true })

pub data Reach (s : Session) : Session → Type 0 where
  here : Reach s s
  next : {t u : Session} → Reach s t → Step t u → Reach s u

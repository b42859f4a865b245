-- ===== src/Proxy/Forwarder/Tests.antt =====
-- Runs of Forward, and its laws at concrete requests.
use g_rpcat.Base.{
  ◌≡◌, refl, true, false, [], ◌∷◌, none, some, ok, arith, ◌≤◌, ◌⊎◌, inr, ◌*◌, ◌+◌, Option, ℕ,
  Outcome,
}
use g_rpcat.Base.Texts.{codes, cut_prefix, to_lower, Text}
use g_rpcat.Middleware.Metadata.Pairs.{Pairs, pairs}
use g_rpcat.Proxy.Forwarder.Errors.{eof, status}
use g_rpcat.Proxy.Forwarder.{content_subtype, Error}
use g_rpcat.Proxy.Forwarder.Streams.{
  receiving, sending, stopped, taken, selecting, returned, Session, start_session, take_report,
  take_client_error, up_receives, up_ends, up_sends, down_receives, down_ends, down_sends,
  main_takes_report, main_takes_client_error, header_comes, awaited, forwarded, Reach, here, next,
}
use g_rpcat.Proxy.Forwarder.Streams.Settling.{
  count_steps, count_steps_bound, CanGoOn, IsSettled, session_settles,
}
use g_rpcat.Proxy.Forwarder.Streams.Delivery.{
  IsPrefix, Ends, forwarded_in_order, Forward-Ends, close_send_safe,
}

content_subtypes :
    (content_subtype (codes "application/grpc+Proto") ≡ codes "proto")
    × (content_subtype (codes "application/grpc") ≡ [])
    × (content_subtype (codes "application/grpc+") ≡ [])
    × (content_subtype (codes "application/grpc;x") ≡ [])
    × (content_subtype (codes "text/html") ≡ [])
unfolding content_subtype cut_prefix to_lower
content_subtypes = (refl, refl, refl, refl, refl)

-- Metadata with two keys.
abbrev sent_metadata : Pairs
sent_metadata =
    (codes "grpc-accept-encoding", codes "gzip") ∷ (codes "content-type", codes "text/html") ∷ []

abbrev kept_metadata : Pairs
kept_metadata = (codes "content-type", codes "text/html") ∷ []

abbrev acquired : Outcome Error ℕ
acquired = ok 0

-- What NewClientStream answers when no backend is there.
abbrev refused : Option Text → Option Pairs → Option Error
refused t md = some (status 14 (codes "no backend"))

-- A call of one more message from the client and one answer.
abbrev opened : Session
opened = start_session ((1 ∷ []) ∷ []) ((2 ∷ []) ∷ []) ((7 ∷ []) ∷ [])

abbrev half_way : Session
half_way = record {
  from_client = [];
  to_backend = (1 ∷ []) ∷ (2 ∷ []) ∷ [];
  up = taken;
  from_backend = (7 ∷ []) ∷ [];
  to_client = [];
  down = receiving;
  header = awaited;
  main = selecting;
  half_closed = true;
  trailer_set = false;
  cancelled = false;
  context_done = false;
}

abbrev done : Session
done = record half_way {
  from_backend = [];
  to_client = (7 ∷ []) ∷ [];
  down = taken;
  header = forwarded;
  main = returned none;
  trailer_set = true;
}

client_sends : Reach opened half_way
unfolding start_session take_client_error
client_sends =
    next
      (next
        (next (next here (up_receives opened (2 ∷ []) [] refl refl))
          (up_sends (record opened { up = sending (2 ∷ []); from_client = [] }) (2 ∷ []) refl))
        (up_ends (record opened { from_client = []; to_backend = (1 ∷ []) ∷ (2 ∷ []) ∷ [] }) eof
          refl (λ h. refl)))
      (main_takes_client_error
        (record opened {
          from_client = [];
          to_backend = (1 ∷ []) ∷ (2 ∷ []) ∷ [];
          up = stopped eof;
        })
        eof refl refl)

abbrev answering : Session
answering = record half_way { header = forwarded }

backend_answers : {s : Session} → Reach s half_way → Reach s done
unfolding take_report
backend_answers r =
    next
      (next
        (next
          (next (next r (header_comes half_way refl refl))
            (down_receives answering (7 ∷ []) [] refl refl refl))
          (down_sends (record answering { down = sending (7 ∷ []); from_backend = [] }) (7 ∷ [])
            refl))
        (down_ends (record answering { from_backend = []; to_client = (7 ∷ []) ∷ [] }) eof refl
          (ground arith) (λ h. refl)))
      (main_takes_report
        (record answering {
          from_backend = [];
          to_client = (7 ∷ []) ∷ [];
          down = stopped (record { error = eof; backend_done = true });
        })
        (record { error = eof; backend_done = true }) refl refl)

forwarded_in_order_example :
    IsPrefix ((1 ∷ []) ∷ (2 ∷ []) ∷ []) ((1 ∷ []) ∷ (2 ∷ []) ∷ []) × IsPrefix [] ((7 ∷ []) ∷ [])
forwarded_in_order_example =
    forwarded_in_order ((1 ∷ []) ∷ []) ((2 ∷ []) ∷ []) ((7 ∷ []) ∷ []) half_way client_sends

Forward-Ends_example : Ends ((7 ∷ []) ∷ []) done (returned none)
Forward-Ends_example =
    Forward-Ends ((1 ∷ []) ∷ []) ((2 ∷ []) ∷ []) ((7 ∷ []) ∷ []) done (backend_answers client_sends)

close_send_safe_example : (done.up ≡ taken) × (done.to_backend ≡ half_way.to_backend)
close_send_safe_example =
    close_send_safe ((1 ∷ []) ∷ []) ((2 ∷ []) ∷ []) ((7 ∷ []) ∷ []) half_way done client_sends refl
      (backend_answers here)

count_steps_bound_example : count_steps client_sends ≤ 3 * (1 + 1) + 8
count_steps_bound_example =
    count_steps_bound ((1 ∷ []) ∷ []) ((2 ∷ []) ∷ []) ((7 ∷ []) ∷ []) half_way client_sends

session_settles_example : CanGoOn done ⊎ IsSettled done
session_settles_example =
    session_settles ((1 ∷ []) ∷ []) ((2 ∷ []) ∷ []) ((7 ∷ []) ∷ []) done
      (backend_answers client_sends) (inr (ground arith))

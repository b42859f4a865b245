-- ===== src/Proxy/Forwarder/Streams/Delivery.antt =====
-- What each side of a session gets, and when the backend's stream is half-closed or cancelled.
use g_rpcat.Base.{◌≡◌, refl, true, List, ◌++◌, none, some, arith}
use g_rpcat.Proxy.Forwarder.Streams.{
  Message, BackendReport, taken, Main, selecting, draining, returned, Session, start_session,
  take_report, Step, Reach, here, next, up_receives, up_ends, up_sends, up_fails_to_send,
  down_receives, down_ends, down_sends, down_fails_to_send, header_fails, main_takes_report,
  main_takes_client_error, main_drains, header_is_absent, header_comes, context_ends,
}
use g_rpcat.Proxy.Forwarder.Streams.Order.{IsInOrder, start_session-IsInOrder, Reach-IsInOrder}

abbrev pub IsPrefix : List Message → List Message → Type 0
IsPrefix xs ys = (rest : List Message) × (xs ++ rest ≡ ys)

-- However the two directions and the loop take turns: the backend has got the first frame and then
-- the first ones of the client's messages, and the client the first ones of the backend's, each once
-- and in order.
pub forwarded_in_order :
    (sent cs bs : List Message) (s : Session)
    → Reach (start_session sent cs bs) s
    → IsPrefix s.to_backend (sent ++ cs) × IsPrefix s.to_client bs
forwarded_in_order sent cs bs s r =
    let i = Reach-IsInOrder (start_session-IsInOrder sent cs bs) r in (i.ups.so_far, i.downs.so_far)

-- What is asked of a session by what Forward has returned: without an error the client has got every
-- message of the backend, and its trailer; with an error the backend's stream was cancelled.
abbrev pub Ends : List Message → Session → Main → Type 0
Ends bs s (returned none) = (s.to_client ≡ bs) × (s.trailer_set ≡ true)
Ends bs s (returned (some e)) = s.cancelled ≡ true
Ends bs s (draining e) = s.cancelled ≡ true
Ends bs s selecting = Unit

-- However the directions and the loop take turns: when Forward returns nil, the client has got all
-- messages of the backend in order, and the trailers; when it returns an error, or waits to do so,
-- the backend's stream has been cancelled.
pub Forward-Ends :
    (sent cs bs : List Message) (s : Session)
    → Reach (start_session sent cs bs) s
    → Ends bs s s.main
Forward-Ends sent cs bs s r = ends s.main refl
  where
    i : IsInOrder (sent ++ cs) bs s
    i = Reach-IsInOrder (start_session-IsInOrder sent cs bs) r

    ends : (m : Main) → s.main ≡ m → Ends bs s m
    ends selecting h = ground arith
    ends (draining e) h = i.if_drained e h
    ends (returned (some e)) h = i.if_error e h
    ends (returned none) h = ((i.if_ok h).0, (i.if_ok h).1)

take_report_up :
    (res : BackendReport) (s : Session)
    → ((take_report res s).up ≡ s.up) × ((take_report res s).to_backend ≡ s.to_backend)
unfolding take_report
take_report_up res s = ground arith

-- Once the client's goroutine has ended, the backend's stream gets no more messages.
Step-taken :
    {s t : Session} → Step s t → s.up ≡ taken → (t.up ≡ taken) × (t.to_backend ≡ s.to_backend)
Step-taken (up_receives s x xs e f) h = ground arith
Step-taken (up_ends s e p q) h = ground arith
Step-taken (up_sends s x p) h = ground arith
Step-taken (up_fails_to_send s x e p) h = ground arith
Step-taken (down_receives s x xs e g f) h = (h, refl)
Step-taken (down_ends s e p g q) h = (h, refl)
Step-taken (down_sends s x p) h = (h, refl)
Step-taken (down_fails_to_send s x e p) h = (h, refl)
Step-taken (header_fails s e p q) h = (h, refl)
Step-taken (main_takes_report s res p q) h =
    (ground (arith, take_report_up res s), (take_report_up res s).1)
Step-taken (main_takes_client_error s e p q) h = ground arith
Step-taken (header_is_absent s p q) h = (h, refl)
Step-taken (header_comes s p q) h = (h, refl)
Step-taken (context_ends s p) h = (h, refl)
Step-taken (main_drains s e res p q) h = (h, refl)

Reach-taken :
    {s t : Session} → Reach s t → s.up ≡ taken → (t.up ≡ taken) × (t.to_backend ≡ s.to_backend)
Reach-taken here h = (h, refl)
Reach-taken (next r st) h =
    let before = Reach-taken r h in let after = Step-taken st before.0 in (after.0, ground arith)

-- CloseSend is called only when the client's goroutine has ended: it is not in a SendMsg on the
-- backend's stream then, and no SendMsg comes after it.
pub close_send_safe :
    (sent cs bs : List Message) (s t : Session)
    → Reach (start_session sent cs bs) s
    → s.half_closed ≡ true
    → Reach s t
    → (t.up ≡ taken) × (t.to_backend ≡ s.to_backend)
close_send_safe sent cs bs s t r h r' =
    Reach-taken r' ((Reach-IsInOrder (start_session-IsInOrder sent cs bs) r).if_closed h)

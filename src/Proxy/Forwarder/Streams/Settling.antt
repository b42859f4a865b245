-- ===== src/Proxy/Forwarder/Streams/Settling.antt =====
-- A session takes finitely many steps, and it needs neither peer to come to its end.
use g_rpcat.Base.{
  ℕ, suc, ◌+◌, ◌*◌, ◌≤◌, ◌<◌, ◌≡◌, ◌≢◌, ◌⊎◌, inl, inr, refl, true, false, List, [], arith, length,
  if◌then◌else◌, Bool-cases,
}
use g_rpcat.Proxy.Forwarder.Errors.{Error, status}
use g_rpcat.Proxy.Forwarder.Streams.{
  Message, BackendReport, Phase, receiving, sending, stopped, taken, HeaderState, awaited, absent,
  forwarded, Main, selecting, draining, returned, Session, start_session, take_report,
  take_client_error, Step, Reach, here, next, up_receives, up_ends, up_sends, up_fails_to_send,
  header_is_absent, header_comes, header_fails, down_receives, down_ends, down_sends,
  down_fails_to_send, main_takes_report, main_takes_client_error, main_drains, context_ends,
}

-- How many steps are left at most.
abbrev phase_steps : {R : Type 0} → Phase R → ℕ
phase_steps receiving = 2
phase_steps (sending x) = 4
phase_steps (stopped r) = 1
phase_steps taken = 0

abbrev header_steps : HeaderState → ℕ
header_steps awaited = 1
header_steps absent = 0
header_steps forwarded = 0

abbrev main_steps : Main → ℕ
main_steps selecting = 2
main_steps (draining e) = 1
main_steps (returned r) = 0

unfoldable pub steps_left : Session → ℕ
steps_left s =
    3 * length s.from_client
    + phase_steps s.up
    + (3 * length s.from_backend + phase_steps s.down)
    + header_steps s.header
    + main_steps s.main
    + (if s.context_done then 0 else 1)

Step-steps_left : {s t : Session} → Step s t → steps_left t < steps_left s
unfolding steps_left take_report take_client_error
Step-steps_left (up_receives s x xs e f) = ground arith
Step-steps_left (up_ends s e p q) = ground arith
Step-steps_left (up_sends s x p) = ground arith
Step-steps_left (up_fails_to_send s x e p) = ground arith
Step-steps_left (header_is_absent s p q) = ground arith
Step-steps_left (header_comes s p q) = ground arith
Step-steps_left (header_fails s e p q) = ground arith
Step-steps_left (down_receives s x xs p q e) = ground arith
Step-steps_left (down_ends s e p q r) = ground arith
Step-steps_left (down_sends s x p) = ground arith
Step-steps_left (down_fails_to_send s x e p) = ground arith
Step-steps_left (main_takes_report s res p q) = ground arith
Step-steps_left (main_takes_client_error s e p q) = ground arith
Step-steps_left (main_drains s e res p q) = ground arith
Step-steps_left (context_ends s p) = ground arith

-- The number of steps of a run.
abbrev pub count_steps : {s t : Session} → Reach s t → ℕ
count_steps here = 0
count_steps (next r st) = suc (count_steps r)

count_steps-le : {s t : Session} (r : Reach s t) → count_steps r + steps_left t ≤ steps_left s
count_steps-le here = omega arith
count_steps-le (next r st) = omega (arith, count_steps-le r, Step-steps_left st)

-- Whatever the two directions, the loop and the context do, a session that is to pass on n messages
-- of the client and m of the backend ends after at most 3 * (n + m) + 8 steps.
pub count_steps_bound :
    (sent cs bs : List Message) (s : Session) (r : Reach (start_session sent cs bs) s)
    → count_steps r ≤ 3 * (length cs + length bs) + 8
unfolding steps_left start_session
count_steps_bound sent cs bs s r = omega (arith, count_steps-le r)

-- The steps that neither peer has a part in: what the loop does, and the calls that fail because the
-- context of their stream is over. The backend's stream is over when Forward has cancelled it or the
-- client's context has ended, which grpc sees to when Forward has returned.
abbrev pub IsOver : Session → Type 0
IsOver s = (s.cancelled ≡ true) ⊎ (s.context_done ≡ true)

abbrev HasReturned : Main → Type 0
HasReturned selecting = ⊥
HasReturned (draining e) = ⊥
HasReturned (returned r) = Unit

abbrev pub IsUnaided : {s t : Session} → Step s t → Type 0
IsUnaided (up_ends s e p q) = s.context_done ≡ true
IsUnaided (up_fails_to_send s x e p) = IsOver s
IsUnaided (header_is_absent s p q) = IsOver s
IsUnaided (down_ends s e p q r) = IsOver s
IsUnaided (down_fails_to_send s x e p) = s.context_done ≡ true
IsUnaided (main_takes_report s res p q) = Unit
IsUnaided (main_takes_client_error s e p q) = Unit
IsUnaided (main_drains s e res p q) = Unit
IsUnaided (context_ends s p) = HasReturned s.main
IsUnaided _ = ⊥

-- Forward has returned, and both goroutines have ended.
abbrev HasEnded : {R : Type 0} → Phase R → Type 0
HasEnded receiving = ⊥
HasEnded (sending x) = ⊥
HasEnded (stopped r) = Unit
HasEnded taken = Unit

abbrev pub IsSettled : Session → Type 0
IsSettled s = HasReturned s.main × HasEnded s.up × HasEnded s.down

-- The loop waits only for a report that is still to come, and drains only when the context is over.
record IsLive (s : Session) : Type 0 where
  at_select : s.main ≡ selecting → s.down ≢ taken
  at_drain : (e : Error) → s.main ≡ draining e → (s.down ≢ taken) × (s.context_done ≡ true)

-- The steps of the goroutines keep the loop's report to come.
moved :
    {s : Session} {fc tb fb tc : List Message} {u : Phase Error} {d : Phase BackendReport}
    {h : HeaderState}
    → IsLive s
    → d ≢ taken
    → IsLive (record s {
      from_client = fc;
      to_backend = tb;
      up = u;
      from_backend = fb;
      to_client = tc;
      down = d;
      header = h;
    })
moved i open_down = record {
  at_select = λ h. open_down;
  at_drain = λ e h. (open_down, (i.at_drain e h).1);
}

-- The same of the steps that leave the backend's direction as it is.
kept :
    {s : Session} {fc tb : List Message} {u : Phase Error} {h : HeaderState}
    → IsLive s
    → IsLive (record s { from_client = fc; to_backend = tb; up = u; header = h })
kept i = record { at_select = i.at_select; at_drain = i.at_drain }

Step-IsLive : {s t : Session} → Step s t → IsLive s → IsLive t
unfolding take_report take_client_error
Step-IsLive (up_receives s x xs e f) i = kept i
Step-IsLive (up_ends s e p q) i = kept i
Step-IsLive (up_sends s x p) i = kept i
Step-IsLive (up_fails_to_send s x e p) i = kept i
Step-IsLive (header_is_absent s p q) i = kept i
Step-IsLive (header_comes s p q) i = kept i
Step-IsLive (header_fails s e p q) i = moved i (ground arith)
Step-IsLive (down_receives s x xs p q e) i = moved i (ground arith)
Step-IsLive (down_ends s e p q r) i = moved i (ground arith)
Step-IsLive (down_sends s x p) i = moved i (ground arith)
Step-IsLive (down_fails_to_send s x e p) i = moved i (ground arith)
Step-IsLive (main_takes_report s res p q) i = record {
  at_select = ground arith;
  at_drain = ground arith;
}
Step-IsLive (main_takes_client_error s e p q) i = record {
  at_select = ground (arith, i.at_select p);
  at_drain = ground (arith, i.at_select p);
}
Step-IsLive (main_drains s e res p q) i = record {
  at_select = ground arith;
  at_drain = ground arith;
}
Step-IsLive (context_ends s p) i = record {
  at_select = i.at_select;
  at_drain = λ e h. ((i.at_drain e h).0, refl);
}

Reach-IsLive : {s t : Session} → Reach s t → IsLive s → IsLive t
Reach-IsLive here i = i
Reach-IsLive (next r st) i = Step-IsLive st (Reach-IsLive r i)

start_session-IsLive : (sent cs bs : List Message) → IsLive (start_session sent cs bs)
unfolding start_session
start_session-IsLive sent cs bs = record { at_select = ground arith; at_drain = ground arith }

-- A step that needs no peer.
abbrev pub CanGoOn : Session → Type 0
CanGoOn s = (t : Session) × (st : Step s t) × IsUnaided st

-- What a cancelled call gives.
abbrev cancellation : Error
cancellation = status 1 []

down_goes_on :
    (s : Session)
    → s.context_done ≡ true
    → (d : Phase BackendReport) → s.down ≡ d
    → CanGoOn s ⊎ HasEnded d
down_goes_on s over receiving e = by_header s.header refl
  where
    by_header :
        (h : HeaderState) → s.header ≡ h → CanGoOn s ⊎ HasEnded {R = BackendReport} receiving
    by_header awaited f = inl (_, header_is_absent s e f, inr over)
    by_header absent f = inl (_, down_ends s cancellation e (ground arith) (ground arith), inr over)
    by_header forwarded f =
        inl (_, down_ends s cancellation e (ground arith) (ground arith), inr over)
down_goes_on s over (sending x) e = inl (_, down_fails_to_send s x cancellation e, over)
down_goes_on s over (stopped r) e = inr tt
down_goes_on s over taken e = inr tt

up_goes_on :
    (s : Session) → s.context_done ≡ true → (u : Phase Error) → s.up ≡ u → CanGoOn s ⊎ HasEnded u
up_goes_on s over receiving e = inl (_, up_ends s cancellation e (ground arith), over)
up_goes_on s over (sending x) e = inl (_, up_fails_to_send s x cancellation e, inr over)
up_goes_on s over (stopped r) e = inr tt
up_goes_on s over taken e = inr tt

-- The loop, when the backend's direction has ended.
loop_goes_on :
    (s : Session) (m : Main) (d : Phase BackendReport)
    → IsLive s
    → s.main ≡ m
    → s.down ≡ d
    → HasEnded d
    → CanGoOn s ⊎ HasReturned m
loop_goes_on s (returned r) d i e f g = inr tt
loop_goes_on s selecting (stopped res) i e f g = inl (_, main_takes_report s res e f, tt)
loop_goes_on s (draining x) (stopped res) i e f g = inl (_, main_drains s x res e f, tt)
loop_goes_on s selecting taken i e f g = absurd (i.at_select e f)
loop_goes_on s (draining x) taken i e f g = absurd ((i.at_drain x e).0 f)
loop_goes_on s selecting receiving i e f g = absurd g
loop_goes_on s selecting (sending x) i e f g = absurd g
loop_goes_on s (draining x) receiving i e f g = absurd g
loop_goes_on s (draining x) (sending y) i e f g = absurd g

over_goes_on : (s : Session) → IsLive s → s.context_done ≡ true → CanGoOn s ⊎ IsSettled s
over_goes_on s i over = elim (down_goes_on s over s.down refl) [
  | inl go ↦ inl go
  | inr down ↦ elim (up_goes_on s over s.up refl) [
    | inl go ↦ inl go
    | inr up ↦ elim (loop_goes_on s s.main s.down i refl refl down) [
      | inl go ↦ inl go
      | inr main ↦ inr (main, up, down)
    ]
  ]
]

-- Once the client's context is over, or the loop has left its select, nothing more is needed of the
-- client or the backend: either Forward has returned and both goroutines have ended, or there is a
-- step that waits for neither of them.
pub session_settles :
    (sent cs bs : List Message) (s : Session)
    → Reach (start_session sent cs bs) s
    → (s.context_done ≡ true) ⊎ (s.main ≢ selecting)
    → CanGoOn s ⊎ IsSettled s
session_settles sent cs bs s r (inl over) =
    over_goes_on s (Reach-IsLive r (start_session-IsLive sent cs bs)) over
session_settles sent cs bs s r (inr left) = by_main s.main refl (Bool-cases s.context_done)
  where
    i : IsLive s
    i = Reach-IsLive r (start_session-IsLive sent cs bs)

    by_main :
        (m : Main)
        → s.main ≡ m
        → (s.context_done ≡ true) ⊎ (s.context_done ≡ false)
        → CanGoOn s ⊎ IsSettled s
    by_main m e (inl over) = over_goes_on s i over
    by_main selecting e (inr going) = absurd (left e)
    by_main (draining x) e (inr going) = over_goes_on s i (i.at_drain x e).1
    by_main (returned x) e (inr going) = inl (_, context_ends s going, rw e tt)

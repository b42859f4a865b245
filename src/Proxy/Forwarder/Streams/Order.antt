-- ===== src/Proxy/Forwarder/Streams/Order.antt =====
-- A session in order, and that every step keeps it in order.
use g_rpcat.Base.{
  ◌≡◌, refl, append_assoc, append-nil, Bool, true, false, List, [], ◌∷◌, ◌++◌, none, some, arith,
  ◌≢◌, ◌⊎◌, inl, inr, Bool-cases,
}
use g_rpcat.Proxy.Forwarder.Errors.{Error, is_eof}
use g_rpcat.Proxy.Forwarder.Streams.{
  Message, BackendReport, Phase, receiving, sending, stopped, taken, selecting, draining, returned,
  Session, start_session, take_report, take_client_error, Step, Reach, here, next, up_receives,
  up_ends, up_sends, up_fails_to_send, down_receives, down_ends, down_sends, down_fails_to_send,
  header_is_absent, header_comes, header_fails, main_takes_report, main_takes_client_error,
  main_drains, context_ends, HeaderState,
}

-- The messages of one direction: `out` were passed on, `left` are to come, `all` is the whole of it.
pub record Moves {R : Type 0} (all out left : List Message) (p : Phase R) : Type 0 where
  pub at_receive : p ≡ receiving → out ++ left ≡ all
  pub at_send : (x : Message) → p ≡ sending x → out ++ x ∷ left ≡ all
  pub so_far : (rest : List Message) × (out ++ rest ≡ all)

received :
    {R : Type 0} {all out left : List Message} {p : Phase R} {x : Message} {xs : List Message}
    → Moves all out left p
    → p ≡ receiving
    → left ≡ x ∷ xs
    → Moves {R = R} all out xs (sending x)
received i e f = record {
  at_receive = ground arith;
  at_send = λ y g. ground arith;
  so_far = i.so_far;
}

sent_on :
    {R : Type 0} {all out left : List Message} {p : Phase R} {x : Message}
    → Moves all out left p
    → p ≡ sending x
    → Moves {R = R} all (out ++ x ∷ []) left receiving
sent_on {all = all} {out = out} {left = left} {x = x} i e = record {
  at_receive = λ h. rw (append_assoc out (x ∷ []) left) (i.at_send x e);
  at_send = ground arith;
  so_far = (left, rw (append_assoc out (x ∷ []) left) (i.at_send x e));
}

ended :
    {R : Type 0} {all out left : List Message} {p : Phase R} (r : R)
    → Moves all out left p
    → Moves {R = R} all out left (stopped r)
ended r i = record { at_receive = ground arith; at_send = ground arith; so_far = i.so_far }

was_taken :
    {R : Type 0} {all out left : List Message} {p : Phase R}
    → Moves all out left p
    → Moves {R = R} all out left taken
was_taken i = record { at_receive = ground arith; at_send = ground arith; so_far = i.so_far }

-- A session in order, `cs` being all that the backend shall get and `bs` all that it answers.
pub record IsInOrder (cs bs : List Message) (s : Session) : Type 0 where
  pub ups : Moves cs s.to_backend s.from_client s.up
  pub downs : Moves bs s.to_client s.from_backend s.down
  pub at_end :
      (e : Error)
      → s.down ≡ stopped (record { error = e; backend_done = true })
      → is_eof e ≡ true
      → s.to_client ≡ bs
  pub if_ok :
      s.main ≡ returned none → (s.to_client ≡ bs) × (s.trailer_set ≡ true) × (s.down ≡ taken)
  pub if_drained : (e : Error) → s.main ≡ draining e → s.cancelled ≡ true
  pub if_error : (e : Error) → s.main ≡ returned (some e) → s.cancelled ≡ true
  pub if_closed : s.half_closed ≡ true → s.up ≡ taken

-- An invariant that holds when a session starts.
pub start_session-IsInOrder :
    (sent cs bs : List Message) → IsInOrder (sent ++ cs) bs (start_session sent cs bs)
unfolding start_session
start_session-IsInOrder sent cs bs = record {
  ups = record { at_receive = λ h. refl; at_send = ground arith; so_far = (cs, refl) };
  downs = record { at_receive = λ h. refl; at_send = ground arith; so_far = (bs, refl) };
  at_end = ground arith;
  if_ok = ground arith;
  if_drained = ground arith;
  if_error = ground arith;
  if_closed = ground arith;
}

-- The steps of the client's direction.
up_moved :
    {cs bs fc tb : List Message} {s : Session} {p : Phase Error}
    → IsInOrder cs bs s
    → s.up ≢ taken
    → Moves cs tb fc p
    → IsInOrder cs bs (record s { from_client = fc; to_backend = tb; up = p })
up_moved i open_up v = record {
  ups = v;
  downs = i.downs;
  at_end = i.at_end;
  if_ok = i.if_ok;
  if_drained = i.if_drained;
  if_error = i.if_error;
  if_closed = λ h. absurd (open_up (i.if_closed h));
}

-- What the last report of a direction says about the messages.
abbrev Reports : List Message → List Message → Phase BackendReport → Type 0
Reports bs tc p =
    (e : Error)
    → p ≡ stopped (record { error = e; backend_done = true })
    → is_eof e ≡ true
    → tc ≡ bs

-- The steps of the backend's direction.
down_moved :
    {cs bs fb tc : List Message} {s : Session} {p : Phase BackendReport}
    → IsInOrder cs bs s
    → s.down ≢ taken
    → Moves bs tc fb p
    → Reports bs tc p
    → IsInOrder cs bs (record s { from_backend = fb; to_client = tc; down = p })
down_moved i open_down v complete = record {
  ups = i.ups;
  downs = v;
  at_end = complete;
  if_ok = λ h. absurd (open_down (i.if_ok h).2);
  if_drained = i.if_drained;
  if_error = i.if_error;
  if_closed = i.if_closed;
}

take_report-IsInOrder :
    {cs bs : List Message} {s : Session} (e : Error) (d : Bool)
    → IsInOrder cs bs s
    → s.down ≡ stopped (record { error = e; backend_done = d })
    → IsInOrder cs bs (take_report (record { error = e; backend_done = d }) s)
unfolding take_report
take_report-IsInOrder e false i g = record {
  ups = i.ups;
  downs = was_taken i.downs;
  at_end = ground arith;
  if_ok = ground arith;
  if_drained = ground arith;
  if_error = λ e' h. refl;
  if_closed = i.if_closed;
}
take_report-IsInOrder {cs} {bs} {s} e true i g = by_error (Bool-cases (is_eof e))
  where
    by_error :
        (is_eof e ≡ true) ⊎ (is_eof e ≡ false)
        → IsInOrder cs bs (take_report (record { error = e; backend_done = true }) s)
    by_error (inl end) = rw end (record {
      ups = i.ups;
      downs = was_taken i.downs;
      at_end = ground arith;
      if_ok = λ h. (i.at_end e g end, refl, refl);
      if_drained = ground arith;
      if_error = ground arith;
      if_closed = i.if_closed;
    })
    by_error (inr failed) = rw failed (record {
      ups = i.ups;
      downs = was_taken i.downs;
      at_end = ground arith;
      if_ok = ground arith;
      if_drained = ground arith;
      if_error = λ e' h. refl;
      if_closed = i.if_closed;
    })

take_client_error-IsInOrder :
    {cs bs : List Message} {s : Session} (e : Error)
    → IsInOrder cs bs s
    → s.main ≡ selecting
    → IsInOrder cs bs (take_client_error e s)
unfolding take_client_error
take_client_error-IsInOrder {cs} {bs} {s} e i f = by_error (Bool-cases (is_eof e))
  where
    by_error : (is_eof e ≡ true) ⊎ (is_eof e ≡ false) → IsInOrder cs bs (take_client_error e s)
    by_error (inl end) = rw end (record {
      ups = was_taken i.ups;
      downs = i.downs;
      at_end = i.at_end;
      if_ok = i.if_ok;
      if_drained = i.if_drained;
      if_error = i.if_error;
      if_closed = λ h. refl;
    })
    by_error (inr failed) = rw failed (record {
      ups = was_taken i.ups;
      downs = i.downs;
      at_end = i.at_end;
      if_ok = ground arith;
      if_drained = λ e h. refl;
      if_error = λ e h. refl;
      if_closed = λ h. refl;
    })

-- The steps that change only the headers' state and the context.
unmoved :
    {cs bs : List Message} {s : Session} {h : HeaderState} {d : Bool}
    → IsInOrder cs bs s
    → IsInOrder cs bs (record s { header = h; context_done = d })
unmoved i = record {
  ups = i.ups;
  downs = i.downs;
  at_end = i.at_end;
  if_ok = i.if_ok;
  if_drained = i.if_drained;
  if_error = i.if_error;
  if_closed = i.if_closed;
}

Step-IsInOrder :
    {cs bs : List Message} {s t : Session} → IsInOrder cs bs s → Step s t → IsInOrder cs bs t
Step-IsInOrder i (up_receives s x xs e f) = up_moved i (ground arith) (received i.ups e f)
Step-IsInOrder i (up_ends s e p q) = up_moved i (ground arith) (ended e i.ups)
Step-IsInOrder i (up_sends s x p) = up_moved i (ground arith) (sent_on i.ups p)
Step-IsInOrder i (up_fails_to_send s x e p) = up_moved i (ground arith) (ended e i.ups)
Step-IsInOrder i (down_receives s x xs e h f) =
    down_moved i (ground arith) (received i.downs e f) (ground arith)
Step-IsInOrder i (down_ends s e p h q) = down_moved i (ground arith) (ended _ i.downs) (λ e' g z.
    let empty : s.from_backend ≡ [] = q (ground arith) in
    ground (arith, append-nil s.to_client, i.downs.at_receive p, empty))
Step-IsInOrder i (down_sends s x p) = down_moved i (ground arith) (sent_on i.downs p) (ground arith)
Step-IsInOrder i (down_fails_to_send s x e p) =
    down_moved i (ground arith) (ended _ i.downs) (ground arith)
Step-IsInOrder i (header_fails s e p q) =
    down_moved i (ground arith) (ended _ i.downs) (ground arith)
Step-IsInOrder i (main_takes_report s res p q) =
    take_report-IsInOrder res.error res.backend_done i q
Step-IsInOrder i (main_takes_client_error s e p q) = take_client_error-IsInOrder e i p
Step-IsInOrder i (header_is_absent s p q) = unmoved i
Step-IsInOrder i (header_comes s p q) = unmoved i
Step-IsInOrder i (context_ends s p) = unmoved i
Step-IsInOrder i (main_drains s e res p q) = record {
  ups = i.ups;
  downs = was_taken i.downs;
  at_end = ground arith;
  if_ok = ground arith;
  if_drained = ground arith;
  if_error = λ e' h. i.if_drained e p;
  if_closed = i.if_closed;
}

pub Reach-IsInOrder :
    {cs bs : List Message} {s t : Session} → IsInOrder cs bs s → Reach s t → IsInOrder cs bs t
Reach-IsInOrder i here = i
Reach-IsInOrder i (next r st) = Step-IsInOrder (Reach-IsInOrder i r) st

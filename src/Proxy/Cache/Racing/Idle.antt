-- ===== src/Proxy/Cache/Racing/Idle.antt =====
-- A sweep evicts an entry only when it has been idle for the whole timeout.
use g_rpcat.Base.{
  ℕ, suc, ◌+◌, ◌≡◌, refl, subst, ◌∙◌, ap, List, remove_at, length, arith, All, All-remove_at,
  All-get_elem?, length-remove_at, get_elem?, ◌≤◌, some, sym, ◌-◌, inl, inr,
}
use g_rpcat.Base.Int.{pos, succ, pred, pred-succ}
use g_rpcat.Proxy.Cache.Racing.{
  evicted, Race, new_race, enter, hand_out, pin_entry, call_release, read_clock, stamp_entry,
  unpin_entry, Step, waits, enters, hands_out, pins, calls_release, reads_clock, stamps, unpins,
  sweeps, Reach, here, next, unlocked, store, max,
}
use g_rpcat.Proxy.Cache.Racing.Invariant.{
  Before, Stalled, IsFair, By, Called, Past, Swept, IsLater, seen, later-By, later-Called,
  later-Past, later-Swept, entering-Swept, pin-Swept, call-Swept, sweep_on-IsFair,
}

-- A stored reading is behind the clock by the slack at most.
max-bound : (k c v : ℕ) → (k ≤ max k (c - v)) × (c ≤ v + max k (c - v))
max-bound k c v = ground arith

store-IsLater :
    (v : ℕ) (s t : Race)
    → t.clock ≡ s.clock
    → t.slack ≡ (store v s).slack
    → t.entry ≡ (store v s).entry
    → IsLater s t
unfolding IsLater
store-IsLater v s t c k e =
    let (up, near) = max-bound s.slack s.clock v in
    (omega arith, rw k up, inr (rw (ap (λ x. x.last_used) e, k) near))

same-IsLater :
    (s t : Race)
    → t.clock ≡ s.clock
    → t.slack ≡ s.slack
    → t.entry.last_used ≡ s.entry.last_used
    → IsLater s t
unfolding IsLater
same-IsLater s t c k e = (omega arith, omega arith, inl (omega arith))

module _ (timeout : ℕ) (s : Race) (v : IsFair timeout s) where
  waits-IsFair : (later : ℕ) → s.clock ≤ later → IsFair timeout (record s { clock = later })
  unfolding IsLater
  waits-IsFair later le =
      let t : Race = record s { clock = later } in
      let l : IsLater s t = (le, omega arith, inl (omega arith)) in
      record {
        exact = v.exact;
        by_handed = later-Past s t s.handed l v.by_handed;
        by_calling = later-By _ _ s.calling le v.by_calling;
        by_reading = later-Called _ _ s.reading le v.by_reading;
        by_stamped = later-Past s t s.stamped l v.by_stamped;
        by_ended = later-Past s t s.ended l v.by_ended;
        swept = later-Swept timeout s t s.sweep l (λ e. e) refl refl v.swept;
      }

  enter-IsFair : s.sweep ≡ unlocked → IsFair timeout (enter s)
  enter-IsFair e = record {
    exact = v.exact;
    by_handed = v.by_handed;
    by_calling = v.by_calling;
    by_reading = v.by_reading;
    by_stamped = v.by_stamped;
    by_ended = v.by_ended;
    swept = subst (Swept timeout (enter s)) (sym e) tt;
  }

  hand_out-IsFair : (i x : ℕ) → get_elem? s.entering i ≡ some x → IsFair timeout (hand_out i x s)
  hand_out-IsFair i x e =
      let t = hand_out i x s in
      let l = store-IsLater x s t refl refl refl in
      let (up, near) = max-bound s.slack s.clock x in
      record {
        exact = v.exact;
        by_handed = ((omega arith, near), later-Past s t s.handed l v.by_handed);
        by_calling = v.by_calling;
        by_reading = v.by_reading;
        by_stamped = later-Past s t s.stamped l v.by_stamped;
        by_ended = later-Past s t s.ended l v.by_ended;
        swept = entering-Swept timeout i x s t s.sweep e v.swept;
      }

  pin_entry-IsFair : (i t : ℕ) → get_elem? s.handed i ≡ some t → IsFair timeout (pin_entry i t s)
  pin_entry-IsFair i t e = record {
    exact = ap succ v.exact ∙ ap pos (omega arith);
    by_handed = All-remove_at _ i s.handed v.by_handed;
    by_calling = v.by_calling;
    by_reading = v.by_reading;
    by_stamped = v.by_stamped;
    by_ended = v.by_ended;
    swept = pin-Swept timeout i t s s.sweep e v v.swept;
  }

  call_release-IsFair :
      (i : ℕ) (u : ℕ × ℕ) → get_elem? s.opened i ≡ some u → IsFair timeout (call_release i s)
  call_release-IsFair i u e = record {
    exact = v.exact ∙ ap pos (omega (arith, length-remove_at i s.opened e));
    by_handed = v.by_handed;
    by_calling = (omega arith, v.by_calling);
    by_reading = v.by_reading;
    by_stamped = v.by_stamped;
    by_ended = v.by_ended;
    swept = call-Swept timeout i s s.sweep v.swept;
  }

  read_clock-IsFair : (i t : ℕ) → get_elem? s.calling i ≡ some t → IsFair timeout (read_clock i t s)
  read_clock-IsFair i t e = record {
    exact = v.exact ∙ ap pos (omega (arith, length-remove_at i s.calling e));
    by_handed = v.by_handed;
    by_calling = All-remove_at _ i s.calling v.by_calling;
    by_reading = (All-get_elem? (By s.clock) i s.calling t v.by_calling e, v.by_reading);
    by_stamped = v.by_stamped;
    by_ended = v.by_ended;
    swept =
        later-Swept timeout s (read_clock i t s) s.sweep (same-IsLater s _ refl refl refl) (λ h. h)
          refl refl v.swept;
  }

  stamp_entry-IsFair :
      (i : ℕ) (u : ℕ × ℕ) → get_elem? s.reading i ≡ some u → IsFair timeout (stamp_entry i u s)
  stamp_entry-IsFair i (t, x) e =
      let s' = stamp_entry i (t, x) s in
      let l = store-IsLater x s s' refl refl refl in
      let (up, near) = max-bound s.slack s.clock x in
      let called = All-get_elem? (Called s.clock) i s.reading (t, x) v.by_reading e in
      record {
        exact = v.exact ∙ ap pos (omega (arith, length-remove_at i s.reading e));
        by_handed = later-Past s s' s.handed l v.by_handed;
        by_calling = v.by_calling;
        by_reading = All-remove_at _ i s.reading v.by_reading;
        by_stamped =
            ((called, omega (arith, called, near)), later-Past s s' s.stamped l v.by_stamped);
        by_ended = later-Past s s' s.ended l v.by_ended;
        swept = later-Swept timeout s s' s.sweep l (λ h. h) refl refl v.swept;
      }

  unpin_entry-IsFair :
      (i t : ℕ) → get_elem? s.stamped i ≡ some t → IsFair timeout (unpin_entry i t s)
  unpin_entry-IsFair i t e = record {
    exact =
        ap pred (v.exact ∙ ap pos (more (length-remove_at i s.stamped e)))
        ∙ pred-succ (
            pos (
              length s.opened
              + length s.calling
              + length s.reading
              + length (remove_at i s.stamped)));
    by_handed = v.by_handed;
    by_calling = v.by_calling;
    by_reading = v.by_reading;
    by_stamped = All-remove_at _ i s.stamped v.by_stamped;
    by_ended = (All-get_elem? (Past s.clock (seen s)) i s.stamped t v.by_stamped e, v.by_ended);
    swept =
        later-Swept timeout s (unpin_entry i t s) s.sweep (same-IsLater s _ refl refl refl) (λ h. h)
          refl refl v.swept;
  }
    where
      more :
          suc (length (remove_at i s.stamped)) ≡ length s.stamped
          → length s.opened + length s.calling + length s.reading + length s.stamped
            ≡ suc (
                length s.opened
                + length s.calling
                + length s.reading
                + length (remove_at i s.stamped))
      more h = omega arith

Step-IsFair :
    (timeout : ℕ) {s t : Race} → Step (pos timeout) s t → IsFair timeout s → IsFair timeout t
Step-IsFair timeout {s} (waits later le) v = waits-IsFair timeout s v later le
Step-IsFair timeout {s} (enters e) v = enter-IsFair timeout s v e
Step-IsFair timeout {s} (hands_out i x e) v = hand_out-IsFair timeout s v i x e
Step-IsFair timeout {s} (pins i t e) v = pin_entry-IsFair timeout s v i t e
Step-IsFair timeout {s} (calls_release i u e) v = call_release-IsFair timeout s v i u e
Step-IsFair timeout {s} (reads_clock i t e) v = read_clock-IsFair timeout s v i t e
Step-IsFair timeout {s} (stamps i u e) v = stamp_entry-IsFair timeout s v i u e
Step-IsFair timeout {s} (unpins i t e) v = unpin_entry-IsFair timeout s v i t e
Step-IsFair timeout {s} (sweeps now idle le) v = sweep_on-IsFair timeout now idle s le v

Reach-IsFair :
    (timeout : ℕ) {s t : Race} → Reach (pos timeout) s t → IsFair timeout s → IsFair timeout t
Reach-IsFair timeout here v = v
Reach-IsFair timeout (next q st) v = Step-IsFair timeout st (Reach-IsFair timeout q v)

new_race-IsFair : (timeout v now : ℕ) → IsFair timeout (new_race v now)
new_race-IsFair timeout v now = record {
  exact = refl;
  by_handed = ((omega arith, omega arith), tt);
  by_calling = tt;
  by_reading = tt;
  by_stamped = tt;
  by_ended = tt;
  swept = tt;
}

-- However the loads of a sweep fall between the clock readings, loads and stores of the callers of
-- getEntry, acquire and release: when a sweep has evicted an entry, it had read the clock a whole
-- timeout after the call of every release that had ended when it loaded inFlight, less the longest
-- time that a caller has taken so far from a reading of the clock to its store; and the caller of
-- each stream that is open on the entry took at least a timeout, less that time, from getEntry to its
-- increment of inFlight.
pub evicted_only_idle :
    (timeout v start now : ℕ) (es : List ℕ) (s : Race)
    → Reach (pos timeout) (new_race v start) s
    → s.sweep ≡ evicted now es
    → All (Before timeout (now + s.slack)) es × All (Stalled timeout s.slack) s.opened
evicted_only_idle timeout v start now es s q e =
    let fair = Reach-IsFair timeout q (new_race-IsFair timeout v start) in
    let (a, m, b, d, f) = subst (Swept timeout s) e fair.swept in (b, f)

-- ===== src/Runtime/Silence.antt =====
-- A game that falls silent loses its session.
use certael_agent.Protocol.Messages.{BoundAgentLaunch}
use certael_agent.Runtime.Admission.{Incoming, Tools, timed_out}
use certael_agent.Runtime.Deadlines.{
  start, deadline_after, heartbeat_after, Loop, wait_seconds, Round,
}
use certael_agent.Runtime.Logged.{send_rule, present_rule, publish_rule}
use certael_agent.Runtime.Rounds.{protect, rounds, round, on_incoming, on_timeout, end_session}
use certael_agent.Prelude.Int.{add_i64, ◌+ℤ◌, pos, ℤ, ltb_ℤ, leb_ℤ}
use certael_agent.Ipc.{Sink}
use certael_agent.Prelude.{
  ◌^◌, ◌+◌, ◌-◌, false, length, if_rule, [], ◌⊎◌, ◌&&◌, ◌<◌, ◌≤◌, ◌∷◌, ◌≡◌, none, arith, List, inl,
  some, inr, refl, err, ok, ℕ, String,
}
use certael_agent.Runtime.{
  follow, ◌>>◌, done, write_health, failed, publish_runtime, Act, halt, Outcome, health_frame,
  Event, RuntimeState,
}

-- The loop's wait runs out in each of these rounds, and each wait lasts a second or more. The clock
-- stood at `m` before them.
pub data Quiet : ℕ → List Round → Type 0 where
  quiet_end : {m : ℕ} → Quiet m []
  quiet_round :
      {m now later : ℕ} {r : Round} {rs : List Round}
      → r.now ≡ some (pos now)
      → r.incoming ≡ timed_out
      → r.later ≡ some (pos later)
      → m ≤ now
      → now < later
      → Quiet later rs
      → Quiet m (r ∷ rs)

-- The wait is at least a second long.
pub wait_seconds_positive : (b : BoundAgentLaunch) (l : Loop) (now : ℤ) → 1 ≤ wait_seconds b l now
unfolding wait_seconds
wait_seconds_positive b l now = ground arith

early_lem : (x y : ℤ) (d now : ℕ) → x ≡ pos d → y ≡ pos now → leb_ℤ x y ≡ false → now < d
early_lem x y d now h k e =
    let e' : leb_ℤ (pos d) (pos now) ≡ false = rw (h, k) at e in ground (arith, e')

deadline_after_lem :
    (b : BoundAgentLaunch) (n : ℕ)
    → b.report_seconds + b.disconnect_grace_seconds < 2 ^ 32
    → n + (b.report_seconds + b.disconnect_grace_seconds) < 2 ^ 63
    → deadline_after b (pos n) ≡ pos (n + (b.report_seconds + b.disconnect_grace_seconds))
unfolding deadline_after add_i64 ◌+ℤ◌
deadline_after_lem b n h k = ground arith

module _ (t : Tools) (state : RuntimeState) (b : BoundAgentLaunch) where
  -- The round failed, or it went on before the deadline `d`, which still holds.
  record IsSilent (d now : ℕ) (o : Outcome Loop) : Type 0 where
    silent :
        ((message : String) × (o.result ≡ err (failed message)))
        ⊎ ((l : Loop) × (o.result ≡ ok l) × (l.report_deadline ≡ pos d) × (now < d))

  gave_up : (d now : ℕ) (message : String) (s : Sink) → IsSilent d now (halt (failed message) s)
  gave_up d now message s = record { silent = inl (message, refl) }

  went_on :
      (d now : ℕ) (l : Loop) (s : Sink)
      → l.report_deadline ≡ pos d
      → now < d
      → IsSilent d now (done l s)
  went_on d now l s h k = record { silent = inr (l, refl, h, k) }

  behind_events :
      (d now : ℕ) (events : List Event) (o : Outcome Loop)
      → IsSilent d now o
      → IsSilent d now (record o { events = events })
  behind_events d now events o h = record { silent = h.silent }

  on_timeout-IsSilent :
      (d now later : ℕ) (l : Loop) (r : Round) (s : Sink)
      → l.report_deadline ≡ pos d
      → now < d
      → r.later ≡ some (pos later)
      → IsSilent d now (on_timeout t state b l r s)
  unfolding on_timeout write_health
  on_timeout-IsSilent d now later l r s h k e =
      present_rule (IsSilent d now) _ s _ r.later (gave_up d now _ s) (λ then_ _.
        if_rule (λ (m : Act Loop). IsSilent d now (m s))
          (leb_ℤ l.next_heartbeat then_ && ltb_ℤ then_ l.report_deadline) _ (done l)
          (λ _.
            let renewed : Loop = record l { next_heartbeat = heartbeat_after b then_ } in
            send_rule (IsSilent d now) (publish_runtime state "protected" none >> done renewed)
              "failed to send Agent health state"
              (health_frame t.codecs b.session_id "protected" l.last_report_at []) s
              (λ s'. gave_up d now _ s')
              (λ s'.
                behind_events d now _ ((publish_runtime state "protected" none >> done renewed) s')
                  (publish_rule (IsSilent d now) (done renewed) state "protected" none s'
                    (λ events _.
                      behind_events d now _ (done renewed s') (went_on d now renewed s' h k)))))
          (λ _. went_on d now l s h k))

  end_session-IsSilent :
      (d now : ℕ) (l : Loop) (name reason message : String) (s : Sink)
      → IsSilent d now (end_session t state b l name reason message s)
  unfolding end_session write_health
  end_session-IsSilent d now l name reason message s =
      send_rule (IsSilent d now) (publish_runtime state name (some reason) >> halt (failed message))
        "failed to send Agent health state"
        (health_frame t.codecs b.session_id name l.last_report_at (reason ∷ [])) s
        (λ s'. gave_up d now _ s')
        (λ s'.
          behind_events d now _
            ((publish_runtime state name (some reason) >> halt (failed message)) s')
            (publish_rule (IsSilent d now) (halt (failed message)) state name (some reason) s'
              (λ events _.
                behind_events d now _ (halt (failed message) s') (gave_up d now message s'))))

  on_incoming-IsSilent :
      (d now later : ℕ) (l : Loop) (r : Round) (i : Incoming) (s : Sink)
      → i ≡ timed_out
      → l.report_deadline ≡ pos d
      → now < d
      → r.later ≡ some (pos later)
      → IsSilent d now (on_incoming t state b l r i s)
  unfolding on_incoming
  on_incoming-IsSilent d now later l r timed_out s e h k e' =
      on_timeout-IsSilent d now later l r s h k e'
  on_incoming-IsSilent d now later l r _ s e h k e' = cc

  round-IsSilent :
      (d now later : ℕ) (l : Loop) (r : Round) (s : Sink)
      → l.report_deadline ≡ pos d
      → r.now ≡ some (pos now)
      → r.incoming ≡ timed_out
      → r.later ≡ some (pos later)
      → IsSilent d now (round t state b l r s)
  unfolding round
  round-IsSilent d now later l r s h e0 e1 e2 =
      present_rule (IsSilent d now) _ s _ r.now (gave_up d now _ s) (λ clock_now read.
        if_rule (λ (m : Act Loop). IsSilent d now (m s)) (leb_ℤ b.policy_expires_at_unix clock_now)
          _ _
          (λ _. end_session-IsSilent d now l "expired" "POLICY_EXPIRED" "Agent policy expired" s)
          (λ _.
            if_rule (λ (m : Act Loop). IsSilent d now (m s)) (leb_ℤ l.report_deadline clock_now) _ _
              (λ _.
                end_session-IsSilent d now l "lost" "REPORT_DEADLINE_MISSED"
                  "Agent report deadline was missed" s)
              (λ early.
                on_incoming-IsSilent d now later l r r.incoming s e1 h
                  (early_lem l.report_deadline clock_now d now h (cc) early) e2)))

  -- A quiet round brings the deadline nearer by a second or more.
  follow_fails :
      (d now later : ℕ) (rs : List Round) (o : Outcome Loop)
      → IsSilent d now o
      → ((l : Loop) (s : Sink)
          → l.report_deadline ≡ pos d
          → now < d
          → (message : String) × ((rounds t state b l rs s).result ≡ err (failed message)))
      → (message : String) × ((follow o.result o.events o.sink (λ l. rounds t state b l rs)).result
          ≡ err (failed message))
  follow_fails d now later rs o h more = elim h.silent [
    | inl (message, e) ↦ (message, rw e refl)
    | inr (l, e, k, k') ↦ let (message, e') = more l o.sink k k' in (message, rw e e')
  ]

  rounds_fail :
      (d m : ℕ) (rs : List Round) (l : Loop) (s : Sink)
      → Quiet m rs
      → l.report_deadline ≡ pos d
      → d - m < length rs
      → (message : String) × ((rounds t state b l rs s).result ≡ err (failed message))
  unfolding rounds
  rounds_fail d m [] l s quiet_end h k = absurd (omega arith)
  rounds_fail d m (r ∷ rs) l s (quiet_round {now = now} {later = later} e0 e1 e2 le lt quiet) h k =
      follow_fails d now later rs (round t state b l r s)
        (round-IsSilent d now later l r s h e0 e1 e2)
        (λ l' s' h' early. rounds_fail d later rs l' s' quiet h' (omega arith))

  record Fails (o : Outcome Loop) : Type 0 where
    why : (message : String) × (o.result ≡ err (failed message))

  -- A game that is never heard again behind its admission loses its session: once the loop has waited
  -- more often than the policy has seconds for a report and its grace, `serve` has returned an error,
  -- where that deadline fits the integers it is kept in.
  pub protect_fails :
      (n n' : ℕ) (rs : List Round) (s : Sink)
      → Quiet n' rs
      → b.report_seconds + b.disconnect_grace_seconds < length rs
      → b.report_seconds + b.disconnect_grace_seconds < 2 ^ 32
      → n' + (b.report_seconds + b.disconnect_grace_seconds) < 2 ^ 63
      → (message : String) × ((protect t state b (some (pos n)) (some (pos n')) rs s).result
          ≡ err (failed message))
  unfolding protect write_health start
  protect_fails n n' rs s quiet enough in_u32 in_i64 =
      let d = n' + (b.report_seconds + b.disconnect_grace_seconds) in
      let l = start b (pos n) (pos n') in
      (send_rule Fails (publish_runtime state "protected" none >> rounds t state b l rs)
        "failed to send Agent health state" (health_frame t.codecs b.session_id "ready" (pos 0) [])
        s (λ s'. record { why = (_, refl) })
        (λ s'. record {
          why =
              (publish_rule Fails (rounds t state b l rs) state "protected" none s' (λ events _.
                record {
                  why =
                      rounds_fail d n' rs l s' quiet (deadline_after_lem b n' in_u32 in_i64)
                        (omega arith);
                })).why;
        })).why

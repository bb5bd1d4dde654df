-- ===== src/Runtime/Served.antt =====
-- All of `serve`: the reports that it sends, from the hello to its end.
use certael_agent.Prelude.Int.{ℤ}
use certael_agent.Runtime.Admitted.{IsAdmitted, await_admission-IsAdmitted}
use certael_agent.Runtime.Unreported.{await_admission-NoReport}
use certael_agent.Ipc.{Sink}
use certael_agent.Runtime.Linked.{IsLinked, behind_IsLinked, protect-IsLinked}
use certael_agent.Runtime.Deadlines.{Loop, Round}
use certael_agent.Protocol.External.{CryptoLaws}
use certael_agent.Runtime.Reports.{report_frames}
use certael_agent.Runtime.Admission.{Arrival, Tools, await_admission}
use certael_agent.Protocol.Messages.{BoundAgentLaunch}
use certael_agent.Runtime.{follow, Stop, Act, RuntimeState, Event}
use certael_agent.Runtime.Rounds.{serve, protect}
use certael_agent.Prelude.{[], ◌⊎◌, ◌≡◌, List, Result, err, ok, inr, refl, replicate, Option, inl}

module _ (t : Tools) where
  follow_serve :
      (state : RuntimeState) (a : Arrival) (result : Result Stop BoundAgentLaunch)
      (events : List Event) (s : Sink) (next : BoundAgentLaunch → Act Loop)
      → report_frames events ≡ []
      → ((b : BoundAgentLaunch) → result ≡ ok b → IsAdmitted t state a b)
      → ((b : BoundAgentLaunch) → IsLinked t state b 0 (replicate 32 0) (next b s).events)
      → (report_frames (follow result events s next).events ≡ [])
        ⊎ ((b : BoundAgentLaunch) × IsAdmitted t state a b
            × IsLinked t state b 0 (replicate 32 0) (follow result events s next).events)
  follow_serve state a (err stop) events s next none_in admitted chained = inl none_in
  follow_serve state a (ok b) events s next none_in admitted chained = inr (
    b,
    admitted b refl,
    behind_IsLinked t state b 0 (replicate 32 0) events (next b s).events none_in (chained b),
  )

  -- Whatever the system gives `serve`: either it sends no report at all, or a launch was admitted, by a
  -- first frame whose bundle was accepted and with every file of the build intact, and the report
  -- frames that it sent are one chain: reports that number on from 1, of which the first holds 32
  -- zero bytes and every other the digest of the report before it, and all carry the id of the admitted
  -- session and verify under the Agent's key.
  pub serve-IsLinked :
      CryptoLaws t.crypto
      → (state : RuntimeState) (a : Arrival) (now now' : Option ℤ) (rs : List Round) (s : Sink)
      → (report_frames (serve t state a now now' rs s).events ≡ [])
        ⊎ ((b : BoundAgentLaunch) × IsAdmitted t state a b
            × IsLinked t state b 0 (replicate 32 0) (serve t state a now now' rs s).events)
  unfolding serve
  serve-IsLinked laws state a now now' rs s =
      let o = await_admission t state a s in
      follow_serve state a o.result o.events o.sink (λ b. protect t state b now now' rs)
        (await_admission-NoReport t state a s).no_report
        (λ b h. await_admission-IsAdmitted t state a s b h)
        (λ b. protect-IsLinked t state b laws now now' rs o.sink)

-- ===== src/Runtime/Logged.antt =====
-- Rules for what an action comes to: a property of its outcome follows from the same property where
-- it stops and where it goes on.
use mathlib.Core.Path.{subst}
use certael_agent.Ipc.{IpcError, Sink, Frame, write_frame}
use certael_agent.Runtime.{
  done, Stop, ◌>>◌, ◌>>=◌, RuntimeState, Act, Outcome, bail_if, send, present, statuses, Event,
  follow, checked, sent, publish_runtime, failed, halt, wrote,
}
use certael_agent.Prelude.{
  ◌++◌, ◌∷◌, ◌≡◌, some, List, false, ok, refl, none, Bool, true, Result, String, err, Option,
}

module _ {A B : Type 0} (P : Outcome B → Type 0) (next : A → Act B) (s : Sink) where
  pub checked_rule :
      {E : Type 0} (message : String) (r : Result E A)
      → P (halt (failed message) s)
      → ((a : A) → r ≡ ok a → P (next a s))
      → P ((checked message r >>= next) s)
  checked_rule message (ok a) stops goes = goes a refl
  checked_rule message (err e) stops goes = stops

  pub present_rule :
      (message : String) (o : Option A)
      → P (halt (failed message) s)
      → ((a : A) → o ≡ some a → P (next a s))
      → P ((present message o >>= next) s)
  present_rule message (some a) stops goes = goes a refl
  present_rule message none stops goes = stops

module _ {B : Type 0} (P : Outcome B → Type 0) (next : Act B) where
  pub bail_rule :
      (b : Bool) (message : String) (s : Sink)
      → P (halt (failed message) s)
      → (b ≡ false → P (next s))
      → P ((bail_if b message >> next) s)
  bail_rule true message s stops goes = stops
  bail_rule false message s stops goes = goes refl

  wrote_rule :
      (message : String) (f : Frame) (w : Result IpcError (Unit {0}) × Sink)
      → ((s' : Sink) → P (halt (failed message) s'))
      → ((s' : Sink) → P (record (next s') { events = sent f ∷ (next s').events }))
      → P (
          follow
            (wrote message f w).result
            (wrote message f w).events
            (wrote message f w).sink
            (λ _. next))
  wrote_rule message f (ok u, s') stops goes = goes s'
  wrote_rule message f (err e, s') stops goes = stops s'

  -- A frame is sent, or the action stops there.
  pub send_rule :
      (message : String) (f : Frame) (s : Sink)
      → ((s' : Sink) → P (halt (failed message) s'))
      → ((s' : Sink) → P (record (next s') { events = sent f ∷ (next s').events }))
      → P ((send message f >> next) s)
  unfolding send
  send_rule message f s stops goes = wrote_rule message f (write_frame f s) stops goes

  -- A status is published, or there is no registration to publish it for.
  pub publish_rule :
      (state : RuntimeState) (name : String) (reason : Option String) (s : Sink)
      → ((events : List Event)
          → events ≡ statuses state.registration name reason
          → P (record (next s) { events = events ++ (next s).events }))
      → P ((publish_runtime state name reason >> next) s)
  unfolding publish_runtime
  publish_rule state name reason s goes = goes (statuses state.registration name reason) refl

-- Inversion of a chain that succeeded.
follow-eq-ok :
    {A B : Type 0} (result : Result Stop A) (events : List Event) (s : Sink) (next : A → Act B)
    {last : B}
    → (follow result events s next).result ≡ ok last
    → (first : A) × (result ≡ ok first) × ((next first s).result ≡ ok last)
follow-eq-ok (ok first) events s next h = (first, refl, h)
follow-eq-ok (err stop) events s next h = cc

-- Where the action succeeds, `Goal` holds of its value.
pub record Yields {B : Type 0} (Goal : B → Type 0) (o : Outcome B) : Type 0 where
  pub yields : (b : B) → o.result ≡ ok b → Goal b

pub >>=-Yields :
    {A B : Type 0} {Goal : B → Type 0} (m : Act A) (next : A → Act B) (s : Sink)
    → ((a : A) (s' : Sink) → (m s).result ≡ ok a → Yields Goal (next a s'))
    → Yields Goal ((m >>= next) s)
>>=-Yields m next s goes = record {
  yields = λ b h.
      let (a, first, rest) = follow-eq-ok (m s).result (m s).events (m s).sink next h in
      (goes a (m s).sink first).yields b rest;
}

pub done-Yields :
    {B : Type 0} {Goal : B → Type 0} (b : B) (s : Sink) → Goal b → Yields Goal (done b s)
done-Yields {Goal = Goal} b s goal = record {
  yields = λ b' h. let e : b ≡ b' = cc in subst Goal e goal;
}

pub checked-eq-ok :
    {E A : Type 0} (message : String) (r : Result E A) (s : Sink) {a : A}
    → (checked message r s).result ≡ ok a
    → r ≡ ok a
checked-eq-ok message (ok a) s h = cc
checked-eq-ok message (err e) s h = cc

pub present-eq-ok :
    {A : Type 0} (message : String) (o : Option A) (s : Sink) {a : A}
    → (present message o s).result ≡ ok a
    → o ≡ some a
present-eq-ok message (some a) s h = cc
present-eq-ok message none s h = cc

pub bail_if-eq-ok :
    (b : Bool) (message : String) (s : Sink) {u : Unit {0}}
    → (bail_if b message s).result ≡ ok u
    → b ≡ false
bail_if-eq-ok true message s h = cc
bail_if-eq-ok false message s h = refl

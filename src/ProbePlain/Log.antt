-- ===== src/ProbePlain/Log.antt =====
-- What the plain probes send for a program that calls functions, one inside another, on one thread.
use kieker_lang_pack_c.Common.{
  ℕ, ◌+◌, ◌≤◌, List, [], ◌∷◌, ◌++◌, length, ◌≡◌, ◌≢◌, refl, ap, sym, ◌∙◌,
}
use kieker_lang_pack_c.Word.{CString, minus_one}
use kieker_lang_pack_c.State.{KiekerTrace, Write}
use kieker_lang_pack_c.Exec.{Exec, pure, ◌>>◌}
use kieker_lang_pack_c.Exec.Returns.{>>=_assoc}
use kieker_lang_pack_c.Registry.{Registry}
use kieker_lang_pack_c.Effect.{max_string}
use kieker_lang_pack_c.Fields.{Field, register_fields}
use kieker_lang_pack_c.Trace.{UtHash}
use kieker_lang_pack_c.ProbeEvents.Events.{before_message, after_message}
use kieker_lang_pack_c.ProbePlain.{entered, left, before_operation_event, after_operation_event}
use kieker_lang_pack_c.ProbePlain.Sending.{sent}

-- A sequence of calls of functions, each with its class, its operation and the calls that it makes.
pub data Calls : Type 0 where
  done : Calls
  call : CString → CString → Calls → Calls → Calls

-- A program with a probe before and after each call.
pub data Event : Type 0 where
  enters leaves : CString → CString → Event

abbrev pub events : Calls → List Event
events done = []
events (call c o inner rest) = enters c o ∷ events inner ++ leaves c o ∷ events rest

abbrev pub calls_made : Calls → ℕ
calls_made done = 0
calls_made (call c o inner rest) = 1 + calls_made inner + calls_made rest

-- The number of calls that are open at once.
abbrev pub nesting : Calls → ℕ
nesting done = 0
nesting (call c o inner rest) = 1 + nesting inner + nesting rest

abbrev pub ShortNames : Calls → Type 0
ShortNames done = Unit {0}
ShortNames (call c o inner rest) =
    (length c ≤ max_string) × (length o ≤ max_string) × ShortNames inner × ShortNames rest

abbrev pub ShortEvents : List Event → Type 0
ShortEvents [] = Unit {0}
ShortEvents (enters c o ∷ es) = ((length c ≤ max_string) × (length o ≤ max_string)) × ShortEvents es
ShortEvents (leaves c o ∷ es) = ((length c ≤ max_string) × (length o ≤ max_string)) × ShortEvents es

-- The trace after an event, and the fields that are sent for it if the clock shows the times from
-- the `n`-th on.
abbrev pub counted_by : Event → KiekerTrace → KiekerTrace
counted_by (enters c o) t = entered t
counted_by (leaves c o) t = left t

abbrev pub event_message : (ℕ → ℕ) → ℕ → Event → KiekerTrace → List Field
event_message clock n (enters c o) t = before_message (clock n) (clock (n + 1)) (entered t) c o
event_message clock n (leaves c o) t = after_message (clock n) (clock (n + 1)) (left t) c o

abbrev pub trace_after : KiekerTrace → List Event → KiekerTrace
trace_after t [] = t
trace_after t (e ∷ es) = trace_after (counted_by e t) es

-- The strings that are known after the events, and the calls of `write`.
abbrev pub log_registry : (ℕ → ℕ) → Registry → ℕ → KiekerTrace → List Event → Registry
log_registry clock reg n t [] = reg
log_registry clock reg n t (e ∷ es) =
    log_registry clock (register_fields reg (event_message clock n e t)) (n + 2) (counted_by e t) es

abbrev pub log : (ℕ → ℕ) → ℕ → Registry → ℕ → KiekerTrace → List Event → List Write
log clock socket reg n t [] = []
log clock socket reg n t (e ∷ es) =
    sent socket reg (event_message clock n e t)
    ++ log clock socket (register_fields reg (event_message clock n e t)) (n + 2) (counted_by e t)
        es

-- The number of readings of the clock.
abbrev pub ticks : ℕ → List Event → ℕ
ticks n [] = n
ticks n (e ∷ es) = ticks (n + 2) es

-- No event begins a trace or ends it.
abbrev pub Stays : KiekerTrace → List Event → Type 0
Stays t [] = Unit {0}
Stays t (enters c o ∷ es) = (t.order_index ≢ minus_one) × Stays (entered t) es
Stays t (leaves c o ∷ es) = ((left t).stack ≢ 0) × Stays (left t) es

pub Stays-cons :
    (t : KiekerTrace) (e : Event) (es : List Event)
    → Stays t (e ∷ es)
    → Stays t (e ∷ []) × Stays (counted_by e t) es
Stays-cons t (enters c o) es (h, hs) = ((h, tt), hs)
Stays-cons t (leaves c o) es (h, hs) = ((h, tt), hs)

pub ShortEvents-cons :
    (e : Event) (es : List Event) → ShortEvents (e ∷ es) → ShortEvents (e ∷ []) × ShortEvents es
ShortEvents-cons (enters c o) es (h, hs) = ((h, tt), hs)
ShortEvents-cons (leaves c o) es (h, hs) = ((h, tt), hs)

module _ (ut : UtHash) (self : ℕ) where
  -- The calls of a program, each between its two probes.
  unfoldable pub run_calls : Calls → Exec (Unit {0})
  run_calls done = pure tt
  run_calls (call c o inner rest) = do
    before_operation_event ut self c o
    run_calls inner
    after_operation_event ut self c o
    run_calls rest

  abbrev pub run_event : Event → Exec (Unit {0})
  run_event (enters c o) = before_operation_event ut self c o
  run_event (leaves c o) = after_operation_event ut self c o

  abbrev pub run_events : List Event → Exec (Unit {0})
  run_events [] = pure tt
  run_events (e ∷ es) = do run_event e; run_events es

  run_events-append : (es fs : List Event) → run_events (es ++ fs) ≡ run_events es >> run_events fs
  run_events-append [] fs = refl
  run_events-append (e ∷ es) fs =
      ap (λ (m : Exec (Unit {0})). run_event e >> m) (run_events-append es fs)
      ∙ sym (>>=_assoc (run_event e) (λ u. run_events es) (λ u. run_events fs))

  -- A program with probes is the sequence of its events.
  pub run_calls-events : (calls : Calls) → run_calls calls ≡ run_events (events calls)
  unfolding run_calls
  run_calls-events done = refl
  run_calls-events (call c o inner rest) =
      (λ i.
        before_operation_event ut self c o
        >> (run_calls-events inner i
            >> (after_operation_event ut self c o >> run_calls-events rest i)))
      ∙ ap (λ (m : Exec (Unit {0})). before_operation_event ut self c o >> m)
          (sym (run_events-append (events inner) (leaves c o ∷ events rest)))

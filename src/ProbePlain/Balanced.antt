-- ===== src/ProbePlain/Balanced.antt =====
-- The calls of a program as events on its trace: what is begun is left again.
use kieker_lang_pack_c.Common.{
  ℕ, ◌+◌, ◌*◌, ◌≤◌, ◌<◌, ◌^◌, List, [], ◌∷◌, ◌++◌, ◌≡◌, ◌≢◌, refl, arith, ap, ◌∙◌,
}
use kieker_lang_pack_c.Word.{minus_one, increment, decrement}
use kieker_lang_pack_c.State.{KiekerTrace}
use kieker_lang_pack_c.ProbePlain.{entered, left}
use kieker_lang_pack_c.ProbePlain.Log.{
  Calls, done, call, Event, enters, leaves, events, calls_made, nesting, ShortNames, ShortEvents,
  counted_by, trace_after, Stays,
}

-- The events of calls that start at a depth of 1 at least stay inside the trace; in the end only
-- the order index has gone up, by 2 for each call.
pub trace_after-append :
    (t : KiekerTrace) (es fs : List Event)
    → trace_after t (es ++ fs) ≡ trace_after (trace_after t es) fs
trace_after-append t [] fs = refl
trace_after-append t (e ∷ es) fs = trace_after-append (counted_by e t) es fs

Stays-append :
    (t : KiekerTrace) (es fs : List Event)
    → Stays t es
    → Stays (trace_after t es) fs
    → Stays t (es ++ fs)
Stays-append t [] fs h k = k
Stays-append t (enters c o ∷ es) fs (h, hs) k = (h, Stays-append (entered t) es fs hs k)
Stays-append t (leaves c o ∷ es) fs (h, hs) k = (h, Stays-append (left t) es fs hs k)

abbrev pub advanced : ℕ → KiekerTrace → KiekerTrace
advanced n t = record t { order_index = t.order_index + n }

-- The counters do not wrap around.
pub record Room (calls : Calls) (t : KiekerTrace) : Type 0 where
  pub deep : 1 ≤ t.stack
  pub depth : t.stack + nesting calls < 2 ^ 32
  pub indices : t.order_index + 2 * calls_made calls < minus_one

pub trace_after-events :
    (calls : Calls) (t : KiekerTrace)
    → Room calls t
    → Stays t (events calls) × (trace_after t (events calls) ≡ advanced (2 * calls_made calls) t)
unfolding increment decrement
trace_after-events done t room = (tt, ground arith)
trace_after-events (call c o inner rest) t room =
    let begun : t.order_index ≢ minus_one = omega (arith, room.indices) in
    let (stays_inner, after_inner) = trace_after-events inner (entered t) (record {
      deep = omega (arith, room.deep, room.depth);
      depth = omega (arith, room.deep, room.depth);
      indices = omega (arith, room.indices);
    }) in
    let t2 = advanced (2 * calls_made inner) (entered t) in
    let t3 = advanced (2 + 2 * calls_made inner) t in
    let back : left t2 ≡ t3 = ground (arith, room.depth, room.indices) in
    let (stays_rest, after_rest) = trace_after-events rest t3 (record {
      deep = room.deep;
      depth = omega (arith, room.depth);
      indices = omega (arith, room.indices);
    }) in
    let inside : (left t2).stack ≢ 0 = omega (arith, room.deep, room.depth) in
    let stays_leave : Stays t2 (leaves c o ∷ events rest) = (inside, rw back stays_rest) in
    (
      (
        begun,
        Stays-append (entered t) (events inner) (leaves c o ∷ events rest) stays_inner
            (rw after_inner stays_leave),
      ),
      trace_after-append (entered t) (events inner) (leaves c o ∷ events rest)
          ∙ ap (λ (u : KiekerTrace). trace_after (left u) (events rest)) after_inner
          ∙ ap (λ (u : KiekerTrace). trace_after u (events rest)) back
          ∙ after_rest
          ∙ ground arith,
    )

-- Names that are short in the calls are short in their events.
ShortEvents-append : (es fs : List Event) → ShortEvents es → ShortEvents fs → ShortEvents (es ++ fs)
ShortEvents-append [] fs h k = k
ShortEvents-append (enters c o ∷ es) fs (h, hs) k = (h, ShortEvents-append es fs hs k)
ShortEvents-append (leaves c o ∷ es) fs (h, hs) k = (h, ShortEvents-append es fs hs k)

pub ShortEvents-events : (calls : Calls) → ShortNames calls → ShortEvents (events calls)
ShortEvents-events done h = tt
ShortEvents-events (call c o inner rest) (fits_c, fits_o, short_inner, short_rest) = (
  (fits_c, fits_o),
  ShortEvents-append (events inner) (leaves c o ∷ events rest)
      (ShortEvents-events inner short_inner) ((fits_c, fits_o), ShortEvents-events rest short_rest),
)

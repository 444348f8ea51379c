-- ===== src/Collector/Order.antt =====
-- The order indices in the records of a trace, as the collector reads them.
use kieker_lang_pack_c.Common.{
  ℕ, zero, suc, ◌+◌, ◌*◌, ◌-◌, ◌≤◌, ◌<◌, ◌%◌, ◌^◌, List, [], ◌∷◌, ◌++◌, length, map, Option, some,
  none, ◌≡◌, refl, arith, length-append, ◌∙◌, sym, ap,
}
use mathlib.Core.List.{map-append}
use kieker_lang_pack_c.Word.{CString, increment, decrement}
use kieker_lang_pack_c.State.{State, KiekerTrace, Write}
use kieker_lang_pack_c.Exec.Returns.{Runs}
use kieker_lang_pack_c.Registry.{Registry}
use kieker_lang_pack_c.Effect.{max_string}
use kieker_lang_pack_c.Fields.{Field, int32}
use kieker_lang_pack_c.Trace.{UtHash}
use kieker_lang_pack_c.ProbeEvents.Message.{time_at}
use kieker_lang_pack_c.ProbePlain.{entered}
use kieker_lang_pack_c.ProbePlain.Sending.{Probing}
use kieker_lang_pack_c.ProbePlain.Log.{
  Calls, done, call, Event, enters, leaves, events, calls_made, nesting, ShortNames, counted_by,
  run_calls,
}
use kieker_lang_pack_c.ProbePlain.Root.{last}
use kieker_lang_pack_c.Fields.Decode.{arrives}
use kieker_lang_pack_c.Collector.{stream, read}
use kieker_lang_pack_c.Collector.Events.{Types, records}
use kieker_lang_pack_c.Collector.Sessions.{known_last, whole_records, trace, run_calls-collected}

-- The order index of a record of a call or a return; the metadata of a trace have none.
abbrev pub order_of : List Field → Option ℕ
order_of (int32 v ∷ logged ∷ timestamp ∷ trace_id ∷ int32 order_index ∷ fs) = some order_index
order_of _ = none

abbrev pub range_from : ℕ → ℕ → List ℕ
range_from k zero = []
range_from k (suc n) = k ∷ range_from (k + 1) n

range_from-last : (k n : ℕ) → range_from k (suc n) ≡ range_from k n ++ (k + n) ∷ []
range_from-last k zero = ap (λ (i : ℕ). i ∷ []) (omega arith)
range_from-last k (suc n) =
    let next : k + 1 + n ≡ k + suc n = omega arith in
    ap (λ (l : List ℕ). k ∷ l) (range_from-last (k + 1) n ∙ rw next)

length-events : (calls : Calls) → length (events calls) ≡ 2 * calls_made calls
length-events done = omega arith
length-events (call c o inner rest) = omega (
  arith,
  length-append (events inner) (leaves c o ∷ events rest),
  length-events inner,
  length-events rest,
)

records-order :
    (es : List Event) (clock : ℕ → ℕ) (n : ℕ) (t : KiekerTrace)
    → t.order_index + length es < 2 ^ 32
    → map order_of (records clock n t es)
      ≡ map (λ (k : ℕ). some k) (range_from (t.order_index + 1) (length es))
unfolding increment
records-order [] clock n t room = refl
records-order (enters c o ∷ es) clock n t room =
    let u = counted_by (enters c o) t in
    let now : u.order_index ≡ t.order_index + 1 = omega (arith, room) in
    let wire : u.order_index % 2 ^ 32 ≡ t.order_index + 1 = omega (arith, room, now) in
    rw (wire, records-order es clock (n + 2) u (omega (arith, room, now)), now)
records-order (leaves c o ∷ es) clock n t room =
    let u = counted_by (leaves c o) t in
    let now : u.order_index ≡ t.order_index + 1 = omega (arith, room) in
    let wire : u.order_index % 2 ^ 32 ≡ t.order_index + 1 = omega (arith, room, now) in
    rw (wire, records-order es clock (n + 2) u (omega (arith, room, now)), now)

module _ (ut : UtHash) (self : ℕ) (reg : Registry) (s : State) (c o hostname : CString)
    (inner : Calls) (few : 2 * calls_made (call c o inner done) ≤ 2 ^ 32) where
  whole_records-order :
      map order_of (whole_records ut self reg s c o hostname inner)
      ≡ none ∷ map (λ (k : ℕ). some k) (range_from 0 (2 * calls_made (call c o inner done)))
  unfolding increment decrement
  whole_records-order =
      let t = entered (trace ut self reg s c o hostname inner) in
      let m = 2 * calls_made inner in
      let n = length-events inner in
      let rs = records (time_at s) 3 t (events inner) in
      let end = map arrives (last ut self reg s c o hostname inner) in
      let middle : map order_of rs ≡ map (λ (k : ℕ). some k) (range_from 1 m) =
        rw n at (records-order (events inner) (time_at s) 3 t (omega (arith, n, few))) in
      let ends : (0 + m + 1) % 2 ^ 64 % 2 ^ 32 ≡ 1 + m = omega (arith, few) in
      let later : map order_of (rs ++ end ∷ []) ≡ map (λ (k : ℕ). some k) (range_from 1 (suc m)) =
        map-append order_of rs (end ∷ [])
        ∙ (λ i. middle i ++ some (ends i) ∷ [])
        ∙ sym (
            ap (map (λ (k : ℕ). some k)) (range_from-last 1 m)
            ∙ map-append (λ (k : ℕ). some k) (range_from 1 m) ((1 + m) ∷ [])) in
      let count : 2 * calls_made (call c o inner done) ≡ suc (suc m) = omega arith in
      rw count (ap (λ (ks : List (Option ℕ)). none ∷ some 0 ∷ ks) later)

  module _ (types : Types reg) (fits_c : length c ≤ max_string) (fits_o : length o ≤ max_string)
      (short : ShortNames inner) (fits_hostname : length hostname ≤ max_string)
      (small : length (known_last ut self reg s c o hostname inner) ≤ 2 ^ 32) {xs : List ℕ}
      (probing : Probing reg xs s) (named : s.controller.local_hostname ≡ some hostname)
      (unknown : ut.find s.trace.traces (self % 2 ^ 32) ≡ none)
      (deep : nesting inner < 2 ^ 32 - 1) where
    -- Under the conditions of a whole trace that a collector reads, with at most 2^31 calls, the
    -- records that the collector has read in the end are one without an order index, the metadata
    -- of the trace, and one for each call and each return with the order indices from 0 on, each
    -- by 1 higher than the one before, in the order in which they were sent.
    pub run_calls-order : Runs (run_calls ut self (call c o inner done)) s tt (λ s'.
        (news : List Write) × (s'.world.writes ≡ s.world.writes ++ news)
        × (known : Registry) × (rs : List (List Field)) × (read (length news + 1) reg (stream news)
            ≡ some (known, rs))
        × (map order_of rs
            ≡ none ∷ map (λ (k : ℕ). some k) (range_from 0 (2 * calls_made (call c o inner done)))))
    run_calls-order =
        let r =
          run_calls-collected ut self reg s c o hostname inner types fits_c fits_o short
            fits_hostname small probing named unknown (omega (arith, few)) deep in
        let (news, sent, collected) = r.post in
        record {
          final = r.final;
          run = r.run;
          post = (
            news,
            sent,
            known_last ut self reg s c o hostname inner,
            whole_records ut self reg s c o hostname inner,
            collected,
            whole_records-order,
          );
        }

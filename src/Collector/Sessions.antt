-- ===== src/Collector/Sessions.antt =====
-- A whole trace, from the calls of the probes to what the collector has read.
use kieker_lang_pack_c.Common.{
  ℕ, suc, ◌+◌, ◌-◌, ◌*◌, ◌≤◌, ◌<◌, ◌%◌, ◌^◌, List, [], ◌∷◌, ◌++◌, length, map, drop, some, none,
  ◌≡◌, refl, arith, append_assoc, append-nil, length-append, ◌∙◌, ap,
}
use kieker_lang_pack_c.Word.{CString, minus_one, str_eq}
use kieker_lang_pack_c.State.{State, KiekerTrace, Write}
use kieker_lang_pack_c.Exec.Returns.{Runs}
use kieker_lang_pack_c.Registry.{Registry}
use kieker_lang_pack_c.Effect.{max_string}
use kieker_lang_pack_c.Fields.{Field, encode, register_fields}
use kieker_lang_pack_c.Fields.Append.{encode-append}
use kieker_lang_pack_c.Fields.Decode.{arrives, register_fields-extends}
use kieker_lang_pack_c.Trace.{UtHash}
use kieker_lang_pack_c.ProbeEvents.Message.{time_at}
use kieker_lang_pack_c.ProbeEvents.Events.{metadata_message, before_message}
use kieker_lang_pack_c.ProbePlain.{entered}
use kieker_lang_pack_c.ProbePlain.Sending.{Probing, sent}
use kieker_lang_pack_c.ProbePlain.Log.{
  Calls, done, call, events, leaves, calls_made, nesting, ShortNames, ticks, run_calls,
}
use kieker_lang_pack_c.ProbePlain.Balanced.{ShortEvents-events, advanced}
use kieker_lang_pack_c.ProbePlain.Root.{
  fresh, first, known_first, inner_log, known_inner, last, run_calls_session,
}
use kieker_lang_pack_c.Collector.{stream, kinds_of, Read, with_record, read}
use kieker_lang_pack_c.Collector.Stream.{stream-append, ShortTexts, length-register_fields}
use kieker_lang_pack_c.Collector.Events.{
  Types, Types-register_fields, Types-log_registry, length-log_registry, read-prefixed,
  read-announced_message, read-event, read-log, records, with_records,
}

module _ (logged timestamp logged' : ℕ) (t : KiekerTrace) (hostname c o : CString) where
  abbrev metadata : List Field
  metadata = metadata_message logged t hostname

  abbrev event : List Field
  event = before_message timestamp logged' (entered t) c o

  -- The two records of the first message of a trace.
  read-first :
      (rounds socket : ℕ) (reg : Registry) (rest : List ℕ)
      → Types reg
      → length c ≤ max_string
      → length o ≤ max_string
      → length hostname ≤ max_string
      → length (register_fields reg (metadata ++ event)) ≤ 2 ^ 32
      → read
          (length (sent socket reg (metadata ++ event)) + suc rounds)
          reg
          (stream (sent socket reg (metadata ++ event)) ++ rest)
        ≡ with_record (map arrives metadata) (
            with_record
              (map arrives event)
              (read rounds (register_fields reg (metadata ++ event)) rest))
  unfolding kinds_of str_eq
  read-first rounds socket reg rest types fits_c fits_o fits_hostname small =
      let whole = metadata ++ event in
      let reg1 = register_fields reg metadata in
      let final = register_fields reg whole in
      let (more, e) = register_fields-extends event reg1 in
      let known : Types final = Types-register_fields whole types in
      let short : ShortTexts whole = (
        tt,
        (
          tt,
          (
            tt,
            (
              tt,
              (
                omega arith,
                (fits_hostname, (tt, (tt, (tt, (tt, (tt, (tt, (tt, (fits_o, (fits_c, tt)))))))))),
              ),
            ),
          ),
        ),
      ) in
      let all : final ++ [] ≡ final = rw append-nil in
      let behind = encode reg1 event ++ rest in
      let bytes : encode reg whole ++ rest ≡ encode reg metadata ++ behind =
        ap (λ (bs : List ℕ). bs ++ rest) (encode-append metadata event reg)
        ∙ append_assoc (encode reg metadata) (encode reg1 event) rest in
      let one : read (suc (suc rounds)) final (encode reg metadata ++ behind)
          ≡ with_record (map arrives metadata) (read (suc rounds) final behind) =
        rw (← e) at (
          read-prefixed 0 logged (drop 2 metadata) (suc rounds) reg more behind (omega arith)
            (rw (← e) (ap kinds_of known.metadata)) (rw (← e) small)) in
      let two : read (suc rounds) final behind
          ≡ with_record (map arrives event) (read rounds final rest) =
        rw all at (
          read-prefixed 1 logged' (drop 2 event) rounds reg1 [] rest (omega arith)
            (rw all (ap kinds_of known.before_operation)) (rw all small)) in
      read-announced_message whole (suc rounds) socket reg rest short small
      ∙ ap (read (suc (suc rounds)) final) bytes
      ∙ one
      ∙ ap (with_record (map arrives metadata)) two

-- Three parts of a log, one after another.
stream-parts :
    (reg : Registry) (xs ys zs : List Write)
    → read (length (xs ++ (ys ++ zs)) + 1) reg (stream (xs ++ (ys ++ zs)))
      ≡ read
          (length xs + suc (length ys + (length zs + 0)))
          reg
          (stream xs ++ (stream ys ++ (stream zs ++ [])))
stream-parts reg xs ys zs =
    let count : length (xs ++ (ys ++ zs)) + 1 ≡ length xs + suc (length ys + (length zs + 0)) =
      omega (arith, length-append xs (ys ++ zs), length-append ys zs) in
    rw (count, stream-append xs (ys ++ zs), stream-append ys zs, append-nil)

with_records-last :
    (rs : List (List Field)) (r : List Field) (reg : Registry)
    → with_records rs (with_record r (some (reg, []))) ≡ some (reg, rs ++ r ∷ [])
with_records-last [] r reg = refl
with_records-last (f ∷ rs) r reg = rw (with_records-last rs r reg)

module _ (ut : UtHash) (self : ℕ) (reg : Registry) (s : State) (c o hostname : CString)
    (inner : Calls) where
  abbrev pub trace : KiekerTrace
  trace = fresh ut self reg s c o hostname inner

  -- What is sent, and the records in it.
  abbrev first_log : List Write
  first_log = sent s.controller.socket reg (first ut self reg s c o hostname inner)

  abbrev last_log : List Write
  last_log =
      sent s.controller.socket (known_inner ut self reg s c o hostname inner)
        (last ut self reg s c o hostname inner)

  abbrev pub whole_log : List Write
  whole_log = first_log ++ (inner_log ut self reg s c o hostname inner ++ last_log)

  abbrev pub known_last : Registry
  known_last =
      register_fields (known_inner ut self reg s c o hostname inner)
        (last ut self reg s c o hostname inner)

  abbrev pub whole_records : List (List Field)
  whole_records =
      map arrives (metadata_message (time_at s 0) trace hostname)
      ∷ map arrives (before_message (time_at s 1) (time_at s 2) (entered trace) c o)
      ∷ (records (time_at s) 3 (entered trace) (events inner)
          ++ map arrives (last ut self reg s c o hostname inner) ∷ [])

  module _ (types : Types reg) (fits_c : length c ≤ max_string) (fits_o : length o ≤ max_string)
      (short : ShortNames inner) (fits_hostname : length hostname ≤ max_string)
      (small : length known_last ≤ 2 ^ 32) where
    whole_log-read :
        read (length whole_log + 1) reg (stream whole_log) ≡ some (known_last, whole_records)
    unfolding read
    whole_log-read =
        let clock = time_at s in
        let socket = s.controller.socket in
        let es = events inner in
        let k1 = known_first ut self reg s c o hostname inner in
        let k2 = known_inner ut self reg s c o hostname inner in
        let middle = inner_log ut self reg s c o hostname inner in
        let end = last ut self reg s c o hostname inner in
        let small2 : length k2 ≤ 2 ^ 32 = omega (arith, small, length-register_fields end k2) in
        let small1 : length k1 ≤ 2 ^ 32 =
          omega (arith, small2, length-log_registry clock es k1 3 (entered trace)) in
        let types1 : Types k1 =
          Types-register_fields (first ut self reg s c o hostname inner) types in
        let types2 : Types k2 = Types-log_registry clock es 3 (entered trace) types1 in
        let returns = advanced (2 * calls_made inner) (entered trace) in
        let one =
          read-first (clock 0) (clock 1) (clock 2) trace hostname c o
            (length middle + (length last_log + 0)) socket reg
            (stream middle ++ (stream last_log ++ [])) types fits_c fits_o fits_hostname small1 in
        let two =
          read-log es clock socket 3 (entered trace) (length last_log + 0) k1
            (stream last_log ++ []) types1 (ShortEvents-events inner short) small2 in
        let three =
          read-event (leaves c o) clock socket (ticks 3 es) returns 0 k2 [] types2
            ((fits_c, fits_o), tt) small in
        let above = λ (r : Read).
          with_record (map arrives (metadata_message (clock 0) trace hostname)) (
            with_record (map arrives (before_message (clock 1) (clock 2) (entered trace) c o)) r) in
        stream-parts reg first_log middle last_log
        ∙ one
        ∙ ap above (
            two
            ∙ ap (with_records (records clock 3 (entered trace) es)) three
            ∙ with_records-last (records clock 3 (entered trace) es) (map arrives end) known_last)

    pub run_calls-collected :
        {xs : List ℕ}
        → Probing reg xs s
        → s.controller.local_hostname ≡ some hostname
        → ut.find s.trace.traces (self % 2 ^ 32) ≡ none
        → 2 * calls_made inner < minus_one
        → nesting inner < 2 ^ 32 - 1
        → Runs (run_calls ut self (call c o inner done)) s tt (λ s'.
          (news : List Write) × (s'.world.writes ≡ s.world.writes ++ news)
          × (read (length news + 1) reg (stream news) ≡ some (known_last, whole_records)))
    run_calls-collected probing named unknown few deep =
        let r =
          run_calls_session ut self reg s c o hostname inner probing fits_c fits_o short named
            fits_hostname unknown few deep in
        let (ys, set_up, freed, table, writes) = r.post in
        record { final = r.final; run = r.run; post = (whole_log, writes, whole_log-read) }

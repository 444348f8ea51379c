-- ===== src/Collector/Events.antt =====
-- The records of the probes, as the collector reads them.
use native.Mathlib.Nat.{zero-add}
use kieker_lang_pack_c.Common.{
  ℕ, suc, ◌+◌, ◌≤◌, ◌<◌, ◌-◌, ◌^◌, List, [], ◌∷◌, ◌++◌, length, map, some, ◌≡◌, arith, get_elem?,
  append_assoc, append-nil, length-append, ◌∙◌, ap, drop,
}
use kieker_lang_pack_c.Word.{str_eq}
use kieker_lang_pack_c.Word.Bytes.{be_bytes}
use kieker_lang_pack_c.State.{KiekerTrace}
use kieker_lang_pack_c.Registry.{Registry, get_elem?-grows}
use kieker_lang_pack_c.Fields.{Field, encode_field, encode, register_fields, announce_fields}
use kieker_lang_pack_c.Fields.Decode.{kind, arrives, register_fields-extends}
use kieker_lang_pack_c.Setup.Types.{
  trace_metadata_type, before_operation_type, after_operation_type,
}
use kieker_lang_pack_c.ProbeEvents.Message.{prefixed}
use kieker_lang_pack_c.ProbePlain.Sending.{message, sent}
use kieker_lang_pack_c.ProbePlain.Log.{
  Event, enters, leaves, ShortEvents, ShortEvents-cons, counted_by, event_message, log,
  log_registry,
}
use kieker_lang_pack_c.Collector.{stream, kinds_of, Read, with_record, next_number, read}
use kieker_lang_pack_c.Collector.Stream.{
  stream-append, next_number-append, ShortTexts, length-register_fields, read-announce_fields,
  read-message,
}

-- The types of the events are known under the numbers that the probes put before their records.
pub record Types (reg : Registry) : Type 0 where
  pub metadata : get_elem? reg 0 ≡ some trace_metadata_type
  pub before_operation : get_elem? reg 1 ≡ some before_operation_type
  pub after_operation : get_elem? reg 2 ≡ some after_operation_type

pub Types-register_fields :
    (fs : List Field) {reg : Registry} → Types reg → Types (register_fields reg fs)
Types-register_fields fs {reg} types =
    let (more, e) = register_fields-extends fs reg in
    rw e (record {
      metadata = get_elem?-grows reg more 0 _ types.metadata;
      before_operation = get_elem?-grows reg more 1 _ types.before_operation;
      after_operation = get_elem?-grows reg more 2 _ types.after_operation;
    })

-- The message behind the announcements, with the records of `v` at its start.
pub read-prefixed :
    (v time : ℕ) (fs : List Field) (rounds : ℕ) (reg more : Registry) (rest : List ℕ)
    → v < 2 ^ 32 - 1
    → kinds_of (get_elem? (register_fields reg fs ++ more) v) ≡ some (map kind (prefixed v time fs))
    → length (register_fields reg fs ++ more) ≤ 2 ^ 32
    → read (suc rounds) (register_fields reg fs ++ more) (encode reg (prefixed v time fs) ++ rest)
      ≡ with_record
          (map arrives (prefixed v time fs))
          (read rounds (register_fields reg fs ++ more) rest)
unfolding encode_field
read-prefixed v time fs rounds reg more rest low typed small =
    let behind = be_bytes 8 time ++ encode reg fs in
    let number : next_number (encode reg (prefixed v time fs) ++ rest) ≡ v =
      ap next_number (append_assoc (be_bytes 4 v) behind rest)
      ∙ next_number-append v (behind ++ rest)
      ∙ omega (arith, low) in
    read-message (prefixed v time fs) rounds reg more rest v number (omega (arith, low))
      (omega arith) typed small

-- The announcements before a message.
pub read-announced_message :
    (fs : List Field) (rounds socket : ℕ) (reg : Registry) (rest : List ℕ)
    → ShortTexts fs
    → length (register_fields reg fs) ≤ 2 ^ 32
    → read (length (sent socket reg fs) + rounds) reg (stream (sent socket reg fs) ++ rest)
      ≡ read (suc rounds) (register_fields reg fs) (encode reg fs ++ rest)
read-announced_message fs rounds socket reg rest short small =
    let news = announce_fields socket reg fs in
    let count : length (sent socket reg fs) + rounds ≡ length news + suc rounds =
      omega (arith, length-append news (message socket reg fs ∷ [])) in
    rw (count, stream-append news (message socket reg fs ∷ []), append_assoc, append-nil)
      (read-announce_fields fs (suc rounds) socket reg (encode reg fs ++ rest) short small)

pub read-sent :
    (v time : ℕ) (fs : List Field) (rounds socket : ℕ) (reg : Registry) (rest : List ℕ)
    → v < 2 ^ 32 - 1
    → ShortTexts fs
    → kinds_of (get_elem? (register_fields reg fs) v) ≡ some (map kind (prefixed v time fs))
    → length (register_fields reg fs) ≤ 2 ^ 32
    → read
        (length (sent socket reg (prefixed v time fs)) + rounds)
        reg
        (stream (sent socket reg (prefixed v time fs)) ++ rest)
      ≡ with_record (map arrives (prefixed v time fs)) (read rounds (register_fields reg fs) rest)
read-sent v time fs rounds socket reg rest low short typed small =
    let all : register_fields reg fs ++ [] ≡ register_fields reg fs = rw append-nil in
    read-announced_message (prefixed v time fs) rounds socket reg rest (tt, (tt, short)) small
    ∙ rw all at (read-prefixed v time fs rounds reg [] rest low (rw all typed) (rw all small))

-- One event.
abbrev pub record_of : (ℕ → ℕ) → ℕ → Event → KiekerTrace → List Field
record_of clock n e t = map arrives (event_message clock n e t)

pub read-event :
    (e : Event) (clock : ℕ → ℕ) (socket n : ℕ) (t : KiekerTrace) (rounds : ℕ) (reg : Registry)
    (rest : List ℕ)
    → Types reg
    → ShortEvents (e ∷ [])
    → length (register_fields reg (event_message clock n e t)) ≤ 2 ^ 32
    → read
        (length (sent socket reg (event_message clock n e t)) + rounds)
        reg
        (stream (sent socket reg (event_message clock n e t)) ++ rest)
      ≡ with_record
          (record_of clock n e t)
          (read rounds (register_fields reg (event_message clock n e t)) rest)
unfolding kinds_of str_eq
read-event (enters c o) clock socket n t rounds reg rest types ((fits_c, fits_o), ends) small =
    let fs = event_message clock n (enters c o) t in
    read-sent 1 (clock (n + 1)) (drop 2 fs) rounds socket reg rest (omega arith)
      (tt, (tt, (tt, (fits_o, (fits_c, tt)))))
      (ap kinds_of (Types-register_fields fs types).before_operation) small
read-event (leaves c o) clock socket n t rounds reg rest types ((fits_c, fits_o), ends) small =
    let fs = event_message clock n (leaves c o) t in
    read-sent 2 (clock (n + 1)) (drop 2 fs) rounds socket reg rest (omega arith)
      (tt, (tt, (tt, (fits_o, (fits_c, tt)))))
      (ap kinds_of (Types-register_fields fs types).after_operation) small

-- The records of events in a row.
abbrev pub records : (ℕ → ℕ) → ℕ → KiekerTrace → List Event → List (List Field)
records clock n t [] = []
records clock n t (e ∷ es) = record_of clock n e t ∷ records clock (n + 2) (counted_by e t) es

abbrev pub with_records : List (List Field) → Read → Read
with_records [] r = r
with_records (f ∷ fs) r = with_record f (with_records fs r)

pub length-log_registry :
    (clock : ℕ → ℕ) (es : List Event) (reg : Registry) (n : ℕ) (t : KiekerTrace)
    → length reg ≤ length (log_registry clock reg n t es)
length-log_registry clock [] reg n t = omega arith
length-log_registry clock (e ∷ es) reg n t =
    let fs = event_message clock n e t in
    omega (
      arith,
      length-register_fields fs reg,
      length-log_registry clock es (register_fields reg fs) (n + 2) (counted_by e t),
    )

pub Types-log_registry :
    (clock : ℕ → ℕ) (es : List Event) {reg : Registry} (n : ℕ) (t : KiekerTrace)
    → Types reg
    → Types (log_registry clock reg n t es)
Types-log_registry clock [] n t types = types
Types-log_registry clock (e ∷ es) n t types =
    Types-log_registry clock es (n + 2) (counted_by e t)
      (Types-register_fields (event_message clock n e t) types)

pub read-log :
    (es : List Event) (clock : ℕ → ℕ) (socket n : ℕ) (t : KiekerTrace) (rounds : ℕ) (reg : Registry)
    (rest : List ℕ)
    → Types reg
    → ShortEvents es
    → length (log_registry clock reg n t es) ≤ 2 ^ 32
    → read
        (length (log clock socket reg n t es) + rounds)
        reg
        (stream (log clock socket reg n t es) ++ rest)
      ≡ with_records (records clock n t es) (read rounds (log_registry clock reg n t es) rest)
read-log [] clock socket n t rounds reg rest types short small = rw zero-add
read-log (e ∷ es) clock socket n t rounds reg rest types short small =
    let (short_first, short_later) = ShortEvents-cons e es short in
    let fs = event_message clock n e t in
    let reg' = register_fields reg fs in
    let u = counted_by e t in
    let first = sent socket reg fs in
    let later = log clock socket reg' (n + 2) u es in
    let count : length (first ++ later) + rounds ≡ length first + (length later + rounds) =
      omega (arith, length-append first later) in
    let room : length reg' ≤ 2 ^ 32 =
      omega (arith, small, length-log_registry clock es reg' (n + 2) u) in
    rw (count, stream-append first later, append_assoc)
      (read-event e clock socket n t (length later + rounds) reg (stream later ++ rest) types
        short_first room)
    ∙ ap (with_record (record_of clock n e t)) (
        read-log es clock socket (n + 2) u rounds reg' rest (Types-register_fields fs types)
          short_later small)

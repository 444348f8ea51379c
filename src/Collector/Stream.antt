-- ===== src/Collector/Stream.antt =====
-- The messages of the library, one after another, as the collector reads them.
use native.Mathlib.Nat.{zero-add}
use kieker_lang_pack_c.Common.{
  ℕ, suc, ◌+◌, ◌-◌, ◌≤◌, ◌%◌, ◌^◌, List, [], ◌∷◌, ◌++◌, length, take, drop, map, some, ◌≡◌, ◌≢◌,
  refl, arith, ◌==◌, get_elem?, append_assoc, append-nil, take-append, drop-append, length-append,
  Option-cases, inl, inr, ◌∙◌, sym, ap, true, false,
}
use kieker_lang_pack_c.Word.{CString, le_bytes, minus_one}
use kieker_lang_pack_c.Word.Bytes.{be_bytes, of_be, of_be-be_bytes_4, length-be_bytes_4}
use kieker_lang_pack_c.State.{Write}
use kieker_lang_pack_c.Registry.{Registry, index_from, register}
use kieker_lang_pack_c.Controller.Announce.{announcement, announcement_bytes}
use kieker_lang_pack_c.Lookup.Keys.{announcements}
use kieker_lang_pack_c.Effect.{max_string}
use kieker_lang_pack_c.Fields.{
  Field, boolean, int8, int16, int32, int64, float, double, text, size, encode, register_field,
  register_fields, announce_field, announce_fields,
}
use kieker_lang_pack_c.Fields.Serialized.{length-encode}
use kieker_lang_pack_c.Fields.Decode.{
  Kind, kind, kind_width-kind, decode, arrives, decode-encode, register_fields-extends,
}
use kieker_lang_pack_c.Collector.{stream, widths, kinds_of, with_record, next_number, read}

pub stream-append : (ws vs : List Write) → stream (ws ++ vs) ≡ stream ws ++ stream vs
stream-append [] vs = refl
stream-append (w ∷ ws) vs = rw (stream-append ws vs, append_assoc)

pub next_number-append : (v : ℕ) (rest : List ℕ) → next_number (be_bytes 4 v ++ rest) ≡ v % 2 ^ 32
next_number-append v rest =
    ap of_be (take-append (be_bytes 4 v) rest 4 (sym (length-be_bytes_4 v))) ∙ of_be-be_bytes_4 v

widths-kind : (fs : List Field) → widths (map kind fs) ≡ size fs
widths-kind [] = refl
widths-kind (f ∷ fs) = omega (arith, kind_width-kind f, widths-kind fs)

-- One round of the collector.
read-announced :
    (rounds : ℕ) (reg : Registry) (bytes : List ℕ) (n : ℕ)
    → 1 ≤ length bytes
    → next_number bytes ≡ 2 ^ 32 - 1
    → next_number (drop 4 bytes) ≡ length reg
    → next_number (drop 8 bytes) ≡ n
    → read (suc rounds) reg bytes
      ≡ read rounds (reg ++ take n (drop 12 bytes) ∷ []) (drop (12 + n) bytes)
unfolding read
read-announced rounds reg [] n some_left e e' e'' = absurd (omega arith)
read-announced rounds reg (b ∷ bytes) n some_left e e' e'' =
    let yes : (next_number (b ∷ bytes) == 2 ^ 32 - 1) ≡ true = ground (arith, e) in
    let same : (next_number (drop 4 (b ∷ bytes)) == length reg) ≡ true = ground (arith, e') in
    rw (yes, read) (rw (same, read) (rw (e'', read)))

read-recorded :
    (rounds : ℕ) (reg : Registry) (bytes : List ℕ) (v : ℕ) (ks : List Kind) (r : List Field)
    → 1 ≤ length bytes
    → next_number bytes ≡ v
    → v ≢ 2 ^ 32 - 1
    → kinds_of (get_elem? reg v) ≡ some ks
    → decode reg ks bytes ≡ some r
    → read (suc rounds) reg bytes ≡ with_record r (read rounds reg (drop (widths ks) bytes))
unfolding read
read-recorded rounds reg [] v ks r some_left e other typed decoded = absurd (omega arith)
read-recorded rounds reg (b ∷ bytes) v ks r some_left e other typed decoded =
    let no : (next_number (b ∷ bytes) == 2 ^ 32 - 1) ≡ false = ground (arith, e, other) in
    rw (no, read) (rw (e, read) (rw (typed, read) (rw (decoded, read))))

pub read-announcement :
    (rounds socket : ℕ) (reg : Registry) (string : CString) (rest : List ℕ)
    → length string ≤ max_string
    → length (reg ++ string ∷ []) ≤ 2 ^ 32
    → read (suc rounds) reg ((announcement socket (length reg) string).bytes ++ rest)
      ≡ read rounds (reg ++ string ∷ []) rest
unfolding be_bytes le_bytes
read-announcement rounds socket reg string rest fits small =
    let bytes = announcement_bytes (length reg) string ++ rest in
    let number : length reg % 2 ^ 32 ≡ length reg =
      omega (arith, small, length-append reg (string ∷ [])) in
    let long : length string % 2 ^ 32 ≡ length string = omega (arith, fits) in
    let head : next_number bytes ≡ 2 ^ 32 - 1 =
      next_number-append minus_one
        (be_bytes 4 (length reg) ++ (be_bytes 4 (length string) ++ (string ++ rest))) in
    let body = string ++ rest in
    let second : next_number (drop 4 bytes) ≡ length reg =
      next_number-append (length reg) (be_bytes 4 (length string) ++ body) ∙ number in
    let third : next_number (drop 8 bytes) ≡ length string =
      next_number-append (length string) body ∙ long in
    let behind : drop (12 + length string) bytes ≡ rest =
      drop-append (announcement_bytes (length reg) string) rest (12 + length string)
        (omega arith) in
    read-announced rounds reg bytes (length string) (omega arith) head second third
    ∙ rw (take-append string rest (length string) refl, behind)

read-announcements :
    (rounds socket : ℕ) (reg : Registry) (string : CString) (rest : List ℕ)
    → length string ≤ max_string
    → length (register reg string) ≤ 2 ^ 32
    → read
        (length (announcements socket reg string) + rounds)
        reg
        (stream (announcements socket reg string) ++ rest)
      ≡ read rounds (register reg string) rest
unfolding announcements register
read-announcements rounds socket reg string rest fits small =
    let one : 1 + rounds ≡ suc rounds = omega arith in
    elim (Option-cases (index_from 0 reg string)) [
      | inl new ↦ rw new (
          rw (one, append-nil)
            (read-announcement rounds socket reg string rest fits (rw new at small)))
      | inr (i, known) ↦ rw (known, zero-add) refl
    ]

-- The strings of the fields can be announced; the fields are read after that.
abbrev pub ShortText : Field → Type 0
ShortText (text v) = length v ≤ max_string
ShortText _ = Unit {0}

abbrev pub ShortTexts : List Field → Type 0
ShortTexts [] = Unit {0}
ShortTexts (f ∷ fs) = ShortText f × ShortTexts fs

pub length-register_fields :
    (fs : List Field) (reg : Registry) → length reg ≤ length (register_fields reg fs)
length-register_fields fs reg =
    let (more, e) = register_fields-extends fs reg in rw e (omega (arith, length-append reg more))

announce_field-cases :
    (rounds socket : ℕ) (reg : Registry) (f : Field) (rest : List ℕ)
    → ShortText f
    → length (register_field reg f) ≤ 2 ^ 32
    → read
        (length (announce_field socket reg f) + rounds)
        reg
        (stream (announce_field socket reg f) ++ rest)
      ≡ read rounds (register_field reg f) rest
announce_field-cases rounds socket reg (text v) rest short small =
    read-announcements rounds socket reg v rest short small
announce_field-cases rounds socket reg (boolean v) rest short small = rw zero-add
announce_field-cases rounds socket reg (int8 v) rest short small = rw zero-add
announce_field-cases rounds socket reg (int16 v) rest short small = rw zero-add
announce_field-cases rounds socket reg (int32 v) rest short small = rw zero-add
announce_field-cases rounds socket reg (int64 v) rest short small = rw zero-add
announce_field-cases rounds socket reg (float v) rest short small = rw zero-add
announce_field-cases rounds socket reg (double v) rest short small = rw zero-add

pub read-announce_fields :
    (fs : List Field) (rounds socket : ℕ) (reg : Registry) (rest : List ℕ)
    → ShortTexts fs
    → length (register_fields reg fs) ≤ 2 ^ 32
    → read
        (length (announce_fields socket reg fs) + rounds)
        reg
        (stream (announce_fields socket reg fs) ++ rest)
      ≡ read rounds (register_fields reg fs) rest
read-announce_fields [] rounds socket reg rest short small = rw zero-add
read-announce_fields (f ∷ fs) rounds socket reg rest (short, shorts) small =
    let first = announce_field socket reg f in
    let reg' = register_field reg f in
    let later = announce_fields socket reg' fs in
    let count : length (first ++ later) + rounds ≡ length first + (length later + rounds) =
      omega (arith, length-append first later) in
    rw (count, stream-append first later, append_assoc)
      (announce_field-cases (length later + rounds) socket reg f (stream later ++ rest) short
        (omega (arith, small, length-register_fields fs reg')))
    ∙ read-announce_fields fs rounds socket reg' rest shorts small

pub read-message :
    (fs : List Field) (rounds : ℕ) (reg more : Registry) (rest : List ℕ)
    → (v : ℕ) → next_number (encode reg fs ++ rest) ≡ v
    → v ≢ 2 ^ 32 - 1
    → 1 ≤ size fs
    → kinds_of (get_elem? (register_fields reg fs ++ more) v) ≡ some (map kind fs)
    → length (register_fields reg fs ++ more) ≤ 2 ^ 32
    → read (suc rounds) (register_fields reg fs ++ more) (encode reg fs ++ rest)
      ≡ with_record (map arrives fs) (read rounds (register_fields reg fs ++ more) rest)
read-message fs rounds reg more rest v number other long typed small =
    let bytes = encode reg fs in
    let n = length-encode reg fs in
    let behind : drop (widths (map kind fs)) (bytes ++ rest) ≡ rest =
      drop-append bytes rest (widths (map kind fs)) (widths-kind fs ∙ sym n) in
    read-recorded rounds (register_fields reg fs ++ more) (bytes ++ rest) v (map kind fs)
      (map arrives fs) (omega (arith, n, length-append bytes rest)) number other typed
      (decode-encode fs reg more rest small)
    ∙ rw behind

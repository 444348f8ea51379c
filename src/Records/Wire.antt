-- ===== src/Records/Wire.antt =====
-- What serializing a record of any type means for the reader of the buffer.
use kieker_lang_pack_c.Common.{
  ℕ, ◌+◌, ◌≤◌, ◌<◌, ◌^◌, List, [], length, map, some, none, ◌≡◌, ◌≢◌, arith, splice, slice, take,
  drop, slice-splice, take-splice, drop-splice, append-nil, sym,
}
use kieker_lang_pack_c.State.{Ptr, State}
use kieker_lang_pack_c.Exec.Returns.{Runs}
use kieker_lang_pack_c.Registry.{Registry}
use kieker_lang_pack_c.Effect.{Ready}
use kieker_lang_pack_c.Fields.{Field, size, encode, register_fields, Fits}
use kieker_lang_pack_c.Fields.Serialized.{serialize_fields-Wrote, length-encode}
use kieker_lang_pack_c.Fields.Overflow.{serialize_fields_overflow}
use kieker_lang_pack_c.Fields.Decode.{decode, kind, arrives, decode-encode}
use kieker_lang_pack_c.Records.{Record, serialize, fields, serialize-fields}

-- In a state after the record: the block, unchanged before and behind the record, and in between
-- bytes from which a reader that knows the announced strings recovers the fields.
pub record Readable (b : Ptr) (xs : List ℕ) (offset : ℕ) (reg : Registry) (fs : List Field)
    (s : State) : Type 0 where
  pub block : List ℕ
  pub holds : s.heap.blocks b ≡ some block
  pub before : take offset block ≡ take offset xs
  pub behind : drop (offset + size fs) block ≡ drop (offset + size fs) xs
  pub known : Ready (register_fields reg fs) s
  pub fields_back :
      decode (register_fields reg fs) (map kind fs) (slice block offset (size fs))
      ≡ some (map arrives fs)

module _ (r : Record) {b : Ptr} {xs : List ℕ} {reg : Registry} {s : State} (offset : ℕ)
    (ready : Ready reg s) (holds : s.heap.blocks b ≡ some xs)
    (apart : b ≢ s.controller.string_buffer) (ok : Fits (fields r)) where
  -- A record of any of the 62 types whose strings have at most 8180 bytes and whose `double`
  -- values have an integer part that fits into 64 bits, and that fits into a block behind an
  -- offset, is written there and nowhere else in the block, and the position behind it is
  -- returned; a reader that knows the announced strings, at most 2^32, recovers from the block
  -- the fields that are sent, which are those of the struct but for the next order index of the
  -- two kinds of trace metadata, the numbers cut to their width on the wire and a `double` to its
  -- integer part.
  pub serialize_roundtrip :
      offset + size (fields r) ≤ length xs
      → length (register_fields reg (fields r)) ≤ 2 ^ 32
      → Runs
          (serialize b offset r)
          s
          (offset + size (fields r))
          (Readable b xs offset reg (fields r))
  serialize_roundtrip fits small =
      let fs = fields r in
      let bytes = encode reg fs in
      let e = length-encode reg fs in
      let run = serialize_fields-Wrote fs offset ready holds apart ok fits in
      let cut : slice (splice xs offset bytes) offset (size fs) ≡ bytes =
        slice-splice xs offset (size fs) bytes (sym e) fits in
      let back : decode (register_fields reg fs) (map kind fs) bytes ≡ some (map arrives fs) =
        simp append-nil at (decode-encode fs reg [] [] (simp append-nil small)) in
      record {
        final = run.final;
        run = rw serialize-fields run.run;
        post = record {
          block = splice xs offset bytes;
          holds = run.post.holds;
          before = take-splice xs offset bytes;
          behind = drop-splice xs offset (offset + size fs) bytes (omega (arith, e));
          known = run.post.ready;
          fields_back = rw cut back;
        };
      }

  -- A record of any type whose strings have at most 8180 bytes and whose `double` values have an
  -- integer part that fits into 64 bits, that begins inside a block and does not fit into it, is
  -- written past the end of the block, which is undefined behaviour: no serializer tests for the
  -- size of the buffer.
  pub serialize_overflow :
      offset ≤ length xs → length xs < offset + size (fields r) → serialize b offset r s ≡ none
  serialize_overflow inside over =
      rw serialize-fields
        (serialize_fields_overflow (fields r) offset ready holds apart ok inside over)

-- ===== src/Fields/Serialized.antt =====
-- Serializing fields writes their encoding, and nothing else.
use kieker_lang_pack_c.Common.{
  ℕ, ◌+◌, ◌≤◌, ◌%◌, List, [], ◌∷◌, length, length-append, some, ◌≡◌, ◌≢◌, refl, arith, splice,
  splice-splice, splice-nil, append-nil, length-splice, ◌∙◌, sym,
}
use native.Mathlib.Nat.{add-zero, add_assoc}
use kieker_lang_pack_c.Word.{CString, le_bytes}
use kieker_lang_pack_c.Word.Bytes.{
  be_bytes, le_bytes-htons, le_bytes-htonl, le_bytes-bswap_64, length-be_bytes_2, length-be_bytes_4,
  length-be_bytes_8,
}
use kieker_lang_pack_c.State.{Ptr, State}
use kieker_lang_pack_c.Exec.{pure, memcpy, set_block, ◌>>=◌, ◌>>◌, ◌+=◌, the}
use kieker_lang_pack_c.Exec.Returns.{Runs, memcpy_runs}
use kieker_lang_pack_c.Registry.{Registry, number_of, register}
use kieker_lang_pack_c.Effect.{Ready, Wrote, Wrote-refl, Wrote-trans, max_string}
use kieker_lang_pack_c.Lookup.Keys.{find_key_by_string-Wrote, announcements}
use kieker_lang_pack_c.Serialize.{
  serialize_boolean, serialize_int8, serialize_int16, serialize_int32, serialize_int64,
  serialize_float, serialize_double, serialize_string,
}
use kieker_lang_pack_c.Fields.{
  Field, boolean, int8, int16, int32, int64, float, double, text, serialize_field, serialize_fields,
  width, size, encode_field, register_field, announce_field, encode, register_fields,
  announce_fields, FitsField, Fits,
}

pub length-encode_field : (reg : Registry) (f : Field) → length (encode_field reg f) ≡ width f
unfolding encode_field le_bytes
length-encode_field reg (boolean v) = refl
length-encode_field reg (int8 v) = refl
length-encode_field reg (int16 v) = length-be_bytes_2 v
length-encode_field reg (int32 v) = length-be_bytes_4 v
length-encode_field reg (int64 v) = length-be_bytes_8 v
length-encode_field reg (float v) = refl
length-encode_field reg (double v) = length-be_bytes_8 _
length-encode_field reg (text v) = length-be_bytes_4 _

pub length-encode : (reg : Registry) (fs : List Field) → length (encode reg fs) ≡ size fs
length-encode reg [] = refl
length-encode reg (f ∷ fs) =
    length-append (encode_field reg f) _
    ∙ omega (arith, length-encode_field reg f, length-encode (register_field reg f) fs)

module _ {b : Ptr} {xs : List ℕ} {reg : Registry} {s : State} (ready : Ready reg s)
    (holds : s.heap.blocks b ≡ some xs) (apart : b ≢ s.controller.string_buffer) (offset : ℕ) where
  memcpy-Wrote :
      (bytes : List ℕ)
      → offset + length bytes ≤ length xs
      → Runs (memcpy b offset bytes) s tt (Wrote b (splice xs offset bytes) reg [] 0 s)
  memcpy-Wrote bytes fits = record {
    final = set_block b (some (splice xs offset bytes)) s;
    run = memcpy_runs b s holds offset bytes fits;
    post = record {
      ready = record {
        table = ready.table;
        string_block = ready.string_block;
        string_holds = ground (arith, ready.string_holds);
        string_room = ready.string_room;
      };
      holds = ground arith;
      writes = rw append-nil;
      clock = omega arith;
      frame = record {
        blocks = λ q h k. ground arith;
        traces = refl;
        next = refl;
        trace = refl;
        socket = refl;
        buffer = refl;
        string_buffer = refl;
        offset = refl;
        local_hostname = refl;
        time_of_day = refl;
        write_errno = refl;
      };
    };
  }

  -- A number that is copied and whose size is returned.
  copied :
      (bytes : List ℕ) (n : ℕ)
      → n ≡ length bytes
      → offset + n ≤ length xs
      → Runs (memcpy b offset bytes >> pure n) s n (Wrote b (splice xs offset bytes) reg [] 0 s)
  copied bytes n e fits =
      let r = memcpy-Wrote bytes (omega arith) in
      record { final = r.final; run = rw (r.run, ◌>>=◌, ◌>>◌); post = r.post }

module _ {b : Ptr} {xs : List ℕ} {reg : Registry} {s : State} (ready : Ready reg s)
    (holds : s.heap.blocks b ≡ some xs) (apart : b ≢ s.controller.string_buffer) (offset : ℕ) where
  pub serialize_string-Wrote :
      (v : CString)
      → length v ≤ max_string
      → offset + 4 ≤ length xs
      → Runs (serialize_string b offset v) s 4 (
          Wrote b
            (splice xs offset (be_bytes 4 (number_of reg v)))
            (register reg v)
            (announcements s.controller.socket reg v)
            0
            s)
  unfolding serialize_string
  serialize_string-Wrote v ok fits =
      let found = find_key_by_string-Wrote v ready holds apart ok in
      let w = found.post in
      let key = number_of reg v in
      let r =
        copied w.ready w.holds (rw w.frame.string_buffer apart) offset (be_bytes 4 key) 4
          (sym (length-be_bytes_4 key)) fits in
      record {
        final = r.final;
        run = rw (found.run, ◌>>=◌) (rw le_bytes-htonl r.run);
        post = rw append-nil at (Wrote-trans w r.post);
      }

  -- Serializing one field writes its encoding at `offset`, registers a string and announces it if it
  -- is new, and returns the width.
  pub serialize_field-Wrote :
      (f : Field)
      → FitsField f
      → offset + width f ≤ length xs
      → Runs (serialize_field b offset f) s (width f) (
          Wrote b
            (splice xs offset (encode_field reg f))
            (register_field reg f)
            (announce_field s.controller.socket reg f)
            0
            s)
  unfolding serialize_field encode_field serialize_boolean serialize_int8 serialize_int16
      serialize_int32 serialize_int64 serialize_float serialize_double serialize_string
  serialize_field-Wrote (boolean v) ok fits =
      copied ready holds apart offset ((v % 256) ∷ []) 1 refl fits
  serialize_field-Wrote (int8 v) ok fits =
      copied ready holds apart offset ((v % 256) ∷ []) 1 refl fits
  serialize_field-Wrote (int16 v) ok fits =
      rw le_bytes-htons
        (copied ready holds apart offset (be_bytes 2 v) 2 (sym (length-be_bytes_2 v)) fits)
  serialize_field-Wrote (int32 v) ok fits =
      rw le_bytes-htonl
        (copied ready holds apart offset (be_bytes 4 v) 4 (sym (length-be_bytes_4 v)) fits)
  serialize_field-Wrote (int64 v) ok fits =
      rw le_bytes-bswap_64
        (copied ready holds apart offset (be_bytes 8 v) 8 (sym (length-be_bytes_8 v)) fits)
  serialize_field-Wrote (float v) ok fits =
      copied ready holds apart offset (le_bytes 4 v) 4 (unfold le_bytes in refl) fits
  serialize_field-Wrote (double v) (n, ok) fits =
      rw (ok, the, ◌>>=◌)
        (rw le_bytes-bswap_64
          (copied ready holds apart offset (be_bytes 8 n) 8 (sym (length-be_bytes_8 n)) fits))
  serialize_field-Wrote (text v) ok fits = serialize_string-Wrote v ok fits

-- Serializing fields one after another writes their encodings one after another.
pub serialize_fields-Wrote :
    (fs : List Field) {b : Ptr} {xs : List ℕ} {reg : Registry} {s : State} (offset : ℕ)
    → Ready reg s
    → s.heap.blocks b ≡ some xs
    → b ≢ s.controller.string_buffer
    → Fits fs
    → offset + size fs ≤ length xs
    → Runs (serialize_fields b offset fs) s (offset + size fs) (
        Wrote b
          (splice xs offset (encode reg fs))
          (register_fields reg fs)
          (announce_fields s.controller.socket reg fs)
          0
          s)
unfolding serialize_fields
serialize_fields-Wrote [] {xs} {s} offset ready holds apart ok fits = record {
  final = s;
  run = rw add-zero;
  post = rw splice-nil (Wrote-refl ready holds);
}
serialize_fields-Wrote (f ∷ fs) {b} {xs} {reg} {s} offset ready holds apart ok fits =
    let first = serialize_field-Wrote ready holds apart offset f ok.0 (omega arith) in
    let w = first.post in
    let rest =
      serialize_fields-Wrote fs (offset + width f) w.ready w.holds (rw w.frame.string_buffer apart)
        ok.1 (omega (arith, length-splice xs offset (encode_field reg f))) in
    let bytes = encode_field reg f in
    let one =
      splice-splice xs offset (offset + width f) bytes (encode (register_field reg f) fs)
        (omega (arith, length-encode_field reg f)) in
    let joined = rw w.frame.socket at (Wrote-trans w rest.post) in
    record {
      final = rest.final;
      run = rw (first.run, ◌>>=◌, ◌+=◌) (rest.run ∙ rw add_assoc);
      post = rw (← one) joined;
    }

-- ===== src/ProbeControlflow/Send.antt =====
-- What `kieker_probe_aspect_controlflow_send` sends.
use kieker_lang_pack_c.Common.{
  ℕ, ◌≤◌, List, [], ◌∷◌, ◌++◌, length, some, ◌≡◌, ◌≢◌, arith, splice, slice, ◌∙◌, sym, append_assoc,
}
use kieker_lang_pack_c.State.{Ptr, State}
use kieker_lang_pack_c.Exec.{◌>>=◌}
use kieker_lang_pack_c.Exec.Returns.{Runs}
use kieker_lang_pack_c.Registry.{Registry}
use kieker_lang_pack_c.Effect.{Ready, max_string}
use kieker_lang_pack_c.Fields.{encode, announce_fields}
use kieker_lang_pack_c.Fields.Serialized.{serialize_fields-Wrote}
use kieker_lang_pack_c.Records.Controlflow.{
  OperationExecutionRecord, operation_execution_record_fields,
  operation_execution_record_serialize-fields,
}
use kieker_lang_pack_c.Controller.Send.{send-Wrote}
use kieker_lang_pack_c.ProbeControlflow.{controlflow_send}

-- The control flow probe writes its record into the buffer that it is given, which is not the
-- controller's, and sends, after the announcements of new strings, the first 44 bytes that the
-- controller's buffer already had: the record itself is not sent. The names have at most 8180
-- bytes and both buffers at least 44.
pub controlflow_send-stale :
    (value : OperationExecutionRecord) (buffer : Ptr) {xs ys : List ℕ} {reg : Registry} {s : State}
    → Ready reg s
    → s.heap.blocks buffer ≡ some ys
    → s.heap.blocks s.controller.buffer ≡ some xs
    → buffer ≢ s.controller.buffer
    → buffer ≢ s.controller.string_buffer
    → s.controller.buffer ≢ s.controller.string_buffer
    → length value.operation_signature ≤ max_string
    → length value.session_id ≤ max_string
    → length value.hostname ≤ max_string
    → 44 ≤ length ys
    → 44 ≤ length xs
    → let fs = operation_execution_record_fields value in
      Runs (controlflow_send value buffer) s tt (λ s'.
        (s'.heap.blocks buffer ≡ some (splice ys 0 (encode reg fs)))
        × (s'.world.writes
            ≡ s.world.writes
              ++ (announce_fields s.controller.socket reg fs
                  ++ record { socket = s.controller.socket; bytes = slice xs 0 44 } ∷ [])))
unfolding controlflow_send
controlflow_send-stale value buffer {xs} {ys} {reg} {s} ready held holds other no_string apart
      fits_o fits_s fits_h room room' =
    let fs = operation_execution_record_fields value in
    let r1 =
      serialize_fields-Wrote fs 0 ready held no_string
        (fits_o, (fits_s, (tt, (tt, (tt, (fits_h, (tt, (tt, tt)))))))) (omega arith) in
    let w1 = r1.post in
    let kept : r1.final.heap.blocks s.controller.buffer ≡ some xs =
      w1.frame.blocks s.controller.buffer (λ e. other (sym e)) apart ∙ holds in
    let r2 =
      send-Wrote {socket = s.controller.socket} 44 w1.ready kept w1.frame.socket w1.frame.buffer
        (omega arith) in
    let w2 = r2.post in
    record {
      final = r2.final;
      run =
          rw (operation_execution_record_serialize-fields buffer 0 value)
            (rw (r1.run, ◌>>=◌) r2.run);
      post = (
        w2.frame.blocks buffer other (rw w1.frame.string_buffer no_string) ∙ w1.holds,
        w2.writes ∙ rw (w1.writes, append_assoc),
      );
    }

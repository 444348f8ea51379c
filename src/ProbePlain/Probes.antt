-- ===== src/ProbePlain/Probes.antt =====
-- What the probes do on a thread that has a trace.
use kieker_lang_pack_c.Common.{
  ℕ, ◌≤◌, ◌%◌, ◌^◌, List, length, some, ◌≡◌, ◌≢◌, splice, ◌==◌, if◌then◌else◌,
}
use kieker_lang_pack_c.Word.{CString}
use kieker_lang_pack_c.State.{Ptr, State, KiekerTrace}
use kieker_lang_pack_c.Exec.Returns.{Runs}
use kieker_lang_pack_c.Registry.{Registry}
use kieker_lang_pack_c.Effect.{Wrote, max_string, with_trace}
use kieker_lang_pack_c.Fields.{encode, register_fields}
use kieker_lang_pack_c.Trace.{UtHash}
use kieker_lang_pack_c.Trace.Laws.{removed, trace_get_known}
use kieker_lang_pack_c.ProbeEvents.Message.{time_at}
use kieker_lang_pack_c.ProbeEvents.Events.{after_message}
use kieker_lang_pack_c.ProbePlain.{left, after_operation_event}
use kieker_lang_pack_c.ProbePlain.At.{after_operation_event_at}
use kieker_lang_pack_c.ProbePlain.Sending.{Probing, sent}

module _ (ut : UtHash) (self : ℕ) {reg : Registry} {xs : List ℕ} {s : State}
    (probing : Probing reg xs s) (class_signature operation_signature : CString)
    (fits_class : length class_signature ≤ max_string)
    (fits_operation : length operation_signature ≤ max_string) where
  module _ {p : Ptr} {t : KiekerTrace} (known : ut.find s.trace.traces (self % 2 ^ 32) ≡ some p)
      (tracked : s.heap.traces p ≡ some t) where
    -- On a library that is set up, on a thread that has a trace with a buffer of its own, and
    -- with names of at most 8180 bytes, the probe after a call adds 1 to the order index of that
    -- trace and takes 1 from its depth, sends the announcements of new strings and one message
    -- with the record of the return, and then, exactly when the depth is 0, takes the trace from
    -- the table and frees it and its buffer.
    pub after_operation_event_known :
        (block : List ℕ)
        → s.heap.blocks t.buffer ≡ some block
        → t.buffer ≢ s.controller.buffer
        → t.buffer ≢ s.controller.string_buffer
        → let fs =
            after_message
              (time_at s 0)
              (time_at s 1)
              (left t)
              class_signature
              operation_signature in
          Runs (after_operation_event ut self class_signature operation_signature) s tt (λ s'.
            (u : State) × Wrote s.controller.buffer
              (splice xs 0 (encode reg fs))
              (register_fields reg fs)
              (sent s.controller.socket reg fs)
              2
              (with_trace p (left t) s)
              u
            × (s' ≡ (if (left t).stack == 0 then removed ut p (left t) u else u)))
    after_operation_event_known =
        after_operation_event_at ut self (trace_get_known ut self s known) probing tracked
          class_signature operation_signature fits_class fits_operation

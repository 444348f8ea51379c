-- ===== src/Examples/Aspect.antt =====
-- The theorems about the aspect probes in the first call of `main`, where one class is left out.
use kieker_lang_pack_c.Common.{
  ℕ, List, [], ◌∷◌, zero, suc, none, inl, some, ◌≡◌, refl, arith, Bool, true, false, if◌then◌else◌,
  ◌==◌, splice, ◌++◌,
}
use kieker_lang_pack_c.Word.{chars, minus_one}
use kieker_lang_pack_c.State.{State}
use kieker_lang_pack_c.Exec.Returns.{Runs}
use kieker_lang_pack_c.Effect.{Wrote, with_trace}
use kieker_lang_pack_c.Fields.{encode, register_fields}
use kieker_lang_pack_c.Exec.{◌>>=◌}
use kieker_lang_pack_c.Trace.Laws.{removed, new_trace}
use kieker_lang_pack_c.ProbeAspect.First.{aspect_first}
use kieker_lang_pack_c.ProbeAspect.Calls.{aspect_event_call-kept}
use kieker_lang_pack_c.Adaptive.{
  Sorting, AdaptiveState, adaptive_hash, hash_loop, is_class_excluded,
}
use kieker_lang_pack_c.Common.{length-replicate}
use kieker_lang_pack_c.Lookup.{c_string}
use kieker_lang_pack_c.Strings.{isspace, string_ltrim, string_rtrim, string_trim}
use kieker_lang_pack_c.Adaptive.{lines, load_exclude_file}
use kieker_lang_pack_c.Adaptive.Load.{load_exclude_file_overflow}
use kieker_lang_pack_c.ProbeEvents.Message.{time_at}
use kieker_lang_pack_c.ProbeEvents.Events.{before_message, after_message}
use kieker_lang_pack_c.ProbePlain.Sending.{sent}
use kieker_lang_pack_c.ProbeAspect.{
  deeper, shallower, counted, aspect_event_before_operation, aspect_event_after_operation,
}
use kieker_lang_pack_c.ProbeAspect.Events.{
  aspect_event_before_operation_known, aspect_event_after_operation_known,
}
use kieker_lang_pack_c.Examples.{
  find, uthash, zeros, node, start, start-Probing, in_main, in_main-Probing, main_trace,
  main_signature, pkg,
}

search : ℕ → List ℕ → Bool
search l [] = false
search l (h ∷ hashes) = let rest = search l hashes in if l == h then true else rest

-- Lists of one number or none are sorted as they are.
abbrev sorting : Sorting
sorting = record { qsort = λ hashes. hashes; bsearch = search }

-- "Log" alone is left out; the number is its hash.
abbrev left_out : AdaptiveState
left_out = record { function_hashes = 193463527 ∷ []; excludes_size = 1; mode = true }

log_hash : adaptive_hash (chars "Log") ≡ 193463527
unfolding adaptive_hash hash_loop
log_hash = refl

watched : is_class_excluded sorting left_out pkg ≡ false
unfolding is_class_excluded adaptive_hash hash_loop search
watched = refl

aspect_event_before_operation_known_example :
    let t' = counted (deeper main_trace) in
    let fs = before_message (time_at in_main 0) (time_at in_main 1) t' pkg main_signature in
    Runs (aspect_event_before_operation uthash sorting left_out 7 main_signature pkg) in_main 3 (
      Wrote 1
        (splice (zeros 8192) 0 (encode [] fs))
        (register_fields [] fs)
        (sent 5 [] fs)
        2
        (with_trace 3 t' (with_trace 3 (deeper main_trace) in_main)))
unfolding find
aspect_event_before_operation_known_example =
    aspect_event_before_operation_known uthash sorting left_out 7 in_main-Probing main_signature pkg
      (omega arith) (omega arith) {p = 3} {t = main_trace} refl refl (omega arith) watched

aspect_event_after_operation_known_example :
    let fs = after_message (time_at in_main 0) (time_at in_main 1) main_trace pkg main_signature in
    let t' = shallower (counted main_trace) in
    Runs
      (aspect_event_after_operation uthash sorting left_out 7 3 main_signature pkg)
      in_main
      tt
      (λ s'.
        (u : State) × Wrote 1
          (splice (zeros 8192) 0 (encode [] fs))
          (register_fields [] fs)
          (sent 5 [] fs)
          2
          (with_trace 3 (counted main_trace) in_main)
          u
        × (s' ≡ (
            if t'.stack == minus_one
            then removed uthash 3 t' (with_trace 3 t' u)
            else with_trace 3 t' u)))
aspect_event_after_operation_known_example =
    aspect_event_after_operation_known uthash sorting left_out 7 in_main-Probing main_signature pkg
      (omega arith) (omega arith) {p = 3} {t = main_trace} refl (zeros 1024) watched refl
      (omega arith) (omega arith)

abbrev empty_table : AdaptiveState
empty_table = record { function_hashes = zeros 200; excludes_size = 0; mode = false }

-- 201 classes for a table of 200.
abbrev class_lines : ℕ → List ℕ
class_lines zero = []
class_lines (suc n) = chars "Log\n" ++ class_lines n

abbrev exclude_file : List ℕ
exclude_file = chars "EXCLUDE\n" ++ class_lines 201

load_exclude_file_overflow_example :
    load_exclude_file sorting empty_table (some exclude_file) ≡ none
unfolding lines c_string string_trim string_ltrim string_rtrim isspace
load_exclude_file_overflow_example =
    load_exclude_file_overflow sorting empty_table (length-replicate {A = ℕ} 200 0) exclude_file
      {header = chars "EXCLUDE"} refl (inl refl) (omega arith)

aspect_event_call-kept_example :
    let fresh = new_trace 7 start in
    let begins = aspect_first start 7 node pkg main_signature in
    let ends =
      after_message
        (time_at start 3)
        (time_at start 4)
        (counted (deeper fresh))
        pkg
        main_signature in
    Runs
      (aspect_event_before_operation uthash sorting left_out 7 main_signature pkg >>= λ trace.
        aspect_event_after_operation uthash sorting left_out 7 trace main_signature pkg)
      start
      tt
      (λ s'.
        (s'.world.writes ≡ [] ++ (sent 5 [] begins ++ sent 5 (register_fields [] begins) ends))
        × (find s'.trace.traces 7 ≡ some 3)
        × (s'.heap.traces 3 ≡ some (record fresh { order_index = 1; stack = 0 })))
unfolding find
aspect_event_call-kept_example =
    aspect_event_call-kept uthash sorting left_out 7 start-Probing main_signature pkg node
      (omega arith) (omega arith) refl (omega arith) refl watched

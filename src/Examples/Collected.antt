-- ===== src/Examples/Collected.antt =====
-- The theorems about the collector, at a library that knows the three types of events.
use kieker_lang_pack_c.Common.{none, ◌∷◌, ◌+◌, List, [], ◌++◌, map, length, some, ◌≡◌, refl, arith}
use kieker_lang_pack_c.Word.{chars, str_eq}
use kieker_lang_pack_c.State.{State, Write}
use kieker_lang_pack_c.Exec.Returns.{Runs}
use kieker_lang_pack_c.Exec.{◌>>=◌}
use kieker_lang_pack_c.Registry.{Registry, register, index_from}
use kieker_lang_pack_c.Fields.{Field}
use kieker_lang_pack_c.Setup.{initialize}
use kieker_lang_pack_c.BasicExample.{main}
use kieker_lang_pack_c.Collector.Order.{order_of, run_calls-order}
use kieker_lang_pack_c.Collector.Process.{seen, expected, main-collected}
use kieker_lang_pack_c.Examples.Start.{process}
use kieker_lang_pack_c.Setup.Types.{event_types}
use kieker_lang_pack_c.ProbePlain.Sending.{Probing}
use kieker_lang_pack_c.ProbePlain.Log.{Calls, done, call, run_calls}
use kieker_lang_pack_c.Collector.{stream, read}
use kieker_lang_pack_c.Examples.{find, uthash, zeros, start, start-Ready, buffer_size, node, pkg}

abbrev registered : State
registered = record start {
  lookup = record { string_list = map some event_types; table_max = 3; table_top = 3 };
}

registered-Probing : Probing event_types (zeros 8192) registered
registered-Probing = record {
  ready = record {
    table = record { slack = []; slots = refl; top = refl; limit = refl };
    string_block = zeros 8192;
    string_holds = refl;
    string_room = buffer_size;
  };
  holds = refl;
  room = buffer_size;
  apart = omega arith;
  buffer_old = omega arith;
  string_buffer_old = omega arith;
}

-- `g`, called by `f`.
abbrev one_call : Calls
one_call = call pkg (chars "g") done done

run_calls-order_example :
    Runs (run_calls uthash 7 (call pkg (chars "f") one_call done)) registered tt (λ s'.
      (news : List Write) × (s'.world.writes ≡ [] ++ news)
      × (known : Registry) × (rs : List (List Field)) × (read
            (length news + 1)
            event_types
            (stream news)
          ≡ some (known, rs))
      × (map order_of rs ≡ none ∷ some 0 ∷ some 1 ∷ some 2 ∷ some 3 ∷ []))
unfolding find register index_from str_eq
run_calls-order_example =
    run_calls-order uthash 7 event_types registered pkg (chars "f") node one_call (omega arith)
      (record { metadata = refl; before_operation = refl; after_operation = refl }) (omega arith)
      (omega arith) (omega arith, omega arith, tt, tt) (omega arith) (omega arith)
      registered-Probing refl refl (omega arith)

main-collected_example :
    Runs (initialize (process (some 16777343)) >>= λ _. main uthash 7) start 0 (λ s'.
      (news : List Write) × (s'.world.writes ≡ [] ++ news)
      × (reg : Registry) × (rs : List (List Field)) × (read (length news + 1) [] (stream news)
          ≡ some (reg, rs))
      × (map seen rs ≡ expected))
main-collected_example =
    main-collected uthash (process (some 16777343)) 7 start refl start-Ready.table refl refl
      (omega arith) refl

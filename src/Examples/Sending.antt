-- ===== src/Examples/Sending.antt =====
-- The theorems about the file of strings, the variables of the environment and the control flow
-- records at concrete values.
use kieker_lang_pack_c.Common.{
  ℕ, ◌≤◌, List, [], ◌∷◌, ◌++◌, some, none, ◌≡◌, ◌⊎◌, refl, arith, splice, slice, length-replicate,
}
use kieker_lang_pack_c.Word.{CString, chars}
use kieker_lang_pack_c.Exec.Returns.{Runs}
use kieker_lang_pack_c.Fields.{encode, announce_fields}
use kieker_lang_pack_c.Records.Controlflow.{
  OperationExecutionRecord, operation_execution_record_fields,
}
use kieker_lang_pack_c.ProbeControlflow.{controlflow_send}
use kieker_lang_pack_c.ProbeControlflow.Send.{controlflow_send-stale}
use kieker_lang_pack_c.Setup.{Process, getenv_ushort}
use kieker_lang_pack_c.Setup.Variables.{getenv_ushort-bounds}
use kieker_lang_pack_c.Examples.{zeros, node, in_main, in_main-Probing, buffer_size}
use kieker_lang_pack_c.Examples.Start.{process}

abbrev strings_file : List ℕ
strings_file = chars "main\nfact"

-- A port that is no port.
abbrev with_port : Process
with_port = record (process none) {
  getenv = λ name. some (chars "70000");
  strtol = λ value. some 70000;
}

getenv_ushort-bounds_example :
    (1 ≤ getenv_ushort with_port (chars "KIEKER_REMOTE_PORT") 5678)
    × (getenv_ushort with_port (chars "KIEKER_REMOTE_PORT") 5678 ≤ 65535)
    × ((getenv_ushort with_port (chars "KIEKER_REMOTE_PORT") 5678 ≡ 5678)
        ⊎ ((value : CString) × (some (chars "70000") ≡ some value)
            × (some 70000 ≡ some (getenv_ushort with_port (chars "KIEKER_REMOTE_PORT") 5678))))
getenv_ushort-bounds_example =
    getenv_ushort-bounds with_port (chars "KIEKER_REMOTE_PORT") 5678 (omega arith) (omega arith)

abbrev execution : OperationExecutionRecord
execution = record {
  operation_signature = chars "main";
  session_id = chars "<no session>";
  trace_id = 256;
  tin = 1;
  tout = 2;
  hostname = node;
  eoi = 0;
  ess = 1;
}

controlflow_send-stale_example :
    let fs = operation_execution_record_fields execution in
    Runs (controlflow_send execution 4) in_main tt (λ s'.
      (s'.heap.blocks 4 ≡ some (splice (zeros 1024) 0 (encode [] fs)))
      × (s'.world.writes
          ≡ []
            ++ (announce_fields 5 [] fs
                ++ record { socket = 5; bytes = slice (zeros 8192) 0 44 } ∷ [])))
controlflow_send-stale_example =
    controlflow_send-stale execution 4 in_main-Probing.ready refl refl (omega arith) (omega arith)
      (omega arith) (omega arith) (omega arith) (omega arith)
      (omega (arith, length-replicate {A = ℕ} 1024 0)) (omega (arith, buffer_size))

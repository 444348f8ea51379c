-- ===== src/Examples/Session.antt =====
-- The theorems about whole traces at a program that runs in the library of Examples.antt.
use kieker_lang_pack_c.Common.{[], ◌≡◌, refl, arith}
use kieker_lang_pack_c.Word.{chars}
use kieker_lang_pack_c.Exec.{pure, ◌>>=◌}
use kieker_lang_pack_c.Exec.Returns.{Runs}
use kieker_lang_pack_c.ProbePlain.Log.{Calls, done, call, run_calls}
use kieker_lang_pack_c.ProbePlain.Root.{Ended}
use kieker_lang_pack_c.BasicExample.{basic_example, main_signature, fact, main}
use kieker_lang_pack_c.BasicExample.Runs.{fact_calls, factorial, fact-calls, main_session}
use kieker_lang_pack_c.Examples.{find, uthash, start, start-Probing, node, pkg}

-- `f` calls `g` twice.
abbrev two_calls : Calls
two_calls = call pkg (chars "g") done (call pkg (chars "g") done done)

fact-calls_example :
    fact uthash 7 3 ≡ (run_calls uthash 7 (fact_calls 3) >>= λ _. pure (factorial 3))
fact-calls_example = fact-calls uthash 7 3

main_session_example :
    Runs
      (main uthash 7)
      start
      0
      (Ended uthash 7 [] start basic_example main_signature node (fact_calls 10))
unfolding find
main_session_example = main_session uthash 7 [] start node start-Probing refl (omega arith) refl

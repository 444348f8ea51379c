-- ===== src/BasicExample/Runs.antt =====
-- The calls that the program of basic.c makes, and what its probes send.
use kieker_lang_pack_c.Common.{
  ℕ, zero, suc, ◌*◌, ◌%◌, ◌^◌, ◌≡◌, sym, ap, ◌∙◌, arith, length, ◌≤◌, List, none, some,
}
use kieker_lang_pack_c.Word.{CString}
use kieker_lang_pack_c.State.{State}
use kieker_lang_pack_c.Registry.{Registry}
use kieker_lang_pack_c.Effect.{max_string}
use kieker_lang_pack_c.ProbePlain.Sending.{Probing}
use kieker_lang_pack_c.ProbePlain.Root.{Ended, run_calls_session}
use kieker_lang_pack_c.Exec.{Exec, pure, ◌>>=◌, ◌>>◌}
use kieker_lang_pack_c.Exec.Returns.{Runs, >>=_assoc}
use kieker_lang_pack_c.Trace.{UtHash}
use kieker_lang_pack_c.ProbePlain.{before_operation_event, after_operation_event}
use kieker_lang_pack_c.ProbePlain.Log.{Calls, done, call, run_calls}
use kieker_lang_pack_c.BasicExample.{basic_example, main_signature, fact_signature, fact, main}

-- `fact n` and the calls inside it, and those of `main`.
abbrev pub fact_calls : ℕ → Calls
fact_calls zero = call basic_example fact_signature done done
fact_calls (suc n) = call basic_example fact_signature (fact_calls n) done

abbrev pub main_calls : Calls
main_calls = call basic_example main_signature (fact_calls 10) done

-- The factorial, modulo 2 ^ 64.
pub factorial : ℕ → ℕ
factorial zero = 1
factorial (suc n) = suc n * factorial n % 2 ^ 64

module _ (ut : UtHash) (self : ℕ) where
  -- Of calls in a row, the result is given after the last.
  regroup :
      (b m a : Exec (Unit {0})) (r : ℕ)
      → ((b >> (m >> (a >> pure tt))) >>= λ _. pure r) ≡ b >> (m >> (a >> pure r))
  regroup b m a r =
      >>=_assoc b (λ _. m >> (a >> pure tt)) (λ _. pure r)
      ∙ ap (λ (k : Exec ℕ). b >> k) (>>=_assoc m (λ _. a >> pure tt) (λ _. pure r))
      ∙ ap (λ (k : Exec ℕ). b >> (m >> k)) (>>=_assoc a (λ _. pure tt) (λ _. pure r))

  -- The instrumented `fact` on a number n is the run of the probes of n + 1 nested calls,
  -- followed by the factorial of n modulo 2^64 as its result: the probes do not change what the
  -- program computes.
  pub fact-calls :
      (n : ℕ) → fact ut self n ≡ (run_calls ut self (fact_calls n) >>= λ _. pure (factorial n))
  unfolding fact run_calls factorial
  fact-calls zero = sym (
      regroup (before_operation_event ut self basic_example fact_signature) (pure tt)
        (after_operation_event ut self basic_example fact_signature) 1)
  fact-calls (suc n) =
      let b = before_operation_event ut self basic_example fact_signature in
      let a = after_operation_event ut self basic_example fact_signature in
      let run = run_calls ut self (fact_calls n) in
      let rest = λ (r : ℕ). a >> pure (suc n * r % 2 ^ 64) in
      ap (λ (m : Exec ℕ). b >> (m >>= rest)) (fact-calls n)
      ∙ ap (λ (m : Exec ℕ). b >> m) (>>=_assoc run (λ _. pure (factorial n)) rest)
      ∙ sym (regroup b run a (suc n * factorial n % 2 ^ 64))

  -- The program runs the probes of its calls, and returns 0.
  pub main-calls : main ut self ≡ (run_calls ut self main_calls >>= λ _. pure 0)
  unfolding main run_calls
  main-calls =
      let b = before_operation_event ut self basic_example main_signature in
      let a = after_operation_event ut self basic_example main_signature in
      let run = run_calls ut self (fact_calls 10) in
      ap (λ (m : Exec ℕ). b >> (m >>= λ _. a >> pure 0)) (fact-calls 10)
      ∙ ap (λ (m : Exec ℕ). b >> m) (>>=_assoc run (λ _. pure (factorial 10)) (λ _. a >> pure 0))
      ∙ sym (regroup b run a 0)

module _ (ut : UtHash) (self : ℕ) (reg : Registry) (s : State) (hostname : CString) {xs : List ℕ}
    (probing : Probing reg xs s) (named : s.controller.local_hostname ≡ some hostname)
    (fits_hostname : length hostname ≤ max_string)
    (unknown : ut.find s.trace.traces (self % 2 ^ 32) ≡ none) where
  -- On a library that is set up, on a thread without a trace and with a host name of at most 8180
  -- bytes, the program of the basic example returns 0, having sent the records of `main` and of
  -- the 11 nested calls of `fact`, and its trace is freed and gone from the table.
  pub main_session :
      Runs
        (main ut self)
        s
        0
        (Ended ut self reg s basic_example main_signature hostname (fact_calls 10))
  main_session =
      let r =
        run_calls_session ut self reg s basic_example main_signature hostname (fact_calls 10)
          probing (omega arith) (omega arith) (omega arith) named fits_hostname unknown
          (omega arith) (omega arith) in
      record { final = r.final; run = rw (main-calls ut self) (rw (r.run, ◌>>=◌)); post = r.post }

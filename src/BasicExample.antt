-- ===== src/BasicExample.antt =====
-- examples/basic-example/basic.c: a program with plain probes in its functions, without what it
-- prints. A `long long` is its 64-bit pattern.
pub mod Runs
use kieker_lang_pack_c.Common.{ℕ, zero, suc, ◌*◌, ◌%◌, ◌^◌}
use kieker_lang_pack_c.Word.{CString, chars}
use kieker_lang_pack_c.Exec.{Exec, pure, ◌>>=◌, ◌>>◌}
use kieker_lang_pack_c.Trace.{UtHash}
use kieker_lang_pack_c.ProbePlain.{before_operation_event, after_operation_event}

abbrev pub basic_example : CString
basic_example = chars "examples.basic-example"

abbrev pub main_signature : CString
main_signature = chars "int main (int argc, char** argv)"

abbrev pub fact_signature : CString
fact_signature = chars "long long fact(long long n)"

module _ (ut : UtHash) (self : ℕ) where
  unfoldable pub fact : ℕ → Exec ℕ
  fact zero = do
    before_operation_event ut self basic_example fact_signature
    let result : ℕ = 1
    after_operation_event ut self basic_example fact_signature
    pure result
  fact (suc n) = do
    before_operation_event ut self basic_example fact_signature
    rest ← fact n
    let result = suc n * rest % 2 ^ 64
    after_operation_event ut self basic_example fact_signature
    pure result

  unfoldable pub main : Exec ℕ
  main = do
    before_operation_event ut self basic_example main_signature
    let n : ℕ = 10
    result ← fact n
    after_operation_event ut self basic_example main_signature
    pure 0

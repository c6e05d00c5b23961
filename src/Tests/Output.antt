-- ===== src/Tests/Output.antt =====
-- The output: runs over `sample_writer`, and the theorems at concrete paths.
use bc_seek.Base.{
  ℕ, ◌≡◌, ◌+◌, ◌%◌, ◌^◌, ◌++◌, refl, Bool, true, false, Option, some, [], ◌∷◌, Bytes, codes, take,
  ℤ, pos, arith,
}
use bc_seek.Output.{output_emit, output_open_file, Output}
use bc_seek.Output.Written.{printed, output_emit-written}
use bc_seek.Output.Records.{emit_all, read_records, read_records-emit_all}
use bc_seek.Output.Close.{closed_in_all, output_open_file-closed_in_all}
use bc_seek.Tests.Samples.{
  sample_writer as writer, sample_writer-IsLawful as lawful, sample_output as output,
}

abbrev after_one : Output writer
after_one = record output { writer = codes "a\n"; emitted_count = 1 }

abbrev after_two : Output writer
after_two = record output { writer = codes "a\nb/c\n"; emitted_count = 2 }

one : output_emit writer output (codes "a") 1 ≡ (true, after_one)
unfolding output_emit
one = refl

two : emit_all writer lawful output (codes "a" ∷ codes "b/c" ∷ []) ≡ (true, after_two)
unfolding emit_all output_emit
two = refl

abbrev open_five : Bytes → Option ℕ
open_five path = some 5

abbrev never_closes : ℤ → Bool
never_closes fd = false

output_emit-written_example :
    (lawful.written after_one.writer
      ≡ lawful.written output.writer ++ printed output.separator (take 1 (codes "a")))
    × (after_one.emitted_count ≡ (output.emitted_count + 1) % 2 ^ 64)
    × (after_one.separator ≡ output.separator)
    × (after_one.fd ≡ output.fd)
output_emit-written_example = output_emit-written writer lawful output after_one (codes "a") 1 one

read_records-emit_all_example :
    read_records output.separator [] (lawful.written after_two.writer)
    ≡ codes "a" ∷ codes "b/c" ∷ []
read_records-emit_all_example =
    read_records-emit_all writer lawful (codes "a" ∷ codes "b/c" ∷ []) output after_two refl
      (omega arith) two

output_open_file-closed_in_all_example :
    closed_in_all writer never_closes (output_open_file writer open_five (codes "out") false output)
    ≡ pos 5 ∷ []
output_open_file-closed_in_all_example =
    output_open_file-closed_in_all writer never_closes open_five (codes "out") false output 5 refl

-- ===== src/Source/Tests.antt =====
-- Runs of the model of git sources, and the theorem at one source.
use terraform_ls_rs.Base.{◌++◌, ◌≡◌, refl, some, Bytes, codes, before, starts_with}
use terraform_ls_rs.Source.RefValue.{
  find, query_value, fragment_value, value_at, ref_value_with_span, extract_ref, ref_value_span,
}
use terraform_ls_rs.Source.Span.{Cuts, ref_value_with_span-Cuts}
use terraform_ls_rs.Source.Query.{extract_ref-query}

program : Unit {0}
unfolding find query_value fragment_value value_at ref_value_with_span extract_ref ref_value_span
    starts_with
program = tt

abbrev fragment : Bytes
fragment = codes "git::a/b.git#v1"

fragment_span : ref_value_span fragment ≡ some (13, 15)
unfolding program
fragment_span = refl

second_parameter : extract_ref (codes "a?depth=1&ref=v1.0&x") ≡ some (codes "v1.0")
unfolding program
second_parameter = refl

ref_value_with_span-Cuts_example : Cuts fragment (ref_value_with_span fragment)
ref_value_with_span-Cuts_example = ref_value_with_span-Cuts fragment

extract_ref-query_example :
    extract_ref (codes "git::a/b" ++ (codes "?ref=" ++ codes "v1.0&depth=1"))
    ≡ some (before b'&' (codes "v1.0&depth=1"))
extract_ref-query_example = extract_ref-query (codes "git::a/b") (codes "v1.0&depth=1") refl

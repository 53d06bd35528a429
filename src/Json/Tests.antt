-- ===== src/Json/Tests.antt =====
-- Runs of the conversion of JSON, and its theorems at two documents.
use terraform_ls_rs.Base.{
  true, some, List, [], ◌∷◌, ◌++◌, ◌≡◌, ◌↔◌, refl, map, Result, ok, Bytes, bytes_eq, codes, arith,
}
use terraform_ls_rs.Json.Value.{
  Value, Members, null, bool, number, string, array, object, end_array, element, end_object, member,
}
use terraform_ls_rs.Json.Write.{
  done, indent_push, escape, escape_string, write_value, write_attr, push_labels, write_block,
}
use terraform_ls_rs.Json.Document.{
  write_named, write_labeled, write_attrs, write_top_level, convert, ParsedFile, parse_root,
  parse_value, parse_json_source,
}
use terraform_ls_rs.Json.Read.{read_value, has_template}
use terraform_ls_rs.Json.Literal.{IsLiteral, size}
use terraform_ls_rs.Json.RoundTrip.{write_value-read_value}
use terraform_ls_rs.Json.Conform.{IsConforming, AreBlocks}
use terraform_ls_rs.Json.Errors.{parse_json_source-AreBlocks}
use terraform_ls_rs.Json.Leaves.{document_text, parse_json_source-document_text}

program : Unit {0}
unfolding indent_push escape escape_string write_value write_attr push_labels write_block
    write_named write_labeled write_attrs write_top_level convert parse_root parse_value
    parse_json_source bytes_eq
program = tt

-- {"n": [1.5, true], "a \"b\"": {"c": null}}
abbrev sample : Value
sample = object (
    member (codes "n") (array (element (number (codes "1.5")) (element (bool true) end_array)))
      (member (codes "a \"b\"") (object (member (codes "c") null end_object)) end_object))

sample_text :
    write_value [] sample 0
    ≡ done (codes "{\n  \"n\" = [1.5, true]\n  \"a \\\"b\\\"\" = {\n    \"c\" = null\n  }\n}")
unfolding program
sample_text = refl

-- The quotes inside an interpolation are escaped as well.
interpolated_text : escape_string (codes "${f(\"x\")}") ≡ codes "${f(\\\"x\\\")}"
unfolding program
interpolated_text = refl

-- {"resource": {"t": {"n": {"a": 1, "b": [{"c": 2}]}}}, "locals": {"x": "y"}}
abbrev document : Members
document =
    member (codes "resource")
      (object (
        member (codes "t")
          (object (
            member (codes "n")
              (object (
                member (codes "a") (number (codes "1")) (
                  member (codes "b")
                    (array (
                      element (object (member (codes "c") (number (codes "2")) end_object))
                        end_array))
                    end_object)))
              end_object))
          end_object))
      (member (codes "locals") (object (member (codes "x") (string (codes "y")) end_object))
        end_object)

document_converted : convert [] document ≡ (
  codes "resource \"t\" \"n\" {\n  a = 1\n  b {\n    c = 2\n  }\n}\nlocals {\n  x = \"y\"\n}\n",
  [],
)
unfolding program
document_converted = refl

-- `moved` has no label in the JSON syntax of Terraform, and is taken to have one. What follows it is
-- converted.
abbrev moved : Members
moved =
    member (codes "moved")
      (object (
        member (codes "from") (string (codes "a"))
          (member (codes "to") (string (codes "b")) end_object)))
      (member (codes "x") null (member (codes "terraform") (object end_object) end_object))

moved_converted : convert [] moved ≡ (
  codes "terraform {\n}\n",
  codes "`moved` body must be an object" ∷ codes "unknown top-level key `x` in `.tf.json`" ∷ [],
)
unfolding program
moved_converted = refl

-- A parser of JSON that knows one source, and a parser of HCL that returns its text.
abbrev from_str : Members → Bytes → Result Value Bytes
from_str root source = ok (object root)

abbrev parse_source : Bytes → ParsedFile Bytes Bytes
parse_source text = record { body = some text; errors = [] }

sample-IsLiteral : IsLiteral sample
unfolding IsLiteral has_template
sample-IsLiteral = (refl, ((refl, refl), (tt, tt)), (refl, (refl, tt, tt), tt))

write_value-read_value_example :
    (text : Bytes) × (write_value (codes "x = ") sample 0 ≡ done (codes "x = " ++ text))
    × (read_value 20 (text ++ codes "\n") ≡ some (sample, codes "\n"))
write_value-read_value_example =
    write_value-read_value (codes "x = ") sample 0 20 (codes "\n") sample-IsLiteral refl
      (unfold size in omega arith)

parse_json_source-AreBlocks_example :
    (text : Bytes) × (messages : List Bytes) × (parse_json_source
        (λ m. m)
        (from_str moved)
        parse_source
        (codes "moved")
      ≡ record {
        body = (parse_source text).body;
        errors = map (λ m. m) messages ++ (parse_source text).errors;
      })
    × AreBlocks text
    × ((messages ≡ []) ↔ IsConforming moved)
parse_json_source-AreBlocks_example =
    parse_json_source-AreBlocks (λ m. m) (from_str moved) parse_source (codes "moved") moved refl

document-IsConforming : IsConforming document
unfolding bytes_eq
document-IsConforming = (refl, ((tt, tt), tt), (refl, tt, tt))

parse_json_source-document_text_example :
    parse_json_source (λ m. m) (from_str document) parse_source (codes "document")
    ≡ parse_source (document_text document)
parse_json_source-document_text_example =
    parse_json_source-document_text (λ m. m) (from_str document) parse_source (codes "document")
      document refl document-IsConforming

-- ===== src/Json/Errors.antt =====
-- What `parse_json_source`, crates/tfls-parser/src/json.rs, hands to the parser of HCL, and when it
-- reports an error.
use terraform_ls_rs.Base.{
  List, [], ◌++◌, ◌≡◌, ◌↔◌, refl, map, Result, ok, Bytes, bytes_eq, any, Bool-cases, inl, inr,
  arith,
}
use terraform_ls_rs.Json.Value.{Value, Members, object, end_object, member}
use terraform_ls_rs.Json.Write.{Written, done, failed}
use terraform_ls_rs.Json.Document.{
  top_level_keys, write_top_level, text_of, messages_of, convert, ParsedFile, parse_json_source,
}
use terraform_ls_rs.Json.Conform.{IsNested, label_count, IsConforming, AreBlocks, nothing}
use terraform_ls_rs.Json.Blocks.{Meets, write_top_level-Meets}

-- The text is made of blocks, and there is no message exactly when `P` holds.
abbrev Tells : Type 0 → Bytes × List Bytes → Type 0
Tells P r = AreBlocks r.0 × ((r.1 ≡ []) ↔ P)

Tells-written :
    (P Q : Type 0) (w : Written) (rest : Bytes × List Bytes)
    → Meets P w
    → (AreBlocks (text_of w) → Tells Q rest)
    → Tells (P × Q) (rest.0, messages_of w ++ rest.1)
Tells-written P Q (done out) rest h k =
    let (blocks, (f, g)) = k h.0 in (blocks, (λ e. (h.1, f e), λ pq. g pq.1))
Tells-written P Q (failed out message) rest h k =
    let (blocks, (f, g)) = k h.0 in (blocks, (λ e. absurd (ground arith), λ pq. absurd (h.1 pq.0)))

convert-Tells :
    (hcl : Bytes) (root : Members) → AreBlocks hcl → Tells (IsConforming root) (convert hcl root)
unfolding convert
convert-Tells hcl end_object h = (h, (λ e. tt, λ c. refl))
convert-Tells hcl (member key v members) h = elim (Bool-cases (any (bytes_eq key) top_level_keys)) [
  | inl known ↦
      let written = write_top_level hcl key v in
      let (blocks, (f, g)) =
        Tells-written (IsNested (label_count key) v) (IsConforming members) written
          (convert (text_of written) members) (write_top_level-Meets hcl key v known h)
          (λ b. convert-Tells (text_of written) members b) in
      rw known (blocks, (λ e. (refl, (f e).0, (f e).1), λ c. g (c.1, c.2)))
  | inr other ↦
      let (blocks, (f, g)) = convert-Tells hcl members h in
      rw other (blocks, (λ e. absurd (ground arith), λ c. absurd (ground (arith, c.0))))
]

-- When the source is a JSON object, whatever else stands in it: the text that is handed to the parser
-- of HCL consists of whole blocks, the body is the parser's, and the errors are messages of the
-- conversion followed by the parser's. There is no message exactly when every key is known and has
-- objects under it to the depth of its labels.
pub parse_json_source-AreBlocks :
    {Body Error : Type 0} (json : Bytes → Error) (from_str : Bytes → Result Value Bytes)
    (parse_source : Bytes → ParsedFile Body Error) (source : Bytes) (root : Members)
    → from_str source ≡ ok (object root)
    → (text : Bytes) × (messages : List Bytes) × (parse_json_source json from_str parse_source
          source
        ≡ record {
          body = (parse_source text).body;
          errors = map json messages ++ (parse_source text).errors;
        })
      × AreBlocks text
      × ((messages ≡ []) ↔ IsConforming root)
unfolding parse_json_source
parse_json_source-AreBlocks json from_str parse_source source root e =
    let (blocks, reports) = convert-Tells [] root nothing in
    ((convert [] root).0, (convert [] root).1, rw e refl, blocks, reports)

-- ===== src/Json/Conform.antt =====
-- The documents that crates/tfls-parser/src/json.rs converts without an error, and what it writes.
use terraform_ls_rs.Base.{
  ◌∷◌, ℕ, zero, suc, true, ◌||◌, List, [], ◌++◌, ◌≡◌, if◌then◌else◌, Bytes, bytes_eq, codes, any,
}
use terraform_ls_rs.Json.Value.{Value, Members, object, end_object, member}
use terraform_ls_rs.Json.Text.{attr_text, block_text}

abbrev pub AllMembers : (Value → Type 0) → Members → Type 0
AllMembers P end_object = Unit
AllMembers P (member key v members) = P v × AllMembers P members

-- An object, of objects, to a depth.
abbrev pub IsNested : ℕ → Value → Type 0
IsNested zero (object members) = Unit
IsNested (suc n) (object members) = AllMembers (IsNested n) members
IsNested n _ = ⊥

-- The kinds of block that have a type and a name, and all the kinds.
abbrev pub kinds_with_type : List Bytes
kinds_with_type = codes "resource" ∷ codes "data" ∷ []

abbrev pub kinds : List Bytes
kinds =
    codes "terraform"
    ∷ codes "resource"
    ∷ codes "data"
    ∷ codes "variable"
    ∷ codes "output"
    ∷ codes "locals"
    ∷ codes "module"
    ∷ codes "provider"
    ∷ codes "moved"
    ∷ codes "check"
    ∷ codes "import"
    ∷ codes "removed"
    ∷ []

-- The number of the labels of a kind of block after the first.
abbrev pub more_labels : Bytes → ℕ
more_labels ident = if any (bytes_eq ident) kinds_with_type then 1 else 0

-- How deep the objects stand under a key of the document.
abbrev pub label_count : Bytes → ℕ
label_count key =
    if bytes_eq key (codes "terraform") || bytes_eq key (codes "locals")
    then 0
    else suc (more_labels key)

-- Every key is known, and has an object under it for each label and for the body.
abbrev pub IsConforming : Members → Type 0
IsConforming end_object = Unit
IsConforming (member key v members) =
    (any (bytes_eq key) kinds ≡ true) × IsNested (label_count key) v × IsConforming members

unfoldable pub attrs_text : Members → Bytes
attrs_text end_object = []
attrs_text (member name v members) = attr_text name v 1 ++ attrs_text members

abbrev pub locals_text : Members → Bytes
locals_text members = codes "locals {\n" ++ (attrs_text members ++ codes "}\n")

-- Blocks, one after another.
pub data AreBlocks : Bytes → Type 0 where
  nothing : AreBlocks []
  block :
      {text : Bytes}
      → AreBlocks text
      → (ident : Bytes) (labels : List Bytes) (body : Members)
      → AreBlocks (text ++ block_text ident labels body 0)
  locals :
      {text : Bytes}
      → AreBlocks text
      → (members : Members) → AreBlocks (text ++ locals_text members)

-- ===== src/Tokens/Decode.antt =====
-- What an editor reads from the tokens of crates/tfls-lsp/src/handlers/semantic_tokens.rs.
use terraform_ls_rs.Base.{
  ℕ, ◌+◌, ◌≤◌, ◌<◌, ◌⊎◌, inl, inr, List, [], ◌∷◌, ◌≡◌, refl, ap, ◌∙◌, ◌==◌, if◌then◌else◌,
  Bool-cases, arith,
}
use terraform_ls_rs.Base.Order.{is_lt}
use terraform_ls_rs.Symbols.{Symbol, Reference}
use terraform_ls_rs.Tokens.Encode.{
  RawToken, SemanticToken, cmp_token, insert_token, sort_tokens, delta, encode_delta_from,
  encode_delta, raw_tokens, encode_tokens,
}

-- A line of a token is relative to the token before it, and so is its start on the same line.
unfoldable pub decode_one : ℕ → ℕ → SemanticToken → RawToken
decode_one line character t = record {
  line = line + t.delta_line;
  character = if t.delta_line == 0 then character + t.delta_start else t.delta_start;
  length = t.length;
  type_id = t.token_type;
  modifiers = t.token_modifiers_bitset;
}

unfoldable pub decode_from : ℕ → ℕ → List SemanticToken → List RawToken
unfolding decode_one
decode_from line character [] = []
decode_from line character (t ∷ ts) =
    let u = decode_one line character t in u ∷ decode_from u.line u.character ts

unfoldable pub decode : List SemanticToken → List RawToken
unfolding decode_from
decode ts = decode_from 0 0 ts

-- The token does not begin before the position.
abbrev From : ℕ → ℕ → RawToken → Type 0
From line character t = (line < t.line) ⊎ ((line ≡ t.line) × (character ≤ t.character))

abbrev Ordered : ℕ → ℕ → List RawToken → Type 0
Ordered line character [] = Unit
Ordered line character (t ∷ ts) = From line character t × Ordered t.line t.character ts

decode_one-delta :
    (line character : ℕ) (t : RawToken)
    → From line character t
    → decode_one line character (delta line character t) ≡ t
unfolding decode_one delta
decode_one-delta line character t h = ground arith

decode_from-encode :
    (line character : ℕ) (ts : List RawToken)
    → Ordered line character ts
    → decode_from line character (encode_delta_from line character ts) ≡ ts
unfolding decode_from encode_delta_from
decode_from-encode line character [] h = refl
decode_from-encode line character (t ∷ ts) h =
    ap
      (λ (u : RawToken).
        u ∷ decode_from u.line u.character (encode_delta_from t.line t.character ts))
      (decode_one-delta line character t h.0)
    ∙ ap (λ (us : List RawToken). t ∷ us) (decode_from-encode t.line t.character ts h.1)

insert_token-Ordered :
    (line character : ℕ) (x : RawToken) (xs : List RawToken)
    → From line character x
    → Ordered line character xs
    → Ordered line character (insert_token x xs)
unfolding insert_token
insert_token-Ordered line character x [] hx h = (hx, tt)
insert_token-Ordered line character x (y ∷ ys) hx h = elim (Bool-cases (is_lt (cmp_token y x))) [
  | inl less ↦
      rw less
        (h.0, insert_token-Ordered y.line y.character x ys (unfold cmp_token in ground arith) h.1)
  | inr more ↦ rw more (hx, (unfold cmp_token in ground arith, h.1))
]

sort_tokens-Ordered : (xs : List RawToken) → Ordered 0 0 (sort_tokens xs)
unfolding sort_tokens
sort_tokens-Ordered [] = tt
sort_tokens-Ordered (x ∷ xs) =
    insert_token-Ordered 0 0 x (sort_tokens xs) (ground arith) (sort_tokens-Ordered xs)

-- An editor that decodes the tokens of a document reads the tokens of its symbols and references,
-- sorted by line and character, each with its line, character, length and type.
pub decode-encode_tokens :
    (symbols : List Symbol) (references : List Reference)
    → decode (encode_tokens symbols references) ≡ sort_tokens (raw_tokens symbols references)
unfolding decode encode_tokens encode_delta
decode-encode_tokens symbols references =
    decode_from-encode 0 0 (sort_tokens (raw_tokens symbols references))
      (sort_tokens-Ordered (raw_tokens symbols references))

-- ===== src/Tokens/Tests.antt =====
-- Runs of the token model, and the theorem at a small document.
use terraform_ls_rs.Symbols.{SymbolLocation, Symbol, SymbolKind, Reference, ReferenceKind, range_of}
use terraform_ls_rs.Base.{ℕ, none, List, [], ◌∷◌, ◌≡◌, refl, codes}
use terraform_ls_rs.Tokens.Encode.{
  encode_tokens, sort_tokens, raw_tokens, push_label_token, label_tokens, reference_width,
  from_range, reference_token, cmp_token, insert_token, delta, encode_delta_from, encode_delta,
}
use terraform_ls_rs.Tokens.Decode.{decode, decode-encode_tokens}

abbrev at_line : ℕ → ℕ → ℕ → SymbolLocation
at_line line from to = record {
  uri = codes "file:///main.tf";
  start_line = line;
  start_character = from;
  end_line = line;
  end_character = to;
}

abbrev named : SymbolKind → SymbolLocation → Symbol
named kind loc = record {
  name = codes "name";
  kind = kind;
  location = loc;
  name_range = range_of loc;
  detail = none;
  doc = none;
}

abbrev symbols : List Symbol
symbols =
    named SymbolKind.variable (at_line 2 10 14) ∷ named SymbolKind.resource (at_line 5 1 4) ∷ []

abbrev references : List Reference
references =
    record { kind = ReferenceKind.variable (codes "name"); location = at_line 2 20 28 } ∷ []

program : Unit {0}
unfolding encode_tokens sort_tokens push_label_token label_tokens reference_width from_range
    reference_token cmp_token insert_token encode_delta_from delta encode_delta
program = tt

encoded :
    encode_tokens symbols references
    ≡ record {
      delta_line = 2;
      delta_start = 10;
      length = 4;
      token_type = 2;
      token_modifiers_bitset = 0;
    }
      ∷ record {
        delta_line = 0;
        delta_start = 10;
        length = 8;
        token_type = 2;
        token_modifiers_bitset = 0;
      }
      ∷ record {
        delta_line = 3;
        delta_start = 1;
        length = 3;
        token_type = 1;
        token_modifiers_bitset = 0;
      }
      ∷ []
unfolding program
encoded = refl

decode-encode_tokens_example :
    decode (encode_tokens symbols references) ≡ sort_tokens (raw_tokens symbols references)
decode-encode_tokens_example = decode-encode_tokens symbols references

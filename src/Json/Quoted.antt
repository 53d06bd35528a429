-- ===== src/Json/Quoted.antt =====
-- The quoted texts that crates/tfls-parser/src/json.rs writes are read back.
use terraform_ls_rs.Base.{
  ℕ, false, some, [], ◌∷◌, ◌++◌, ◌≡◌, refl, sym, ap, ◌∙◌, ◌==◌, Bytes, arith, inl, inr, ◌⊎◌,
  ℕ_discrete,
}
use terraform_ls_rs.Json.Write.{escape, escape_string}
use terraform_ls_rs.Json.Read.{read_quoted, starts_brace, has_template, unescape}

-- A character is written as it is, if it may stand in a quoted text, or as an escape of it.
pub escape-cases :
    (c : ℕ)
    → ((escape c ≡ c ∷ [])
        × ((c == b'\\') ≡ false)
        × ((c == b'"') ≡ false)
        × ((c == b'\n') ≡ false))
      ⊎ ((e : ℕ) × (escape c ≡ 92 ∷ e ∷ []) × (unescape e ≡ some c) × ((c == b'{') ≡ false))
unfolding escape
escape-cases c = elim (ℕ_discrete c 92) [
  | yes e ↦ rw e (inr (92, refl, refl, refl))
  | no n1 ↦ elim (ℕ_discrete c 34) [
    | yes e ↦ rw e (inr (34, refl, refl, refl))
    | no n2 ↦ elim (ℕ_discrete c 10) [
      | yes e ↦ rw e (inr (110, refl, refl, refl))
      | no n3 ↦ elim (ℕ_discrete c 13) [
        | yes e ↦ rw e (inr (114, refl, refl, refl))
        | no n4 ↦ elim (ℕ_discrete c 9) [
          | yes e ↦ rw e (inr (116, refl, refl, refl))
          | no n5 ↦ inl (ground arith, ground arith, ground arith, ground arith)
        ]
      ]
    ]
  ]
]

-- The escaped text and the quote after it begin with a brace exactly when the text does.
pub begins :
    (s rest : Bytes)
    → (d : ℕ) × (t : Bytes) × (escape_string s ++ (34 ∷ rest) ≡ d ∷ t)
      × ((d == b'{') ≡ starts_brace s)
unfolding escape_string
begins [] rest = (34, rest, refl, refl)
begins (c ∷ s) rest = elim (escape-cases c) [
  | inl h ↦ (c, escape_string s ++ (34 ∷ rest), rw h.0 refl, refl)
  | inr (e, h, k, l) ↦ (92, e ∷ (escape_string s ++ (34 ∷ rest)), rw h refl, sym l)
]

pub escape_string-cons : (c : ℕ) (s : Bytes) → escape_string (c ∷ s) ≡ escape c ++ escape_string s
unfolding escape_string
escape_string-cons c s = refl

-- A text that begins no template is read back from its quotes.
pub read_quoted-escape_string :
    (s rest : Bytes)
    → has_template s ≡ false
    → read_quoted (escape_string s ++ (34 ∷ rest)) ≡ some (s, rest)
unfolding read_quoted has_template
read_quoted-escape_string [] [] h = unfold escape_string in refl
read_quoted-escape_string [] (c ∷ rest) h = unfold escape_string in refl
read_quoted-escape_string (c ∷ s) rest h =
    let ih : read_quoted (escape_string s ++ (34 ∷ rest)) ≡ some (s, rest) =
      read_quoted-escape_string s rest (ground arith) in
    rw (escape_string-cons c s) (elim (escape-cases c) [
      | inl (e, a, b, n) ↦
          let (d, t, f, g) = begins s rest in
          let whole : read_quoted (d ∷ t) ≡ some (s, rest) = ap read_quoted (sym f) ∙ ih in
          rw e (rw f (ground arith))
      | inr (e, f, k, l) ↦ rw f (ground arith)
    ])

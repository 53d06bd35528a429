-- ===== src/Keys/Spans.antt =====
-- Where the keys lie that `extract_top_level_keys` of crates/tfls-diag/src/map_duplicate_keys.rs
-- finds.
use terraform_ls_rs.Base.{
  ℕ, ◌+◌, ◌≤◌, Bool, true, not, ◌&&◌, Option, none, some, [], ◌∷◌, ◌≡◌, refl, ◌==◌, Bytes, length,
  take, drop, count_while, arith, Bool-cases, ◌⊎◌, ◌||◌, inl, inr, starts_with,
}
use terraform_ls_rs.Base.Int.{ℤ, eq_ℤ, pred}
use terraform_ls_rs.Keys.Quoted.{read_string}
use terraform_ls_rs.Keys.Heredoc.{is_ident_continue, skip_heredoc}
use terraform_ls_rs.Keys.Extract.{
  Turn, step, key, stop, comment_body, possible_key, quoted_key, quoted_value, heredoc_value,
  word_turn, comment_turn, turn, is_ident_start,
}
use terraform_ls_rs.Keys.Ends.{length-drop, count_while-le, Within, read_string-Within}
use terraform_ls_rs.Keys.Turns.{Between, skip_heredoc-Between}
use terraform_ls_rs.Keys.Extract.{is_gap, follows_key}

-- A text that begins with a quote, or with the name.
abbrev pub Spelled : Bytes → Bytes → ℕ → Type 0
Spelled s name len = (starts_with s (b'"' ∷ []) ≡ true) ⊎ (name ≡ take len s)

abbrev pub Goes : Bytes → Turn → Type 0
Goes s (step n depth at_key) = (1 ≤ n) × (n ≤ length s)
Goes s (key n depth name len) = (1 ≤ len) × (len ≤ n) × (n ≤ length s) × Spelled s name len
Goes s stop = Unit

Goes-possible_key :
    (depth : ℤ) (name : Bytes) (n : ℕ) (s : Bytes)
    → 1 ≤ n
    → n ≤ length s
    → Spelled s name n
    → Goes s (possible_key depth name n s)
unfolding possible_key
Goes-possible_key depth name n s low high spelled =
    let j = n + count_while is_gap (drop n s) in
    let within : j ≤ length s = omega (arith, count_while-le is_gap (drop n s), length-drop n s) in
    elim (Bool-cases (follows_key (drop j s))) [
      | inl found ↦ rw found (low, omega arith, within, spelled)
      | inr none_ ↦ rw none_ (omega arith, within)
    ]

Goes-quoted_key :
    (depth : ℤ) (s : Bytes) (o : Option (ℕ × Bytes))
    → starts_with s (b'"' ∷ []) ≡ true
    → Within (length s) o
    → Goes s (quoted_key depth s o)
unfolding quoted_key
Goes-quoted_key depth s none q h = tt
Goes-quoted_key depth s (some (n, content)) q h =
    Goes-possible_key depth content n s h.0 h.1 (inl q)

Goes-quoted_value :
    (depth : ℤ) (at_key : Bool) (s : Bytes) (o : Option (ℕ × Bytes))
    → Within (length s) o
    → Goes s (quoted_value depth at_key o)
unfolding quoted_value
Goes-quoted_value depth at_key s none h = tt
Goes-quoted_value depth at_key s (some (n, content)) h = h

Goes-heredoc_value :
    (depth : ℤ) (s : Bytes) (o : Option ℕ)
    → 1 ≤ length s
    → Between 1 (length s) o
    → Goes s (heredoc_value depth o)
unfolding heredoc_value
Goes-heredoc_value depth s none k h = (omega arith, k)
Goes-heredoc_value depth s (some n) k h = h

quote_first : (b : ℕ) (s : Bytes) → (b == b'"') ≡ true → starts_with (b ∷ s) (b'"' ∷ []) ≡ true
unfolding starts_with
quote_first b s h = ground arith

two_long : (s : Bytes) → starts_with s (b'<' ∷ []) ≡ true → 1 ≤ length s
unfolding starts_with
two_long [] h = absurd (ground arith)
two_long (b ∷ s) h = omega arith

ident_long :
    (b : ℕ) (s : Bytes) → is_ident_start b ≡ true → 1 ≤ count_while is_ident_continue (b ∷ s)
unfolding count_while
ident_long b s h = ground arith

Goes-word_turn :
    (depth : ℤ) (at_key : Bool) (b : ℕ) (s : Bytes) → Goes (b ∷ s) (word_turn depth at_key b s)
unfolding word_turn
Goes-word_turn depth at_key b s = elim (Bool-cases (b == b'"')) [
  | inl quote ↦ elim (Bool-cases (eq_ℤ depth 1 && at_key)) [
    | inl place ↦
        rw (quote, place)
          (Goes-quoted_key depth (b ∷ s) (read_string (b ∷ s)) (quote_first b s quote)
            (read_string-Within (b ∷ s)))
    | inr value ↦
        rw (quote, value)
          (Goes-quoted_value depth at_key (b ∷ s) (read_string (b ∷ s))
            (read_string-Within (b ∷ s)))
  ]
  | inr other ↦ elim (Bool-cases (b == b'<' && starts_with s (b'<' ∷ []))) [
    | inl opener ↦
        rw (other, opener)
          (Goes-heredoc_value depth (b ∷ s) (skip_heredoc (b ∷ s)) (omega arith)
            (skip_heredoc-Between (b ∷ s) (omega (arith, two_long s (ground arith)))))
    | inr no_opener ↦ elim (Bool-cases (is_ident_start b && eq_ℤ depth 1 && at_key)) [
      | inl ident ↦
          rw (other, no_opener, ident)
            (Goes-possible_key depth (take (count_while is_ident_continue (b ∷ s)) (b ∷ s))
              (count_while is_ident_continue (b ∷ s)) (b ∷ s) (ident_long b s (ground arith))
              (count_while-le is_ident_continue (b ∷ s)) (inr refl))
      | inr rest ↦ rw (other, no_opener, rest) (ground arith)
    ]
  ]
]

comment_body-le : (s : Bytes) → comment_body s ≤ length s
unfolding comment_body
comment_body-le [] = omega arith
comment_body-le (b ∷ []) = omega arith
comment_body-le (b ∷ c ∷ s) = ground (arith, comment_body-le (c ∷ s))

line_long :
    (b : ℕ) (s : Bytes) → not (b == b'\n') ≡ true → 1 ≤ count_while (λ c. not (c == b'\n')) (b ∷ s)
unfolding count_while
line_long b s h = ground arith

Goes-comment_turn :
    (depth : ℤ) (at_key : Bool) (b : ℕ) (s : Bytes) → Goes (b ∷ s) (comment_turn depth at_key b s)
unfolding comment_turn
Goes-comment_turn depth at_key b s =
    elim (Bool-cases (b == b'#' || b == b'/' && starts_with s (b'/' ∷ []))) [
      | inl line ↦
          rw line (line_long b s (ground arith), count_while-le (λ c. not (c == b'\n')) (b ∷ s))
      | inr no_line ↦ elim (Bool-cases (b == b'/' && starts_with s (b'*' ∷ []))) [
        | inl block ↦ rw (no_line, block) (omega arith, omega arith)
        | inr no_block ↦ rw (no_line, no_block) (Goes-word_turn depth at_key b s)
      ]
    ]

pub Goes-turn :
    (depth : ℤ) (at_key : Bool) (b : ℕ) (s : Bytes) → Goes (b ∷ s) (turn depth at_key b s)
unfolding turn
Goes-turn depth at_key b s = elim (Bool-cases (b == b'{')) [
  | inl c ↦ rw c (omega arith, omega arith)
  | inr n1 ↦ elim (Bool-cases (b == b'}')) [
    | inl c ↦ elim (Bool-cases (eq_ℤ (pred depth) 0)) [
      | inl last ↦ rw (n1, c, last) tt
      | inr more ↦ rw (n1, c, more) (omega arith, omega arith)
    ]
    | inr n2 ↦ elim (Bool-cases (b == b'(' || b == b'[')) [
      | inl c ↦ rw (n1, n2, c) (omega arith, omega arith)
      | inr n3 ↦ elim (Bool-cases (b == b')' || b == b']')) [
        | inl c ↦ rw (n1, n2, n3, c) (omega arith, omega arith)
        | inr n4 ↦ elim (Bool-cases ((b == b',' || b == b'\n') && eq_ℤ depth 1)) [
          | inl c ↦ rw (n1, n2, n3, n4, c) (omega arith, omega arith)
          | inr n5 ↦ rw (n1, n2, n3, n4, n5) (Goes-comment_turn depth at_key b s)
        ]
      ]
    ]
  ]
]

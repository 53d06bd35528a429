-- ===== src/Version/Pieces.antt =====
-- The comma-separated pieces that `parse` of crates/tfls-core/src/version_constraint.rs inspects,
-- and the inputs on which it panics.
use terraform_ls_rs.Base.{
  ℕ, ◌+◌, ◌-◌, ◌≤◌, Option, some, List, [], ◌∷◌, ◌++◌, map, append-nil, append_assoc, ◌≡◌, ◌≢◌,
  refl, sym, ap, ◌∙◌, inl, inr, ◌==◌, Bytes, length, take, drop, length-append, take-append,
  drop-append, split, Bool-cases, arith, extend_first, subst,
}
use terraform_ls_rs.Version.Constraint.{Range}
use terraform_ls_rs.Version.Parse.{slice, split_commas_from, split_commas}

slice-take-drop :
    (s : Bytes) (a b : ℕ) → a ≤ b → b ≤ length s → slice s a b ≡ some (take (b - a) (drop a s))
slice-take-drop s a b h k = ground arith

-- A slice that ends where `cur` ends is `cur`.
pub slice_middle :
    (pre cur rest : Bytes) (a b : ℕ)
    → a ≡ length pre
    → b ≡ length pre + length cur
    → slice (pre ++ (cur ++ rest)) a b ≡ some cur
slice_middle pre cur rest a b ea eb =
    let n : b - a ≡ length cur = omega arith in
    slice-take-drop (pre ++ (cur ++ rest)) a b (omega arith)
      (omega (arith, length-append pre (cur ++ rest), length-append cur rest))
    ∙ rw (n, ea, drop-append pre (cur ++ rest), take-append cur rest)

-- The texts of the pieces.
abbrev pub sliced : Bytes → List Range → List (Option Bytes)
sliced input = map (λ r. slice input r.start r.end)

abbrev extend : Bytes → List Bytes → List Bytes
extend cur [] = cur ∷ []
extend cur (p ∷ ps) = (cur ++ p) ∷ ps

abbrev all_some : List Bytes → List (Option Bytes)
all_some = map some

split_ne : (s : Bytes) → split b',' s ≢ []
unfolding split
split_ne [] h = ground arith
split_ne (b ∷ s) h = ground (arith, split_ne s)

extend-nil : (s : Bytes) → extend [] (split b',' s) ≡ split b',' s
extend-nil s = go (split b',' s) (split_ne s)
  where
    go : (ps : List Bytes) → ps ≢ [] → extend [] ps ≡ ps
    go [] h = absurd (h refl)
    go (p ∷ ps) h = refl

extend-extend_first :
    (cur : Bytes) (b : ℕ) (ps : List Bytes)
    → extend cur (extend_first b ps) ≡ extend (cur ++ b ∷ []) ps
extend-extend_first cur b [] = refl
extend-extend_first cur b (p ∷ ps) = simp append_assoc

-- From byte `i` on, in a piece that began at `start` and holds `cur` so far, the ranges cut out the
-- pieces of the rest.
sliced_from :
    (input pre cur s : Bytes) (start i : ℕ)
    → input ≡ pre ++ (cur ++ s)
    → start ≡ length pre
    → i ≡ length pre + length cur
    → sliced input (split_commas_from i start s) ≡ all_some (extend cur (split b',' s))
unfolding split_commas_from split
sliced_from input pre cur [] start i e es ei =
    rw e (rw (slice_middle pre cur [] start i es ei, append-nil cur))
sliced_from input pre cur (b ∷ s) start i e es ei = elim (Bool-cases (b == b',')) [
  | inl comma ↦ rw comma (
      cc (
        subst (λ t. slice t start i ≡ some cur) (sym e)
            (slice_middle pre cur (b ∷ s) start i es ei),
        append-nil cur,
        extend-nil s,
        sliced_from input (pre ++ (cur ++ b ∷ [])) [] s (i + 1) (i + 1) (e ∙ simp append_assoc)
            (omega (arith, length-append pre (cur ++ b ∷ []), length-append cur (b ∷ [])))
            (omega (arith, length-append pre (cur ++ b ∷ []), length-append cur (b ∷ []))),
      ))
  | inr other ↦ rw other (
      sliced_from input pre (cur ++ b ∷ []) s start (i + 1) (e ∙ simp append_assoc) es
        (omega (arith, length-append cur (b ∷ [])))
      ∙ ap all_some (sym (extend-extend_first cur b (split b',' s))))
]

-- The spans of `split_commas` cut out the comma-separated pieces, in order.
pub sliced-split_commas : (s : Bytes) → sliced s (split_commas s) ≡ map some (split b',' s)
unfolding split_commas
sliced-split_commas s =
    sliced_from s [] [] s 0 0 refl refl (omega arith) ∙ ap all_some (extend-nil s)

-- ===== src/Version/Slots.antt =====
-- What `cursor_slot` of crates/tfls-core/src/version_constraint.rs answers.
use terraform_ls_rs.Base.{
  ℕ, ◌+◌, min, true, false, not, [], ◌∷◌, ◌++◌, append_assoc, ◌≡◌, refl, ap, ◌∙◌, ◌==◌,
  if◌then◌else◌, Bytes, length, take, drop, all, is_empty, length-append, take-append, drop-append,
  is_ascii_whitespace, count_while, &&_iff, arith,
}
use terraform_ls_rs.Base.Scan.{all-append, count_while-append, count_while-all, count_while_stop}
use terraform_ls_rs.Version.Constraint.{ConstraintOp, gte, token, after_operator, inside_version}
use terraform_ls_rs.Version.Cursor.{piece_start_from, slot_of, is_operator_char, cursor_slot}

abbrev CommaFree : Bytes → Type 0
CommaFree s = all (λ b. not (b == b',')) s ≡ true

start_stays :
    (off i start : ℕ) (cur rest : Bytes)
    → CommaFree cur
    → off ≡ i + length cur
    → piece_start_from off i start (cur ++ rest) ≡ start
unfolding piece_start_from
start_stays off i start [] [] free e = refl
start_stays off i start [] (b ∷ rest) free e = ground arith
start_stays off i start (b ∷ cur) rest free e =
    ground (arith, start_stays off (i + 1) start cur rest)

start_moves :
    (off i start : ℕ) (front cur rest : Bytes)
    → CommaFree cur
    → off ≡ i + length front + 1 + length cur
    → piece_start_from off i start (front ++ b',' ∷ (cur ++ rest)) ≡ i + length front + 1
unfolding piece_start_from
start_moves off i start [] cur rest free e =
    ground (arith, start_stays off (i + 1) (i + 1) cur rest)
start_moves off i start (b ∷ front) cur rest free e =
    ground (arith, start_moves off (i + 1) (if b == b',' then i + 1 else start) front cur rest free)

-- The text between the last comma before the cursor and the cursor is cut out.
cut_out :
    (front cur rest : Bytes) (off : ℕ)
    → off ≡ length front + 1 + length cur
    → drop (length front + 1) (take off (front ++ b',' ∷ (cur ++ rest))) ≡ cur
cut_out front cur rest off e =
    let whole : front ++ b',' ∷ (cur ++ rest) ≡ ((front ++ b',' ∷ []) ++ cur) ++ rest =
      simp append_assoc in
    let n : off ≡ length ((front ++ b',' ∷ []) ++ cur) =
      omega (arith, length-append (front ++ b',' ∷ []) cur, length-append front (b',' ∷ [])) in
    let m : length front + 1 ≡ length (front ++ b',' ∷ []) =
      omega (arith, length-append front (b',' ∷ [])) in
    rw (whole, n, take-append ((front ++ b',' ∷ []) ++ cur) rest, m)
      (drop-append (front ++ b',' ∷ []) cur)

drop-count_while :
    (pad cur : Bytes)
    → all is_ascii_whitespace pad ≡ true
    → count_while is_ascii_whitespace cur ≡ 0
    → drop (count_while is_ascii_whitespace (pad ++ cur)) (pad ++ cur) ≡ cur
drop-count_while pad cur blank solid =
    let n : count_while is_ascii_whitespace (pad ++ cur) ≡ length pad =
      count_while-append is_ascii_whitespace pad cur blank ∙ omega arith in
    rw n (drop-append pad cur)

-- The slot depends only on what stands between the last comma and the cursor, less the leading
-- whitespace.
cursor_slot-slot_of :
    (front pad cur rest : Bytes)
    → all is_ascii_whitespace pad ≡ true
    → CommaFree (pad ++ cur)
    → count_while is_ascii_whitespace cur ≡ 0
    → cursor_slot (front ++ b',' ∷ ((pad ++ cur) ++ rest)) (length front + 1 + length (pad ++ cur))
      ≡ slot_of cur
unfolding cursor_slot
cursor_slot-slot_of front pad cur rest blank free solid =
    let off : ℕ = length front + 1 + length (pad ++ cur) in
    let input : Bytes = front ++ b',' ∷ ((pad ++ cur) ++ rest) in
    let inside : min off (length input) ≡ off = omega (
      arith,
      length-append front (b',' ∷ ((pad ++ cur) ++ rest)),
      length-append (pad ++ cur) rest,
    ) in
    let start : piece_start_from off 0 0 input ≡ length front + 1 =
      start_moves off 0 0 front (pad ++ cur) rest free (omega arith) ∙ omega arith in
    rw (inside, start, cut_out front (pad ++ cur) rest off refl)
      (ap slot_of (drop-count_while pad cur blank solid))

operator_char-whitespace : (b : ℕ) → is_ascii_whitespace b ≡ true → is_operator_char b ≡ false
operator_char-whitespace b h = ground arith

drop-all :
    (s : Bytes)
    → all is_ascii_whitespace s ≡ true
    → is_empty (drop (count_while is_ascii_whitespace s) s) ≡ true
drop-all s h = rw (count_while-all is_ascii_whitespace s h) (none_left s)
  where
    none_left : (t : Bytes) → is_empty (drop (length t) t) ≡ true
    none_left [] = refl
    none_left (b ∷ t) = none_left t

-- An operator, then only whitespace.
slot_of-token :
    (op : ConstraintOp) (ws : Bytes)
    → all is_ascii_whitespace ws ≡ true
    → slot_of (token op ++ ws) ≡ after_operator op
unfolding slot_of token
slot_of-token gte [] h = refl
slot_of-token gte (w ∷ ws) h = ground (arith, drop-all (w ∷ ws) h)
slot_of-token op [] h = refl
slot_of-token op (w ∷ ws) h = ground (arith, drop-all (w ∷ ws) h)

drop-count_while_stop :
    (ws : Bytes) (b : ℕ) (s : Bytes)
    → all is_ascii_whitespace ws ≡ true
    → is_ascii_whitespace b ≡ false
    → drop (count_while is_ascii_whitespace (ws ++ b ∷ s)) (ws ++ b ∷ s) ≡ b ∷ s
drop-count_while_stop ws b s h solid =
    drop-count_while ws (b ∷ s) h (count_while_stop is_ascii_whitespace b s solid)

-- An operator, whitespace, and the beginning of a version.
slot_of-version :
    (op : ConstraintOp) (ws : Bytes) (b : ℕ) (s : Bytes)
    → all is_ascii_whitespace ws ≡ true
    → is_ascii_whitespace b ≡ false
    → is_operator_char b ≡ false
    → slot_of (token op ++ (ws ++ b ∷ s)) ≡ inside_version op (b ∷ s)
unfolding slot_of token
slot_of-version gte [] b s h solid other = ground arith
slot_of-version gte (w ∷ ws) b s h solid other =
    ground (arith, drop-count_while_stop (w ∷ ws) b s h solid)
slot_of-version op [] b s h solid other = ground arith
slot_of-version op (w ∷ ws) b s h solid other =
    ground (arith, drop-count_while_stop (w ∷ ws) b s h solid)

CommaFree-whitespace : (s : Bytes) → all is_ascii_whitespace s ≡ true → CommaFree s
CommaFree-whitespace [] h = refl
CommaFree-whitespace (b ∷ s) h = ground (arith, CommaFree-whitespace s (ground arith))

CommaFree-append : (s t : Bytes) → CommaFree s → CommaFree t → CommaFree (s ++ t)
CommaFree-append s t h k = all-append (λ b. not (b == b',')) s t ∙ (&&_iff _ _).1 (h, k)

CommaFree-token : (op : ConstraintOp) → CommaFree (token op)
unfolding token
CommaFree-token gte = refl
CommaFree-token op = refl

token-solid : (op : ConstraintOp) (s : Bytes) → count_while is_ascii_whitespace (token op ++ s) ≡ 0
unfolding token count_while
token-solid gte s = refl
token-solid op s = refl

-- The position of the cursor behind a comma and `cur`.
abbrev pub cursor_at : Bytes → Bytes → ℕ
cursor_at front cur = length front + 1 + length cur

module _ (front pad ws rest : Bytes) (op : ConstraintOp)
    (blank : all is_ascii_whitespace pad ≡ true) (blanks : all is_ascii_whitespace ws ≡ true) where
  -- Behind a comma, whitespace, an operator and whitespace the cursor waits for that operator's
  -- version, whatever stands before the comma and behind the cursor.
  pub cursor_slot-operator :
      cursor_slot
        (front ++ b',' ∷ ((pad ++ (token op ++ ws)) ++ rest))
        (cursor_at front (pad ++ (token op ++ ws)))
      ≡ after_operator op
  cursor_slot-operator =
      cursor_slot-slot_of front pad (token op ++ ws) rest blank
        (CommaFree-append pad (token op ++ ws) (CommaFree-whitespace pad blank)
          (CommaFree-append (token op) ws (CommaFree-token op) (CommaFree-whitespace ws blanks)))
        (token-solid op ws)
      ∙ slot_of-token op ws blanks

  -- Where a text follows that holds no comma and begins with neither whitespace nor an operator's
  -- character, the cursor behind it stands in a version of that operator with that partial text.
  pub cursor_slot-version :
      (b : ℕ) (s : Bytes)
      → is_ascii_whitespace b ≡ false
      → is_operator_char b ≡ false
      → all (λ x. not (x == b',')) (b ∷ s) ≡ true
      → cursor_slot
          (front ++ b',' ∷ ((pad ++ (token op ++ (ws ++ b ∷ s))) ++ rest))
          (cursor_at front (pad ++ (token op ++ (ws ++ b ∷ s))))
        ≡ inside_version op (b ∷ s)
  cursor_slot-version b s solid other free =
      cursor_slot-slot_of front pad (token op ++ (ws ++ b ∷ s)) rest blank
        (CommaFree-append pad (token op ++ (ws ++ b ∷ s)) (CommaFree-whitespace pad blank) (
          CommaFree-append (token op) (ws ++ b ∷ s) (CommaFree-token op)
            (CommaFree-append ws (b ∷ s) (CommaFree-whitespace ws blanks) free)))
        (token-solid op (ws ++ b ∷ s))
      ∙ slot_of-version op ws b s blanks solid other

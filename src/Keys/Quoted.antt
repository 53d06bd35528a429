-- ===== src/Keys/Quoted.antt =====
-- `read_string` of crates/tfls-diag/src/map_duplicate_keys.rs, on the text from the opening quote on.
use terraform_ls_rs.Base.{
  ℕ, zero, suc, ◌+◌, ◌-◌, Bool, ◌&&◌, ◌||◌, Option, none, some, [], ◌∷◌, ◌++◌, ◌==◌, leb,
  if◌then◌else◌, Bytes, length, take, drop,
}

-- The string's bytes read so far: closed, with the number of its bytes and its characters, or open
-- at the end of the text. Fuel does not run out, as `Keys.Ends` shows.
pub data Scan : Type 0 where
  closed : ℕ → Bytes → Scan
  unterminated out_of_fuel : Scan

-- What the loop does at a byte: it pushes characters, steps over bytes and sets the depth of
-- interpolation, or it reads a nested string, or it ends.
pub data Action : Type 0 where
  advance : Bytes → ℕ → ℕ → Action
  nested close at_end : Action

abbrev is_sigil : ℕ → Bool
is_sigil b = b == b'$' || b == b'%'

-- The character that an escape stands for.
unfoldable pub unescaped : ℕ → ℕ
unescaped c = if c == b'n' then b'\n' else if c == b't' then b'\t' else c

-- Inside an interpolation.
unfoldable pub interpolated : ℕ → ℕ → Action
interpolated depth b =
    if b == b'{'
    then advance (b'{' ∷ []) 1 (depth + 1)
    else if b == b'}'
    then advance (b'}' ∷ []) 1 (depth - 1)
    else if b == b'"'
    then nested
    else advance (b ∷ []) 1 depth

unfoldable pub plain_byte : ℕ → ℕ → Action
unfolding interpolated
plain_byte depth b =
    if leb 1 depth
    then interpolated depth b
    else if b == b'"'
    then close
    else advance (b ∷ []) 1 depth

-- One turn of the loop: the look-ahead of an escape is one byte, that of a doubled sigil two.
unfoldable pub action : ℕ → Bytes → Action
unfolding plain_byte unescaped
action depth [] = at_end
action depth (b ∷ []) = plain_byte depth b
action depth (b ∷ c ∷ []) =
    if b == b'\\'
    then advance (unescaped c ∷ []) 2 depth
    else if is_sigil b && c == b'{'
    then advance (b ∷ b'{' ∷ []) 2 (depth + 1)
    else plain_byte depth b
action depth (b ∷ c ∷ d ∷ s) =
    if b == b'\\'
    then advance (unescaped c ∷ []) 2 depth
    else if is_sigil b && c == b && d == b'{'
    then advance (b ∷ b'{' ∷ []) 3 depth
    else if is_sigil b && c == b'{'
    then advance (b ∷ b'{' ∷ []) 2 (depth + 1)
    else plain_byte depth b

abbrev pub prepend : ℕ → Bytes → Scan → Scan
prepend n pushed (closed m contents) = closed (n + m) (pushed ++ contents)
prepend n pushed unterminated = unterminated
prepend n pushed out_of_fuel = out_of_fuel

-- After a nested string, whose bytes are pushed as they stand.
abbrev pub after_nested : ℕ → Bytes → (ℕ → Bytes → Scan) → Scan → Scan
after_nested depth s loop (closed n contents) =
    prepend (n + 1) (take (n + 1) s) (loop depth (drop (n + 1) s))
after_nested depth s loop unterminated = unterminated
after_nested depth s loop out_of_fuel = out_of_fuel

abbrev pub perform : Action → ℕ → Bytes → (ℕ → Bytes → Scan) → Scan
perform (advance pushed n depth') depth s loop = prepend n pushed (loop depth' (drop n s))
perform nested depth s loop = after_nested depth s loop (loop 0 (drop 1 s))
perform close depth s loop = closed 1 []
perform at_end depth s loop = unterminated

unfoldable pub string_loop : ℕ → ℕ → Bytes → Scan
unfolding action
string_loop zero depth s = out_of_fuel
string_loop (suc fuel) depth s = perform (action depth s) depth s (string_loop fuel)

abbrev pub with_quote : Scan → Option (ℕ × Bytes)
with_quote (closed n contents) = some (n + 1, contents)
with_quote unterminated = none
with_quote out_of_fuel = none

-- The number of bytes from the opening quote to the closing one, both included, and the contents.
unfoldable pub read_string : Bytes → Option (ℕ × Bytes)
unfolding string_loop
read_string [] = none
read_string (quote ∷ s) = with_quote (string_loop (length s + 1) 0 s)

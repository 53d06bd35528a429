-- ===== src/Git/Sha.antt =====
-- `looks_like_commit_sha` and `sha_matches` of crates/tfls-core/src/git_ref.rs.
use terraform_ls_rs.Base.{
  ℕ, ◌+◌, Bool, false, not, ◌&&◌, ◌||◌, leb, if◌then◌else◌, Bytes, bytes_eq, length, all, map,
  is_ascii_digit, starts_with,
}

abbrev pub is_ascii_hexdigit : ℕ → Bool
is_ascii_hexdigit b = is_ascii_digit b || leb b'a' b && leb b b'f' || leb b'A' b && leb b b'F'

-- A byte outside ASCII is not a hexadecimal digit, nor is the character it belongs to.
unfoldable pub looks_like_commit_sha : Bytes → Bool
looks_like_commit_sha r = leb 7 (length r) && leb (length r) 64 && all is_ascii_hexdigit r

abbrev pub to_lower : ℕ → ℕ
to_lower b = if leb b'A' b && leb b b'Z' then b + 32 else b

abbrev pub to_ascii_lowercase : Bytes → Bytes
to_ascii_lowercase s = map to_lower s

-- `sha_matches` on texts in lower case.
unfoldable pub lower_matches : Bytes → Bytes → Bool
unfolding looks_like_commit_sha bytes_eq starts_with
lower_matches full pinned =
    if not (looks_like_commit_sha pinned)
    then false
    else if leb 40 (length pinned)
    then bytes_eq full pinned
    else starts_with full pinned

unfoldable pub sha_matches : Bytes → Bytes → Bool
unfolding lower_matches
sha_matches full pinned = lower_matches (to_ascii_lowercase full) (to_ascii_lowercase pinned)

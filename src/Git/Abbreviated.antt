-- ===== src/Git/Abbreviated.antt =====
-- Abbreviated pins under `sha_matches`, crates/tfls-core/src/git_ref.rs.
use terraform_ls_rs.Base.{
  ◌≤◌, ◌<◌, true, [], ◌∷◌, ◌++◌, ◌≡◌, ◌∙◌, sym, ap, refl, Bytes, length, starts_with, length-append,
  arith,
}
use terraform_ls_rs.Base.Scan.{all-append, bytes_eq_iff}
use terraform_ls_rs.Git.Sha.{
  is_ascii_hexdigit, looks_like_commit_sha, to_lower, to_ascii_lowercase, lower_matches,
  sha_matches,
}

lower-append :
    (s t : Bytes) → to_ascii_lowercase (s ++ t) ≡ to_ascii_lowercase s ++ to_ascii_lowercase t
lower-append [] t = refl
lower-append (b ∷ s) t = ap (λ (l : Bytes). to_lower b ∷ l) (lower-append s t)

lower-length : (s : Bytes) → length (to_ascii_lowercase s) ≡ length s
lower-length [] = refl
lower-length (b ∷ s) = omega (arith, lower-length s)

starts_with-append : (s p q : Bytes) → starts_with s (p ++ q) ≡ true → starts_with s p ≡ true
unfolding starts_with
starts_with-append s [] q h = refl
starts_with-append [] (x ∷ p) q h = h
starts_with-append (b ∷ s) (x ∷ p) q h = ground (arith, starts_with-append s p q)

starts_with_self : (s : Bytes) → starts_with s s ≡ true
unfolding starts_with
starts_with_self [] = refl
starts_with_self (b ∷ s) = ground (arith, starts_with_self s)

matched_prefix :
    (full p q : Bytes)
    → 7 ≤ length p
    → length p < 40
    → lower_matches full (p ++ q) ≡ true
    → lower_matches full p ≡ true
unfolding lower_matches looks_like_commit_sha
matched_prefix full p q low high h = ground (
  arith,
  length-append p q,
  all-append is_ascii_hexdigit p q,
  starts_with-append full p q,
  starts_with-append (p ++ q) p q,
  starts_with_self (p ++ q),
  bytes_eq_iff full (p ++ q),
)

-- Of a pin that matches a commit, every abbreviation of 7 to 39 characters matches it as well.
pub sha_matches-append :
    (full p q : Bytes)
    → 7 ≤ length p
    → length p < 40
    → sha_matches full (p ++ q) ≡ true
    → sha_matches full p ≡ true
unfolding sha_matches
sha_matches-append full p q low high h =
    matched_prefix (to_ascii_lowercase full) (to_ascii_lowercase p) (to_ascii_lowercase q)
      (omega (arith, lower-length p)) (omega (arith, lower-length p))
      (ap (lower_matches (to_ascii_lowercase full)) (sym (lower-append p q)) ∙ h)

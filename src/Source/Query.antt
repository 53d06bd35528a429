-- ===== src/Source/Query.antt =====
-- The ref of a source with a query, crates/tfls-diag/src/git_source.rs.
use terraform_ls_rs.Base.{
  ℕ, suc, ◌+◌, ◌-◌, true, not, some, [], ◌∷◌, ◌++◌, ◌≡◌, ◌∙◌, refl, ap, Bytes, codes, length, take,
  drop, all, before, ◌==◌, starts_with, arith,
}
use terraform_ls_rs.Source.RefValue.{
  find, unwrap_or, query_value, value_at, ref_value_with_span, extract_ref,
}

find_mark :
    (url q : Bytes)
    → all (λ b. not (b == b'?')) url ≡ true
    → find (url ++ (codes "?ref=" ++ q)) (codes "?ref=") ≡ some (length url)
unfolding find starts_with
find_mark [] q h = refl
find_mark (b ∷ url) q h = ground (arith, find_mark url q)

the_sum : (xs : Bytes) (n : ℕ) → suc (length xs) + n ≡ suc (length xs + n)
the_sum xs n = omega arith

drop-append_more : (xs ys : Bytes) (n : ℕ) → drop (length xs + n) (xs ++ ys) ≡ drop n ys
drop-append_more [] ys n = ap (λ (k : ℕ). drop k ys) (omega arith)
drop-append_more (x ∷ xs) ys n =
    ap (λ (k : ℕ). drop k (x ∷ (xs ++ ys))) (the_sum xs n) ∙ drop-append_more xs ys n

take-find : (q : Bytes) → take (unwrap_or (length q) (find q (codes "&"))) q ≡ before b'&' q
unfolding find starts_with before
take-find [] = refl
take-find (b ∷ q) = ground (arith, take-find q)

cancel : (a u : ℕ) → a + u - a ≡ u
cancel a u = omega arith

-- In a source whose text before `?ref=` has no question mark, the ref is what follows, up to the
-- next `&`.
pub extract_ref-query :
    (url q : Bytes)
    → all (λ b. not (b == b'?')) url ≡ true
    → extract_ref (url ++ (codes "?ref=" ++ q)) ≡ some (before b'&' q)
unfolding extract_ref ref_value_with_span value_at query_value
extract_ref-query url q h =
    rw (find_mark url q h, drop-append_more url (codes "?ref=" ++ q) 5)
      (ap (λ (n : ℕ). some (take n q))
          (cancel (length url + 5) (unwrap_or (length q) (find q (codes "&"))))
        ∙ ap some (take-find q))

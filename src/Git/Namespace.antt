-- ===== src/Git/Namespace.antt =====
-- The split that `tag_namespace` finds, crates/tfls-core/src/git_ref.rs.
use terraform_ls_rs.Base.{
  ℕ, ◌+◌, ◌≤◌, Bool, true, false, Option, none, some, [], ◌∷◌, ◌++◌, ◌≡◌, refl, subst, Bytes,
  length, append_assoc, length-append, arith,
}
use terraform_ls_rs.Git.Semver.{Semver}
use terraform_ls_rs.Git.Ref.{
  begins_char, parse_version_core, namespace_here, namespace_from, tag_namespace,
}

module _ {Version : Type 0} (semver : Semver Version) where
  -- A split of the text `whole` into a namespace of at most `limit` bytes and a version.
  abbrev pub Split : ℕ → Bytes → Option (Bytes × Bytes) → Type 0
  Split limit whole none = ⊥
  Split limit whole (some (p, c)) =
      (p ++ c ≡ whole) × (length p ≤ limit) × (v : Version) × (parse_version_core semver c ≡ some v)

  Split-here :
      (before_ s : Bytes) (begins : Bool) (o : Option Version) (later : Option (Bytes × Bytes))
      (limit : ℕ)
      → parse_version_core semver s ≡ o
      → length before_ ≤ limit
      → Split limit (before_ ++ s) later
      → Split limit (before_ ++ s) (namespace_here semver begins o before_ s later)
  Split-here before_ s true (some v) later limit e short h = (refl, short, v, e)
  Split-here before_ s true none later limit e short h = h
  Split-here before_ s false o later limit e short h = h

  Split-found :
      (before_ q : Bytes) (b : ℕ) (r : Bytes) (v : Version)
      → begins_char b ≡ true
      → parse_version_core semver (b ∷ r) ≡ some v
      → Split
          (length before_ + length q)
          (before_ ++ (q ++ b ∷ r))
          (namespace_from semver before_ (q ++ b ∷ r))
  unfolding namespace_from
  Split-found before_ [] b r v begins e = rw (begins, e) (refl, omega arith, v, e)
  Split-found before_ (x ∷ q) b r v begins e =
      let on = Split-found (before_ ++ x ∷ []) q b r v begins e in
      Split-here before_ (x ∷ (q ++ b ∷ r)) (begins_char x)
        (parse_version_core semver (x ∷ (q ++ b ∷ r)))
        (namespace_from semver (before_ ++ x ∷ []) (q ++ b ∷ r)) (length before_ + length (x ∷ q))
        refl (omega arith)
        (subst
          (λ (n : ℕ).
            Split n (before_ ++ x ∷ (q ++ b ∷ r))
              (namespace_from semver (before_ ++ x ∷ []) (q ++ b ∷ r)))
          (omega (arith, length-append before_ (x ∷ [])))
          (subst
            (λ (w : Bytes).
              Split (length (before_ ++ x ∷ []) + length q) w
                (namespace_from semver (before_ ++ x ∷ []) (q ++ b ∷ r)))
            (append_assoc before_ (x ∷ []) (q ++ b ∷ r)) on))

  -- Of a tag in which a version begins after the text `q`, at a character's first byte, the
  -- namespace is found. With the version after it, it is the tag, and it is no longer than `q`: the
  -- leftmost version wins.
  pub tag_namespace_first :
      (q : Bytes) (b : ℕ) (r : Bytes) (v : Version)
      → begins_char b ≡ true
      → parse_version_core semver (b ∷ r) ≡ some v
      → Split (length q) (q ++ b ∷ r) (tag_namespace semver (q ++ b ∷ r))
  unfolding tag_namespace
  tag_namespace_first q b r v begins e =
      subst (λ (n : ℕ). Split n (q ++ b ∷ r) (namespace_from semver [] (q ++ b ∷ r))) (omega arith)
        (Split-found [] q b r v begins e)

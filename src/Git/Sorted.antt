-- ===== src/Git/Sorted.antt =====
-- The order of what `newer_versions` of crates/tfls-core/src/git_ref.rs returns.
use terraform_ls_rs.Base.{
  Bool, true, false, Option, none, some, List, [], ◌∷◌, ◌≡◌, refl, ap, Bytes, bytes_eq, All,
  All-map, Bool-cases, inl, inr, arith,
}
use terraform_ls_rs.Base.Order.{is_lt, is_ge, ge_trans, ge_of_lt}
use terraform_ls_rs.Git.Semver.{Semver}
use terraform_ls_rs.Git.Ref.{
  parse_version_core, tag_namespace, push_version, push_namespace, candidates, insert_version,
  sort_versions, dedup_after, dedup, tags_of, newer_than, newer_in, newer_versions,
}

module _ {Version : Type 0} (semver : Semver Version) where
  abbrev version_in : Option (Bytes × Bytes) → Option Version
  version_in none = none
  version_in (some (p, c)) = parse_version_core semver c

  -- The version of a tag, if it has one.
  abbrev pub version_of_tag : Bytes → Option Version
  version_of_tag tag = version_in (tag_namespace semver tag)

  abbrev at_least_some : Version → Option Version → Bool
  at_least_some v none = false
  at_least_some v (some w) = is_ge (semver.cmp v w)

  abbrev at_least_version : Option Version → Option Version → Bool
  at_least_version none o = false
  at_least_version (some v) o = at_least_some v o

  -- Every tag has a version that is at least that of each tag after it.
  abbrev pub Descending : List Bytes → Type 0
  Descending [] = Unit
  Descending (t ∷ ts) =
      All (λ u. at_least_version (version_of_tag t) (version_of_tag u) ≡ true) ts × Descending ts

  abbrev Sorted : List (Version × Bytes) → Type 0
  Sorted [] = Unit
  Sorted (x ∷ xs) =
      All (λ (y : Version × Bytes). is_ge (semver.cmp (x.0) (y.0)) ≡ true) xs × Sorted xs

  -- The version beside each tag is its own.
  abbrev IsOwn : Version × Bytes → Type 0
  IsOwn x = version_of_tag (x.1) ≡ some (x.0)

  IsOwn-push_version :
      (tag : Bytes) (cur : Version) (o : Option Version) (cands : List (Version × Bytes))
      → version_of_tag tag ≡ o
      → All IsOwn cands
      → All IsOwn (push_version semver cur tag o cands)
  IsOwn-push_version tag cur none cands e h = h
  IsOwn-push_version tag cur (some v) cands e h = elim (Bool-cases (is_lt (semver.cmp cur v))) [
    | inr lower ↦ rw lower h
    | inl higher ↦ elim (Bool-cases (semver.is_pre cur)) [
      | inl pre ↦ rw (higher, pre) (e, h)
      | inr stable ↦ elim (Bool-cases (semver.is_pre v)) [
        | inl pre ↦ rw (higher, stable, pre) h
        | inr also ↦ rw (higher, stable, also) (e, h)
      ]
    ]
  ]

  IsOwn-push_namespace :
      (tag prefix : Bytes) (cur : Version) (o : Option (Bytes × Bytes))
      (cands : List (Version × Bytes))
      → tag_namespace semver tag ≡ o
      → All IsOwn cands
      → All IsOwn (push_namespace semver prefix cur tag o cands)
  IsOwn-push_namespace tag prefix cur none cands e h = h
  IsOwn-push_namespace tag prefix cur (some (p, c)) cands e h =
      elim (Bool-cases (bytes_eq p prefix)) [
        | inr other ↦ rw other h
        | inl same ↦
            rw same
              (IsOwn-push_version tag cur (parse_version_core semver c) cands (ap version_in e) h)
      ]

  IsOwn-candidates :
      (prefix : Bytes) (cur : Version) (tags : List Bytes)
      → All IsOwn (candidates semver prefix cur tags)
  unfolding candidates
  IsOwn-candidates prefix cur [] = tt
  IsOwn-candidates prefix cur (tag ∷ tags) =
      IsOwn-push_namespace tag prefix cur (tag_namespace semver tag)
        (candidates semver prefix cur tags) refl (IsOwn-candidates prefix cur tags)

  All-insert_version :
      (P : Version × Bytes → Type 0) (x : Version × Bytes) (xs : List (Version × Bytes))
      → P x
      → All P xs
      → All P (insert_version semver x xs)
  unfolding insert_version
  All-insert_version P x [] hx h = (hx, tt)
  All-insert_version P x (y ∷ ys) hx h = elim (Bool-cases (is_lt (semver.cmp (x.0) (y.0)))) [
    | inl less ↦ rw less (h.0, All-insert_version P x ys hx h.1)
    | inr more ↦ rw more (hx, h)
  ]

  All-sort_versions :
      (P : Version × Bytes → Type 0) (xs : List (Version × Bytes))
      → All P xs
      → All P (sort_versions semver xs)
  unfolding sort_versions
  All-sort_versions P [] h = tt
  All-sort_versions P (x ∷ xs) h =
      All-insert_version P x (sort_versions semver xs) h.0 (All-sort_versions P xs h.1)

  insert_version-Sorted :
      (x : Version × Bytes) (xs : List (Version × Bytes))
      → Sorted xs
      → Sorted (insert_version semver x xs)
  unfolding insert_version
  insert_version-Sorted x [] h = (tt, tt)
  insert_version-Sorted x (y ∷ ys) h = elim (Bool-cases (is_lt (semver.cmp (x.0) (y.0)))) [
    | inl less ↦ rw less (
      All-insert_version (λ z. is_ge (semver.cmp (y.0) (z.0)) ≡ true) x ys
          (ge_of_lt semver.order (x.0) (y.0) less) h.0,
      insert_version-Sorted x ys h.1,
    )
    | inr more ↦
        let above : is_ge (semver.cmp (x.0) (y.0)) ≡ true = ground arith in
        rw more (
          (
            above,
            All-map (λ z. is_ge (semver.cmp (y.0) (z.0)) ≡ true)
                (λ z. is_ge (semver.cmp (x.0) (z.0)) ≡ true) ys
                (λ z below. ge_trans semver.order (x.0) (y.0) (z.0) above below) h.0,
          ),
          h,
        )
  ]

  sort_versions-Sorted : (xs : List (Version × Bytes)) → Sorted (sort_versions semver xs)
  unfolding sort_versions
  sort_versions-Sorted [] = tt
  sort_versions-Sorted (x ∷ xs) =
      insert_version-Sorted x (sort_versions semver xs) (sort_versions-Sorted xs)

  All-dedup_after :
      (P : Version × Bytes → Type 0) (last : Bytes) (xs : List (Version × Bytes))
      → All P xs
      → All P (dedup_after semver last xs)
  unfolding dedup_after
  All-dedup_after P last [] h = tt
  All-dedup_after P last (x ∷ xs) h = elim (Bool-cases (bytes_eq (x.1) last)) [
    | inl same ↦ rw same (All-dedup_after P last xs h.1)
    | inr other ↦ rw other (h.0, All-dedup_after P (x.1) xs h.1)
  ]

  dedup_after-Sorted :
      (last : Bytes) (xs : List (Version × Bytes)) → Sorted xs → Sorted (dedup_after semver last xs)
  unfolding dedup_after
  dedup_after-Sorted last [] h = tt
  dedup_after-Sorted last (x ∷ xs) h = elim (Bool-cases (bytes_eq (x.1) last)) [
    | inl same ↦ rw same (dedup_after-Sorted last xs h.1)
    | inr other ↦ rw other (
      All-dedup_after (λ y. is_ge (semver.cmp (x.0) (y.0)) ≡ true) (x.1) xs h.0,
      dedup_after-Sorted (x.1) xs h.1,
    )
  ]

  below_own :
      (x : Version × Bytes) (xs : List (Version × Bytes))
      → IsOwn x
      → All IsOwn xs
      → All (λ (y : Version × Bytes). is_ge (semver.cmp (x.0) (y.0)) ≡ true) xs
      → All
          (λ u. at_least_version (version_of_tag (x.1)) (version_of_tag u) ≡ true)
          (tags_of semver xs)
  below_own x [] hx own h = tt
  below_own x (y ∷ ys) hx own h = (rw (hx, own.0) h.0, below_own x ys hx own.1 h.1)

  tags_of-Descending :
      (xs : List (Version × Bytes)) → All IsOwn xs → Sorted xs → Descending (tags_of semver xs)
  tags_of-Descending [] own h = tt
  tags_of-Descending (x ∷ xs) own h =
      (below_own x xs own.0 own.1 h.0, tags_of-Descending xs own.1 h.1)

  dedup-Descending :
      (xs : List (Version × Bytes))
      → All IsOwn xs
      → Sorted xs
      → Descending (tags_of semver (dedup semver xs))
  unfolding dedup
  dedup-Descending [] own h = tt
  dedup-Descending (x ∷ xs) own h =
      tags_of-Descending (x ∷ dedup_after semver (x.1) xs)
        (own.0, All-dedup_after IsOwn (x.1) xs own.1)
        (
          All-dedup_after (λ y. is_ge (semver.cmp (x.0) (y.0)) ≡ true) (x.1) xs h.0,
          dedup_after-Sorted (x.1) xs h.1,
        )

  newer_than-Descending :
      (prefix : Bytes) (o : Option Version) (all_tags : List Bytes)
      → Descending (newer_than semver prefix o all_tags)
  newer_than-Descending prefix none all_tags = tt
  newer_than-Descending prefix (some cur) all_tags =
      let cands = candidates semver prefix cur all_tags in
      dedup-Descending (sort_versions semver cands)
        (All-sort_versions IsOwn cands (IsOwn-candidates prefix cur all_tags))
        (sort_versions-Sorted cands)

  newer_in-Descending :
      (o : Option (Bytes × Bytes)) (all_tags : List Bytes) → Descending (newer_in semver o all_tags)
  newer_in-Descending none all_tags = tt
  newer_in-Descending (some (p, c)) all_tags =
      newer_than-Descending p (parse_version_core semver c) all_tags

  -- The tags come highest version first: each has a version that is at least that of every tag
  -- after it.
  pub newer_versions-Descending :
      (all_tags : List Bytes) (current : Bytes)
      → Descending (newer_versions semver all_tags current)
  unfolding newer_versions
  newer_versions-Descending all_tags current =
      newer_in-Descending (tag_namespace semver current) all_tags

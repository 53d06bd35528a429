-- ===== src/Git/Newer.antt =====
-- Which tags `newer_versions` of crates/tfls-core/src/git_ref.rs returns.
use terraform_ls_rs.Base.{
  Bool, false, not, ◌&&◌, ◌||◌, Option, none, some, List, [], ◌∷◌, ◌≡◌, ◌∙◌, refl, ap, Bytes,
  bytes_eq, any, Bool-cases, inl, inr, arith,
}
use terraform_ls_rs.Base.Order.{is_lt}
use terraform_ls_rs.Base.Scan.{bytes_eq_iff}
use terraform_ls_rs.Git.Semver.{Semver}
use terraform_ls_rs.Git.Ref.{
  parse_version_core, tag_namespace, push_version, push_namespace, candidates, insert_version,
  sort_versions, dedup_after, dedup, tags_of, newer_than, newer_in, newer_versions,
}

-- The list has the text.
abbrev pub has : Bytes → List Bytes → Bool
has t ts = any (bytes_eq t) ts

has-cons_same :
    (t x : Bytes) (rest cands : Bool) (wanted : Bytes → Bool)
    → cands ≡ (rest && wanted t)
    → (bytes_eq t x && wanted x || cands) ≡ ((bytes_eq t x || rest) && wanted t)
has-cons_same t x rest cands wanted e = elim (Bool-cases (bytes_eq t x)) [
  | inl same ↦ ground (arith, ap wanted ((bytes_eq_iff t x).0 same))
  | inr other ↦ ground arith
]

module _ {Version : Type 0} (semver : Semver Version) where
  abbrev newer_version : Version → Option Version → Bool
  newer_version cur none = false
  newer_version cur (some v) =
      is_lt (semver.cmp cur v) && (semver.is_pre cur || not (semver.is_pre v))

  abbrev newer_split : Bytes → Version → Option (Bytes × Bytes) → Bool
  newer_split prefix cur none = false
  newer_split prefix cur (some (p, c)) =
      bytes_eq p prefix && newer_version cur (parse_version_core semver c)

  abbrev newer_tag : Bytes → Option Version → Bytes → Bool
  newer_tag prefix none tag = false
  newer_tag prefix (some cur) tag = newer_split prefix cur (tag_namespace semver tag)

  abbrev newer_tag_in : Option (Bytes × Bytes) → Bytes → Bool
  newer_tag_in none tag = false
  newer_tag_in (some (prefix, core)) tag = newer_tag prefix (parse_version_core semver core) tag

  -- Both tags have a version, in the same namespace, that of `tag` is the higher one, and it is not a
  -- pre-release unless that of `current` is.
  abbrev pub is_upgrade : Bytes → Bytes → Bool
  is_upgrade current tag = newer_tag_in (tag_namespace semver current) tag

  has-push_version :
      (t tag : Bytes) (cur : Version) (o : Option Version) (cands : List (Version × Bytes))
      → has t (tags_of semver (push_version semver cur tag o cands))
        ≡ (bytes_eq t tag && newer_version cur o || has t (tags_of semver cands))
  has-push_version t tag cur none cands = ground arith
  has-push_version t tag cur (some v) cands = ground arith

  has-push_namespace :
      (t tag prefix : Bytes) (cur : Version) (o : Option (Bytes × Bytes))
      (cands : List (Version × Bytes))
      → has t (tags_of semver (push_namespace semver prefix cur tag o cands))
        ≡ (bytes_eq t tag && newer_split prefix cur o || has t (tags_of semver cands))
  has-push_namespace t tag prefix cur none cands = ground arith
  has-push_namespace t tag prefix cur (some (p, c)) cands =
      ground (arith, has-push_version t tag cur (parse_version_core semver c) cands)

  has-candidates :
      (t prefix : Bytes) (cur : Version) (tags : List Bytes)
      → has t (tags_of semver (candidates semver prefix cur tags))
        ≡ (has t tags && newer_split prefix cur (tag_namespace semver t))
  unfolding candidates
  has-candidates t prefix cur [] = refl
  has-candidates t prefix cur (tag ∷ tags) =
      has-push_namespace t tag prefix cur (tag_namespace semver tag)
        (candidates semver prefix cur tags)
      ∙ has-cons_same t tag (has t tags)
          (has t (tags_of semver (candidates semver prefix cur tags)))
          (λ u. newer_split prefix cur (tag_namespace semver u)) (has-candidates t prefix cur tags)

  has-insert_version :
      (t : Bytes) (x : Version × Bytes) (xs : List (Version × Bytes))
      → has t (tags_of semver (insert_version semver x xs))
        ≡ (bytes_eq t (x.1) || has t (tags_of semver xs))
  unfolding insert_version
  has-insert_version t x [] = refl
  has-insert_version t x (y ∷ ys) = ground (arith, has-insert_version t x ys)

  has-sort_versions :
      (t : Bytes) (xs : List (Version × Bytes))
      → has t (tags_of semver (sort_versions semver xs)) ≡ has t (tags_of semver xs)
  unfolding sort_versions
  has-sort_versions t [] = refl
  has-sort_versions t (x ∷ xs) =
      ground (arith, has-insert_version t x (sort_versions semver xs), has-sort_versions t xs)

  has-dedup_after :
      (t last : Bytes) (xs : List (Version × Bytes))
      → (bytes_eq t last || has t (tags_of semver (dedup_after semver last xs)))
        ≡ (bytes_eq t last || has t (tags_of semver xs))
  unfolding dedup_after
  has-dedup_after t last [] = refl
  has-dedup_after t last (x ∷ xs) = ground (
    arith,
    has-dedup_after t last xs,
    has-dedup_after t (x.1) xs,
    bytes_eq_iff (x.1) last,
    bytes_eq_iff t last,
    bytes_eq_iff t (x.1),
  )

  has-dedup :
      (t : Bytes) (xs : List (Version × Bytes))
      → has t (tags_of semver (dedup semver xs)) ≡ has t (tags_of semver xs)
  unfolding dedup
  has-dedup t [] = refl
  has-dedup t (x ∷ xs) = has-dedup_after t (x.1) xs

  has-newer_than :
      (t prefix : Bytes) (o : Option Version) (all_tags : List Bytes)
      → has t (newer_than semver prefix o all_tags) ≡ (has t all_tags && newer_tag prefix o t)
  has-newer_than t prefix none all_tags = ground arith
  has-newer_than t prefix (some cur) all_tags =
      has-dedup t (sort_versions semver (candidates semver prefix cur all_tags))
      ∙ has-sort_versions t (candidates semver prefix cur all_tags)
      ∙ has-candidates t prefix cur all_tags

  has-newer_in :
      (t : Bytes) (o : Option (Bytes × Bytes)) (all_tags : List Bytes)
      → has t (newer_in semver o all_tags) ≡ (has t all_tags && newer_tag_in o t)
  has-newer_in t none all_tags = ground arith
  has-newer_in t (some (p, c)) all_tags = has-newer_than t p (parse_version_core semver c) all_tags

  -- A tag is returned exactly when it is one of all tags and an upgrade of the current one: in its
  -- namespace, of a strictly higher version, and a pre-release only if the current one is.
  pub has-newer_versions :
      (all_tags : List Bytes) (current t : Bytes)
      → has t (newer_versions semver all_tags current) ≡ (has t all_tags && is_upgrade current t)
  unfolding newer_versions
  has-newer_versions all_tags current t = has-newer_in t (tag_namespace semver current) all_tags

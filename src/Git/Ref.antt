-- ===== src/Git/Ref.antt =====
-- `parse_version_core`, `tag_namespace` and `newer_versions` of crates/tfls-core/src/git_ref.rs.
use terraform_ls_rs.Base.{
  ℕ, Bool, true, false, not, ◌&&◌, ◌||◌, Option, none, some, List, [], ◌∷◌, ◌++◌, map, ◌==◌, leb,
  if◌then◌else◌, Bytes, bytes_eq, codes, length, all, is_empty, is_ascii_digit, split,
}
use terraform_ls_rs.Base.Order.{is_lt}
use terraform_ls_rs.Git.Semver.{Semver}

-- `core.strip_prefix(['v', 'V']).unwrap_or(core)`.
unfoldable pub strip_v : Bytes → Bytes
strip_v [] = []
strip_v (b ∷ s) = if b == b'v' || b == b'V' then s else b ∷ s

-- `digits.digits` and nothing else.
unfoldable pub is_two_part : Bytes → Bool
unfolding split
is_two_part s =
    length (split b'.' s) == 2
    && all (λ (p : Bytes). not (is_empty p) && all is_ascii_digit p) (split b'.' s)

-- Not the second or a later byte of a character's UTF-8 encoding.
abbrev pub begins_char : ℕ → Bool
begins_char b = not (leb 0x80 b && leb b 0xBF)

module _ {Version : Type 0} (semver : Semver Version) where
  -- The second try, where the first one failed.
  unfoldable pub parse_stripped : Bytes → Option Version → Option Version
  unfolding is_two_part
  parse_stripped s (some v) = some v
  parse_stripped s none = if is_two_part s then semver.parse (s ++ codes ".0") else none

  unfoldable pub parse_version_core : Bytes → Option Version
  unfolding strip_v parse_stripped
  parse_version_core core = parse_stripped (strip_v core) (semver.parse (strip_v core))

  -- One turn of the loop of `tag_namespace`, at a `rest` with its parsed version.
  abbrev pub namespace_here :
      Bool → Option Version → Bytes → Bytes → Option (Bytes × Bytes) → Option (Bytes × Bytes)
  namespace_here true (some v) before_ rest later = some (before_, rest)
  namespace_here true none before_ rest later = later
  namespace_here false _ before_ rest later = later

  -- The loop of `tag_namespace`, after the text `before_`.
  unfoldable pub namespace_from : Bytes → Bytes → Option (Bytes × Bytes)
  unfolding parse_version_core
  namespace_from before_ [] = none
  namespace_from before_ (b ∷ s) =
      namespace_here (begins_char b) (parse_version_core (b ∷ s)) before_ (b ∷ s)
        (namespace_from (before_ ++ b ∷ []) s)

  unfoldable pub tag_namespace : Bytes → Option (Bytes × Bytes)
  unfolding namespace_from
  tag_namespace tag = namespace_from [] tag

  -- The tests of the loop of `newer_versions` on a tag's version.
  abbrev pub push_version :
      Version → Bytes → Option Version → List (Version × Bytes) → List (Version × Bytes)
  push_version cur_ver tag none cands = cands
  push_version cur_ver tag (some v) cands =
      if not (is_lt (semver.cmp cur_ver v))
      then cands
      else if not (semver.is_pre cur_ver) && semver.is_pre v
      then cands
      else (v, tag) ∷ cands

  abbrev pub push_namespace :
      Bytes
      → Version
      → Bytes
      → Option (Bytes × Bytes)
      → List (Version × Bytes)
      → List (Version × Bytes)
  push_namespace cur_prefix cur_ver tag none cands = cands
  push_namespace cur_prefix cur_ver tag (some (p, c)) cands =
      if not (bytes_eq p cur_prefix)
      then cands
      else push_version cur_ver tag (parse_version_core c) cands

  unfoldable pub candidates : Bytes → Version → List Bytes → List (Version × Bytes)
  unfolding bytes_eq parse_version_core tag_namespace
  candidates cur_prefix cur_ver [] = []
  candidates cur_prefix cur_ver (tag ∷ tags) =
      push_namespace cur_prefix cur_ver tag (tag_namespace tag) (candidates cur_prefix cur_ver tags)

  -- The stable sort by version, highest first: `x` goes in front of what is not higher.
  unfoldable pub insert_version : Version × Bytes → List (Version × Bytes) → List (Version × Bytes)
  insert_version x [] = x ∷ []
  insert_version x (y ∷ ys) =
      let on = insert_version x ys in if is_lt (semver.cmp (x.0) (y.0)) then y ∷ on else x ∷ y ∷ ys

  unfoldable pub sort_versions : List (Version × Bytes) → List (Version × Bytes)
  unfolding insert_version
  sort_versions [] = []
  sort_versions (x ∷ xs) = insert_version x (sort_versions xs)

  -- `dedup_by` on the tags, after an entry with the tag `last` was kept.
  unfoldable pub dedup_after : Bytes → List (Version × Bytes) → List (Version × Bytes)
  unfolding bytes_eq
  dedup_after last [] = []
  dedup_after last (x ∷ xs) =
      let same = dedup_after last xs in
      let on = dedup_after (x.1) xs in if bytes_eq (x.1) last then same else x ∷ on

  unfoldable pub dedup : List (Version × Bytes) → List (Version × Bytes)
  unfolding dedup_after
  dedup [] = []
  dedup (x ∷ xs) = x ∷ dedup_after (x.1) xs

  abbrev pub tags_of : List (Version × Bytes) → List Bytes
  tags_of xs = map (λ (x : Version × Bytes). x.1) xs

  abbrev pub newer_than : Bytes → Option Version → List Bytes → List Bytes
  newer_than cur_prefix none all_tags = []
  newer_than cur_prefix (some cur_ver) all_tags =
      tags_of (dedup (sort_versions (candidates cur_prefix cur_ver all_tags)))

  abbrev pub newer_in : Option (Bytes × Bytes) → List Bytes → List Bytes
  newer_in none all_tags = []
  newer_in (some (cur_prefix, cur_core)) all_tags =
      newer_than cur_prefix (parse_version_core cur_core) all_tags

  unfoldable pub newer_versions : List Bytes → Bytes → List Bytes
  unfolding candidates sort_versions dedup parse_version_core tag_namespace
  newer_versions all_tags current = newer_in (tag_namespace current) all_tags

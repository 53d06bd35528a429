-- ===== src/Git/Tests.antt =====
-- Runs of the model of git references, and the theorems at small tags. The versions are those of
-- `version_key`, with its order.
use terraform_ls_rs.Base.{
  true, List, [], ◌∷◌, ◌&&◌, ◌≡◌, refl, Bytes, codes, some, ◌==◌, bytes_eq, after?, starts_with,
}
use terraform_ls_rs.Version.Key.{VersionKey, cmp_key, version_key, core_of, parse_i64}
use terraform_ls_rs.Version.Order.{cmp_key-IsTotalOrder}
use terraform_ls_rs.Git.Semver.{Semver}
use terraform_ls_rs.Git.Sha.{sha_matches, looks_like_commit_sha, lower_matches}
use terraform_ls_rs.Git.Ref.{
  parse_version_core, parse_stripped, strip_v, is_two_part, tag_namespace, namespace_from,
  newer_versions, candidates, insert_version, sort_versions, dedup_after, dedup,
}
use terraform_ls_rs.Git.Namespace.{Split, tag_namespace_first}
use terraform_ls_rs.Git.Sorted.{Descending, newer_versions-Descending}
use terraform_ls_rs.Git.Newer.{has, is_upgrade, has-newer_versions}

abbrev keys : Semver VersionKey
keys = record {
  parse = version_key;
  cmp = cmp_key;
  is_pre = λ k. k.stability == 0;
  order = cmp_key-IsTotalOrder;
}

abbrev all_tags : List Bytes
all_tags = codes "a/v1.0" ∷ codes "a/v1.2" ∷ codes "b/v9.9" ∷ codes "a/v1.10" ∷ codes "a/v1.2" ∷ []

program : Unit {0}
unfolding parse_version_core parse_stripped strip_v is_two_part tag_namespace namespace_from
    newer_versions candidates insert_version sort_versions dedup_after dedup version_key cmp_key
    core_of parse_i64 after? bytes_eq sha_matches lower_matches looks_like_commit_sha starts_with
program = tt

newer_in_a : newer_versions keys all_tags (codes "a/v1.0") ≡ codes "a/v1.10" ∷ codes "a/v1.2" ∷ []
unfolding program
newer_in_a = refl

short_matches : sha_matches (codes "9f8e7d6c5b4a") (codes "9F8E7D6C") ≡ true
unfolding program
short_matches = refl

one_parses :
    parse_version_core keys (codes "v1")
    ≡ some (record { major = 1; minor = 0; patch = 0; stability = 1; pre = [] })
unfolding program
one_parses = refl

tag_namespace_first_example : Split keys 2 (codes "a/v1") (tag_namespace keys (codes "a/v1"))
tag_namespace_first_example =
    tag_namespace_first keys (codes "a/") b'v' (codes "1")
      (record { major = 1; minor = 0; patch = 0; stability = 1; pre = [] }) refl one_parses

has-newer_versions_example :
    has (codes "a/v1.2") (newer_versions keys all_tags (codes "a/v1.0"))
    ≡ (has (codes "a/v1.2") all_tags && is_upgrade keys (codes "a/v1.0") (codes "a/v1.2"))
has-newer_versions_example = has-newer_versions keys all_tags (codes "a/v1.0") (codes "a/v1.2")

newer_versions-Descending_example : Descending keys (newer_versions keys all_tags (codes "a/v1.0"))
newer_versions-Descending_example = newer_versions-Descending keys all_tags (codes "a/v1.0")

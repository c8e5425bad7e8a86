-- ===== src/Upgrade/Tests.antt =====
-- Runs of the comparison of version numbers.
use vaporcito.Base.{◌≡◌, refl}
use vaporcito.Base.Bytes.{codes}
use vaporcito.Upgrade.{
  newer, compare_versions, compare_number, release_loop, split, cut, atoi, digits, prerelease_loop,
  bytes_less, equal,
}
use vaporcito.Upgrade.Compare.{opposite, compare_versions-opposite}

release_over_beta : compare_versions (codes "v1.2.3") (codes "1.2.3-beta.2") ≡ newer
unfolding compare_versions compare_number release_loop split cut atoi digits
release_over_beta = refl

same_versions : compare_versions (codes "v1.2-rc.1") (codes "V1.2-rc.01+x") ≡ equal
unfolding compare_versions compare_number release_loop split cut atoi digits prerelease_loop
    bytes_less
same_versions = refl

compare_versions-opposite_example :
    compare_versions (codes "v2.0.0+build") (codes "1.27.0-rc.1")
    ≡ opposite (compare_versions (codes "1.27.0-rc.1") (codes "v2.0.0+build"))
compare_versions-opposite_example =
    compare_versions-opposite (codes "1.27.0-rc.1") (codes "v2.0.0+build")

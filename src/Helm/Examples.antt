-- ===== src/Helm/Examples.antt =====
-- helm.rs: the theorem at the releases of two names.
use mathlib.Core.List.{Memᴰ}
use cubelite.Prelude.{ℕ, ◌≡◌, true, none, List, [], ◌∷◌}
use cubelite.Prelude.Int.{pos}
use cubelite.Prelude.Texts.{Text, codes}
use cubelite.Helm.{HelmReleaseInfo, int_leb, latest_releases}
use cubelite.Helm.Releases.{Ascends, latest_releases_newest}

abbrev release_of : Text → ℕ → HelmReleaseInfo
release_of name revision = record {
  name = name;
  namespace = codes "default";
  revision = pos revision;
  status = none;
  chart = none;
  app_version = none;
  updated = none;
}

abbrev given_releases : List HelmReleaseInfo
given_releases =
    release_of (codes "web") 1
    ∷ release_of (codes "web") 3
    ∷ release_of (codes "db") 2
    ∷ release_of (codes "web") 2
    ∷ []

latest_releases_newest_example :
    Ascends (latest_releases given_releases)
    × ((s : HelmReleaseInfo) → Memᴰ s (latest_releases given_releases) → Memᴰ s given_releases)
    × ((r : HelmReleaseInfo)
        → Memᴰ r given_releases
        → (s : HelmReleaseInfo) × Memᴰ s (latest_releases given_releases)
          × (s.namespace ≡ r.namespace)
          × (s.name ≡ r.name)
          × (int_leb r.revision s.revision ≡ true))
latest_releases_newest_example = latest_releases_newest given_releases

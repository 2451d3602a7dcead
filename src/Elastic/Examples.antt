-- ===== src/Elastic/Examples.antt =====
-- elastic/mod.rs: the theorems at a query that holds the quotes and separators of its surroundings.
use cubelite.Prelude.{◌≡◌, refl, some, ◌∷◌, arith}
use cubelite.Prelude.Texts.{Text, codes, bytes}
use cubelite.Elastic.Links.{clean_base, discover_link}
use cubelite.Elastic.Discover.{read_link, read_link-discover_link}

-- An apostrophe, a bang, an ampersand, a percent sign and an accent
abbrev hostile : Text
hostile = 39 ∷ 33 ∷ 38 ∷ 37 ∷ 233 ∷ codes ")),x"

read_link-discover_link_example :
    read_link (clean_base (codes "https://kibana/ ?x")) (
      discover_link
        (codes "https://kibana/ ?x")
        (codes "lucene")
        hostile
        (codes "now-1h")
        (codes "now"))
    ≡ some ((bytes (codes "now-1h"), bytes (codes "now")), (bytes (codes "lucene"), bytes hostile))
unfolding bytes
read_link-discover_link_example =
    read_link-discover_link (codes "https://kibana/ ?x") (codes "lucene") hostile (codes "now-1h")
      (codes "now") refl (omega arith) (omega arith) (omega arith) (omega arith)

-- ===== src/Kubeconfig/Redefined.antt =====
-- kubeconfig.rs: `note_redefinitions`, over the type of a raw body and its `==`.
use cubelite.Prelude.{Bool, ◌&&◌, not, List, [], ◌∷◌, ◌++◌, if◌then◌else◌, any, unwrap_or}
use cubelite.Prelude.Maps.{get, insert}
use cubelite.Prelude.Texts.{Text, text_eq}
use cubelite.Paths.{FilePath, path_eq}

-- `SeenEntries`
abbrev pub SeenEntries : Type 0 → Type 0
SeenEntries V = List (Text × List (FilePath × V))

abbrev pub contains : List Text → Text → Bool
contains names name = any (λ n. text_eq n name) names

abbrev pub earlier_entries : {V : Type 0} → SeenEntries V → Text → List (FilePath × V)
earlier_entries seen name = unwrap_or (get text_eq seen name) []

module _ {V : Type 0} (value_eq : V → V → Bool) where
  unfoldable pub differs : FilePath → V → List (FilePath × V) → Bool
  differs path value earlier = any (λ e. not (path_eq e.0 path) && not (value_eq e.1 value)) earlier

  abbrev pub note_name : List Text → Bool → Text → List Text
  note_name redefined differing name =
      if differing && not (contains redefined name) then redefined ++ name ∷ [] else redefined

  -- The loop, with the names noted so far; the result is the map and the names.
  unfoldable pub note_from :
      SeenEntries V → FilePath → List Text → List (Text × V) → SeenEntries V × List Text
  unfolding differs
  note_from seen path redefined [] = (seen, redefined)
  note_from seen path redefined ((name, value) ∷ entries) =
      let earlier = earlier_entries seen name in
      note_from (insert text_eq seen name (earlier ++ (path, value) ∷ [])) path
        (note_name redefined (differs path value earlier) name) entries

  unfoldable pub note_redefinitions :
      SeenEntries V → FilePath → List (Text × V) → SeenEntries V × List Text
  unfolding note_from
  note_redefinitions seen path entries = note_from seen path [] entries

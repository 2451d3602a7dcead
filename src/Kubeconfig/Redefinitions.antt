-- ===== src/Kubeconfig/Redefinitions.antt =====
-- kubeconfig.rs: which names `note_redefinitions` reports for a file, and what it remembers.
use mathlib.Core.List.{append_assoc, append-nil}
use cubelite.Prelude.{
  ◌≡◌, refl, sym, ◌∙◌, Bool, ◌&&◌, ◌||◌, not, none, some, List, [], ◌∷◌, ◌++◌, arith, any,
  if◌then◌else◌, Bool-cases, inl, inr, filter_map,
}
use cubelite.Prelude.Maps.{insert, get-insert}
use cubelite.Prelude.Texts.{Text, text_eq, text_eq_iff}
use cubelite.Paths.{FilePath, path_eq, path_eq-IsKey}
use cubelite.Kubeconfig.Redefined.{
  SeenEntries, contains, earlier_entries, differs, note_name, note_from, note_redefinitions,
}
use cubelite.Kubeconfig.FirstWins.{text_eq-IsKey, has_name-append, IsDistinct, IsDistinct-append}

-- The bodies that a file gives a name, under the file's path.
abbrev pub bodies_of : {V : Type 0} → FilePath → List (Text × V) → Text → List (FilePath × V)
bodies_of path entries n =
    filter_map (λ e. if text_eq e.0 n then some (path, e.1) else none) entries

module _ {V : Type 0} (value_eq : V → V → Bool) where
  earlier-insert :
      (seen : SeenEntries V) (name n : Text) (entries : List (FilePath × V))
      → earlier_entries (insert text_eq seen name entries) n
        ≡ (if text_eq name n then entries else earlier_entries seen n)
  earlier-insert seen name n entries =
      rw (get-insert text_eq text_eq-IsKey seen name n entries) (ground arith)

  bodies_of-cons :
      (path : FilePath) (name : Text) (value : V) (entries : List (Text × V)) (n : Text)
      → bodies_of path ((name, value) ∷ entries) n ≡ (
          if text_eq name n
          then (path, value) ∷ bodies_of path entries n
          else bodies_of path entries n)
  bodies_of-cons path name value entries n = ground arith

  -- Every entry is remembered under its name, behind the earlier ones.
  note_from-seen :
      (seen : SeenEntries V) (path : FilePath) (redefined : List Text) (entries : List (Text × V))
      (n : Text)
      → earlier_entries (note_from value_eq seen path redefined entries).0 n
        ≡ earlier_entries seen n ++ bodies_of path entries n
  unfolding note_from
  note_from-seen seen path redefined [] n = sym (append-nil (earlier_entries seen n))
  note_from-seen seen path redefined ((name, value) ∷ entries) n =
      let earlier = earlier_entries seen name in
      let longer = earlier ++ (path, value) ∷ [] in
      note_from-seen (insert text_eq seen name longer) path
        (note_name value_eq redefined (differs value_eq path value earlier) name) entries n
      ∙ rw (earlier-insert seen name n longer, bodies_of-cons path name value entries n)
          (elim (Bool-cases (text_eq name n)) [
            | inl h ↦
                rw (h, (text_eq_iff name n).0 h)
                  (append_assoc (earlier_entries seen n) ((path, value) ∷ [])
                    (bodies_of path entries n))
            | inr h ↦ rw h refl
          ])

  -- An entry of this file is no reason to report a later one.
  differs-own :
      (path : FilePath) (value : V) (earlier : List (FilePath × V)) (w : V)
      → differs value_eq path value (earlier ++ (path, w) ∷ [])
        ≡ differs value_eq path value earlier
  unfolding differs
  differs-own path value [] w = rw (path_eq-IsKey.eq_refl path) refl
  differs-own path value (e ∷ earlier) w = ground (arith, differs-own path value earlier w)

  differs-insert :
      (seen : SeenEntries V) (path : FilePath) (name n : Text) (value w : V)
      → differs value_eq path w (
          earlier_entries
            (insert text_eq seen name (earlier_entries seen name ++ (path, value) ∷ []))
            n)
        ≡ differs value_eq path w (earlier_entries seen n)
  differs-insert seen path name n value w =
      rw (earlier-insert seen name n (earlier_entries seen name ++ (path, value) ∷ []))
        (elim (Bool-cases (text_eq name n)) [
          | inl h ↦
              rw (h, (text_eq_iff name n).0 h) (differs-own path w (earlier_entries seen n) value)
          | inr h ↦ rw h refl
        ])

  abbrev noted : SeenEntries V → FilePath → List (Text × V) → Text → Bool
  noted seen path entries n =
      any (λ e. text_eq e.0 n && differs value_eq path e.1 (earlier_entries seen n)) entries

  -- A name is to be reported: one of its bodies is not equal to an earlier one, of another file.
  abbrev pub reported : SeenEntries V → FilePath → List (Text × V) → Text → Bool
  reported seen path entries n =
      any
        (λ e.
          text_eq e.0 n
          && any (λ w. not (path_eq w.0 path) && not (value_eq w.1 e.1)) (earlier_entries seen n))
        entries

  noted-reported :
      (seen : SeenEntries V) (path : FilePath) (entries : List (Text × V)) (n : Text)
      → noted seen path entries n ≡ reported seen path entries n
  unfolding differs
  noted-reported seen path entries n = refl

  noted-insert :
      (seen : SeenEntries V) (path : FilePath) (name n : Text) (value : V)
      (entries : List (Text × V))
      → noted
          (insert text_eq seen name (earlier_entries seen name ++ (path, value) ∷ []))
          path
          entries
          n
        ≡ noted seen path entries n
  noted-insert seen path name n value [] = refl
  noted-insert seen path name n value (e ∷ entries) =
      rw (differs-insert seen path name n value e.1, noted-insert seen path name n value entries)
        refl

  contains-note_name :
      (redefined : List Text) (d : Bool) (name n : Text)
      → contains (note_name value_eq redefined d name) n
        ≡ (contains redefined n || (text_eq name n && d))
  contains-note_name redefined d name n =
      ground (arith, has_name-append (λ (x : Text). x) redefined (name ∷ []) n, text_eq_iff name n)

  note_from-contains :
      (seen : SeenEntries V) (path : FilePath) (redefined : List Text) (entries : List (Text × V))
      (n : Text)
      → contains (note_from value_eq seen path redefined entries).1 n
        ≡ (contains redefined n || noted seen path entries n)
  unfolding note_from
  note_from-contains seen path redefined [] n = ground arith
  note_from-contains seen path redefined ((name, value) ∷ entries) n =
      let d = differs value_eq path value (earlier_entries seen name) in
      note_from-contains
        (insert text_eq seen name (earlier_entries seen name ++ (path, value) ∷ [])) path
        (note_name value_eq redefined d name) entries n
      ∙ rw (contains-note_name redefined d name n, noted-insert seen path name n value entries)
          (ground (arith, text_eq_iff name n))

  note_from-IsDistinct :
      (seen : SeenEntries V) (path : FilePath) (redefined : List Text) (entries : List (Text × V))
      → IsDistinct (λ x. x) redefined
      → IsDistinct (λ x. x) (note_from value_eq seen path redefined entries).1
  unfolding note_from
  note_from-IsDistinct seen path redefined [] h = h
  note_from-IsDistinct seen path redefined ((name, value) ∷ entries) h =
      let d = differs value_eq path value (earlier_entries seen name) in
      note_from-IsDistinct
        (insert text_eq seen name (earlier_entries seen name ++ (path, value) ∷ [])) path
        (note_name value_eq redefined d name) entries
        (elim (Bool-cases (d && not (contains redefined name))) [
          | inl k ↦ rw k (IsDistinct-append (λ x. x) redefined name h (ground arith))
          | inr k ↦ rw k h
        ])

  -- The names reported for a file are, each once, those with a body that differs from an earlier
  -- body of that name in another file, and every entry is remembered under its name, behind the
  -- earlier ones.
  pub note_redefinitions-exact :
      (seen : SeenEntries V) (path : FilePath) (entries : List (Text × V))
      → ((n : Text)
          → contains (note_redefinitions value_eq seen path entries).1 n
            ≡ reported seen path entries n)
        × IsDistinct (λ x. x) (note_redefinitions value_eq seen path entries).1
        × ((n : Text)
            → earlier_entries (note_redefinitions value_eq seen path entries).0 n
              ≡ earlier_entries seen n ++ bodies_of path entries n)
  unfolding note_redefinitions
  note_redefinitions-exact seen path entries = (
    (λ n. note_from-contains seen path [] entries n ∙ noted-reported seen path entries n),
    note_from-IsDistinct seen path [] entries tt,
    note_from-seen seen path [] entries,
  )

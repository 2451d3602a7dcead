-- ===== src/Paths.antt =====
-- Rust's `Path` on Unix, as far as kubeconfig.rs and types.rs use it: comparison by components,
-- `is_absolute`, `join` and `parent`. A path is its text; on Windows the separators differ.
use cubelite.Prelude.{
  ℕ, ◌≡◌, refl, Bool, true, false, ◌&&◌, ◌||◌, not, Option, none, some, List, [], ◌∷◌, ◌++◌, ◌==◌,
  if◌then◌else◌, last, is_empty, filter, arith, sym, ◌∙◌, ◌↔◌, any,
}
use cubelite.Prelude.Texts.{Text, codes, text_eq, text_eq_iff}
use cubelite.Prelude.Maps.{IsKey}

abbrev pub FilePath : Type 0
FilePath = Text

prepend : ℕ → List Text → List Text
prepend c [] = (c ∷ []) ∷ []
prepend c (s ∷ ss) = (c ∷ s) ∷ ss

-- `split(sep)`: never empty
unfoldable pub split : ℕ → Text → List Text
unfolding prepend
split sep [] = [] ∷ []
split sep (c ∷ s) = let rest = split sep s in if c == sep then [] ∷ rest else prepend c rest

unfoldable pub is_absolute : FilePath → Bool
is_absolute [] = false
is_absolute (c ∷ s) = c == 47

-- a segment that `components` passes over
is_junk : Text → Bool
is_junk segment = is_empty segment || text_eq segment (46 ∷ [])

normal_segments : List Text → List Text
unfolding is_junk
normal_segments segments = filter (λ segment. not (is_junk segment)) segments

-- What `==` compares: whether the path is absolute, its first segment (empty if it is absolute; a
-- relative path keeps it, also if it is `.`), and the other segments that are no junk.
abbrev pub Components : Type 0
Components = Bool × Text × List Text

components_of : Bool → List Text → Components
unfolding normal_segments
components_of absolute [] = (absolute, [], [])
components_of absolute (segment ∷ segments) = (absolute, segment, normal_segments segments)

unfoldable pub components : FilePath → Components
unfolding components_of is_absolute split
components p = components_of (is_absolute p) (split 47 p)

texts_eq : List Text → List Text → Bool
texts_eq [] [] = true
texts_eq [] (t ∷ ts) = false
texts_eq (s ∷ ss) [] = false
texts_eq (s ∷ ss) (t ∷ ts) = text_eq s t && texts_eq ss ts

texts_eq_iff : (ss ts : List Text) → (texts_eq ss ts ≡ true) ↔ (ss ≡ ts)
unfolding texts_eq
texts_eq_iff [] [] = ((λ _. refl), (λ _. refl))
texts_eq_iff [] (t ∷ ts) = ground arith
texts_eq_iff (s ∷ ss) [] = ground arith
texts_eq_iff (s ∷ ss) (t ∷ ts) = ground (arith, text_eq_iff s t, texts_eq_iff ss ts)

bool_eq : Bool → Bool → Bool
bool_eq true b = b
bool_eq false b = not b

components_eq : Components → Components → Bool
unfolding texts_eq bool_eq
components_eq (a, s, ss) (b, t, ts) = bool_eq a b && text_eq s t && texts_eq ss ts

components_eq_iff : (c d : Components) → (components_eq c d ≡ true) ↔ (c ≡ d)
unfolding components_eq
components_eq_iff (true, s, ss) (true, t, ts) = ground (arith, text_eq_iff s t, texts_eq_iff ss ts)
components_eq_iff (true, s, ss) (false, t, ts) = ground arith
components_eq_iff (false, s, ss) (true, t, ts) = ground arith
components_eq_iff (false, s, ss) (false, t, ts) =
    ground (arith, text_eq_iff s t, texts_eq_iff ss ts)

-- `==` on paths: the same components
unfoldable pub path_eq : FilePath → FilePath → Bool
unfolding components components_eq
path_eq p q = components_eq (components p) (components q)

path_eq_iff : (p q : FilePath) → (path_eq p q ≡ true) ↔ (components p ≡ components q)
path_eq_iff p q = unfold path_eq in components_eq_iff (components p) (components q)

pub path_eq-IsKey : IsKey path_eq
path_eq-IsKey = record {
  eq_refl = λ p. (path_eq_iff p p).1 refl;
  eq_symm = λ p q h. (path_eq_iff q p).1 (sym ((path_eq_iff p q).0 h));
  eq_trans = λ p q r h k. (path_eq_iff p r).1 ((path_eq_iff p q).0 h ∙ (path_eq_iff q r).0 k);
}

-- `Path::join`, for the text that follows a directory
unfoldable pub join : FilePath → FilePath → FilePath
unfolding is_absolute
join dir file = if is_absolute file then file else elim (last dir) [
  | none ↦ file
  | some c ↦ if c == 47 then dir ++ file else dir ++ 47 ∷ file
]

keep_unless_junk : Text → List Text → List Text
unfolding is_junk
keep_unless_junk s [] = if is_junk s then [] else s ∷ []
keep_unless_junk s (t ∷ ts) = s ∷ (t ∷ ts)

-- The segments without the junk at their end.
trim_junk : List Text → List Text
unfolding keep_unless_junk
trim_junk [] = []
trim_junk (s ∷ ss) = keep_unless_junk s (trim_junk ss)

drop_last : List Text → List Text
drop_last [] = []
drop_last (s ∷ []) = []
drop_last (s ∷ (t ∷ ts)) = s ∷ drop_last (t ∷ ts)

join_slash : Text → List Text → Text
join_slash s [] = s
join_slash s (t ∷ ts) = s ++ 47 ∷ join_slash t ts

root_or : Text → List Text → FilePath
unfolding join_slash
root_or [] [] = 47 ∷ []
root_or s ss = join_slash s ss

-- the first segment (empty if the path is absolute) and the rest, trimmed
parent_of : Bool → Text → List Text → Option FilePath
unfolding root_or drop_last trim_junk
parent_of true s [] = none
parent_of false [] [] = none
parent_of false (c ∷ s) [] = some []
parent_of absolute s (t ∷ ts) = some (root_or s (trim_junk (drop_last (t ∷ ts))))

parent_segments : Bool → List Text → Option FilePath
unfolding parent_of trim_junk
parent_segments absolute [] = none
parent_segments absolute (s ∷ ss) = parent_of absolute s (trim_junk ss)

-- `Path::parent`
unfoldable pub parent : FilePath → Option FilePath
unfolding parent_segments is_absolute split
parent p = parent_segments (is_absolute p) (split 47 p)

parent_tests :
    (parent (codes "/a/b") ≡ some (codes "/a"))
    × (parent (codes "/a") ≡ some (codes "/"))
    × (parent (codes "/") ≡ none)
    × (parent (codes "a") ≡ some [])
    × (parent (codes "a//b/./") ≡ some (codes "a"))
    × (path_eq (codes "a//b/./") (codes "a/b") ≡ true)
    × (path_eq (codes "/") [] ≡ false)
    × (path_eq (codes "./a") (codes "a") ≡ false)
unfolding parent path_eq text_eq
parent_tests = (refl, refl, refl, refl, refl, refl, refl, refl)

-- Splitting a text without the separator, and one with it.
pub split-plain : (sep : ℕ) (s : Text) → any (λ c. c == sep) s ≡ false → split sep s ≡ s ∷ []
unfolding split
split-plain sep [] h = refl
split-plain sep (c ∷ s) h = rw (split-plain sep s (ground arith)) (ground arith)

pub split-append :
    (sep : ℕ) (s t : Text)
    → any (λ c. c == sep) s ≡ false
    → split sep (s ++ sep ∷ t) ≡ s ∷ split sep t
unfolding split
split-append sep [] t h = ground arith
split-append sep (c ∷ s) t h = rw (split-append sep s t (ground arith)) (ground arith)

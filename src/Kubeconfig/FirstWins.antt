-- ===== src/Kubeconfig/FirstWins.antt =====
-- kubeconfig.rs: the merge of named entries keeps the first entry of each name.
use cubelite.Prelude.{
  ◌≡◌, refl, sym, ap, ◌∙◌, Bool, false, ◌||◌, Option, none, some, List, [], ◌∷◌, ◌++◌, arith, any,
  find, or_else, is_some, if◌then◌else◌, Bool-cases, inl, inr, any-append,
}
use cubelite.Prelude.Maps.{IsKey, get, get-insert}
use cubelite.Prelude.Texts.{Text, text_eq, text_eq_iff}
use cubelite.Paths.{FilePath}
use cubelite.Kubeconfig.Types.{NamedContext}
use cubelite.Kubeconfig.Merge.{has_name, merge_named, Contexts, merge_context, merge_contexts}

pub text_eq-IsKey : IsKey text_eq
text_eq-IsKey = record {
  eq_refl = λ s. (text_eq_iff s s).1 refl;
  eq_symm = λ s t h. (text_eq_iff t s).1 (sym ((text_eq_iff s t).0 h));
  eq_trans = λ s t u h k. (text_eq_iff s u).1 ((text_eq_iff s t).0 h ∙ (text_eq_iff t u).0 k);
}

module _ {ℓ} {A : Type ℓ} where
  pub find-append :
      (p : A → Bool) (xs ys : List A) → find p (xs ++ ys) ≡ or_else (find p xs) (find p ys)
  find-append p [] ys = refl
  find-append p (x ∷ xs) ys = ground (arith, find-append p xs ys)

  pub or_else_assoc : (a b c : Option A) → or_else (or_else a b) c ≡ or_else a (or_else b c)
  or_else_assoc none b c = refl
  or_else_assoc (some a) b c = refl

  pub any-eq-find : (p : A → Bool) (xs : List A) → any p xs ≡ is_some (find p xs)
  any-eq-find p [] = refl
  any-eq-find p (x ∷ xs) = ground (arith, any-eq-find p xs)

module _ {ℓ} {A : Type ℓ} (name : A → Text) where
  -- The first entry named `n`.
  abbrev pub named : Text → List A → Option A
  named n entries = find (λ e. text_eq (name e) n) entries

  pub has_name-eq-named :
      (entries : List A) (n : Text) → has_name name entries n ≡ is_some (named n entries)
  has_name-eq-named entries n = any-eq-find (λ e. text_eq (name e) n) entries

  keep_first :
      (merged : List A) (e : A) (n : Text)
      → named n (if has_name name merged (name e) then merged else merged ++ e ∷ [])
        ≡ or_else (named n merged) (named n (e ∷ []))
  keep_first merged e n = elim (Bool-cases (has_name name merged (name e))) [
    | inl h ↦ rw h (ground (arith, has_name-eq-named merged (name e), text_eq_iff (name e) n, h))
    | inr h ↦ rw h (find-append (λ x. text_eq (name x) n) merged (e ∷ []))
  ]

  -- After the merge a name means what it meant among the earlier entries, and only then what it
  -- means among the new ones.
  pub named-merge_named :
      (merged entries : List A) (n : Text)
      → named n (merge_named name merged entries) ≡ or_else (named n merged) (named n entries)
  unfolding merge_named
  named-merge_named merged [] n = ground arith
  named-merge_named merged (e ∷ entries) n =
      let kept = if has_name name merged (name e) then merged else merged ++ e ∷ [] in
      named-merge_named kept entries n
      ∙ ap (λ o. or_else o (named n entries)) (keep_first merged e n)
      ∙ or_else_assoc (named n merged) (named n (e ∷ [])) (named n entries)
      ∙ ap (or_else (named n merged)) (sym (find-append (λ x. text_eq (name x) n) (e ∷ []) entries))

  -- No two entries have one name.
  abbrev pub IsDistinct : List A → Type 0
  IsDistinct [] = Unit
  IsDistinct (e ∷ entries) = (has_name name entries (name e) ≡ false) × IsDistinct entries

  pub has_name-append :
      (xs ys : List A) (n : Text)
      → has_name name (xs ++ ys) n ≡ (has_name name xs n || has_name name ys n)
  has_name-append xs ys n = any-append (λ e. text_eq (name e) n) xs ys

  pub IsDistinct-append :
      (merged : List A) (e : A)
      → IsDistinct merged
      → has_name name merged (name e) ≡ false
      → IsDistinct (merged ++ e ∷ [])
  IsDistinct-append [] e h k = (refl, tt)
  IsDistinct-append (x ∷ merged) e h k = (
    ground (
      arith,
      has_name-append merged (e ∷ []) (name x),
      h.0,
      text_eq_iff (name e) (name x),
      text_eq_iff (name x) (name e),
    ),
    IsDistinct-append merged e h.1 (ground arith),
  )

  pub merge_named-IsDistinct :
      (merged entries : List A) → IsDistinct merged → IsDistinct (merge_named name merged entries)
  unfolding merge_named
  merge_named-IsDistinct merged [] h = h
  merge_named-IsDistinct merged (e ∷ entries) h =
      elim (Bool-cases (has_name name merged (name e))) [
        | inl k ↦ rw k (merge_named-IsDistinct merged entries h)
        | inr k ↦
            rw k
              (merge_named-IsDistinct (merged ++ e ∷ []) entries (IsDistinct-append merged e h k))
      ]

-- The merged contexts are merged like the other entries.
pub merged-merge_contexts :
    (path : FilePath) (c : Contexts) (contexts : List NamedContext)
    → (merge_contexts path c contexts).merged ≡ merge_named (λ x. x.name) c.merged contexts
unfolding merge_contexts merge_named
merged-merge_contexts path c [] = refl
merged-merge_contexts path c (ctx ∷ contexts) =
    merged-merge_contexts path (merge_context path c ctx) contexts
    ∙ ap (λ l. merge_named (λ x. x.name) l contexts) (one path c ctx)
  where
    one :
        (path : FilePath) (c : Contexts) (ctx : NamedContext)
        → (merge_context path c ctx).merged
          ≡ (if has_name (λ x. x.name) c.merged ctx.name then c.merged else c.merged ++ ctx ∷ [])
    one path c ctx = ground arith

-- Every merged context has a source, and nothing else has.
abbrev pub HasSources : Contexts → Type 0
HasSources c = (n : Text) → has_name (λ x. x.name) c.merged n ≡ is_some (get text_eq c.sources n)

abbrev from_here : FilePath → Bool → Option FilePath
from_here path here = if here then some path else none

source-merge_context :
    (path : FilePath) (c : Contexts) (ctx : NamedContext) (n : Text)
    → HasSources c
    → get text_eq (merge_context path c ctx).sources n
      ≡ or_else (get text_eq c.sources n) (from_here path (text_eq ctx.name n))
unfolding merge_context
source-merge_context path c ctx n h = ground (
  arith,
  h ctx.name,
  h n,
  text_eq_iff ctx.name n,
  get-insert text_eq text_eq-IsKey c.sources ctx.name n path,
)

HasSources-merge_context :
    (path : FilePath) (c : Contexts) (ctx : NamedContext)
    → HasSources c
    → HasSources (merge_context path c ctx)
HasSources-merge_context path c ctx h n = rw (source-merge_context path c ctx n h) (
    unfold merge_context in
    ground (
      arith,
      h n,
      h ctx.name,
      text_eq_iff ctx.name n,
      has_name-append (λ (x : NamedContext). x.name) c.merged (ctx ∷ []) n,
    ))

pub HasSources-merge_contexts :
    (path : FilePath) (c : Contexts) (contexts : List NamedContext)
    → HasSources c
    → HasSources (merge_contexts path c contexts)
unfolding merge_contexts
HasSources-merge_contexts path c [] h = h
HasSources-merge_contexts path c (ctx ∷ contexts) h =
    HasSources-merge_contexts path (merge_context path c ctx) contexts
      (HasSources-merge_context path c ctx h)

-- A context comes from the file that first lists it.
pub source-merge_contexts :
    (path : FilePath) (c : Contexts) (contexts : List NamedContext) (n : Text)
    → HasSources c
    → get text_eq (merge_contexts path c contexts).sources n
      ≡ or_else (get text_eq c.sources n) (from_here path (has_name (λ x. x.name) contexts n))
unfolding merge_contexts
source-merge_contexts path c [] n h = ground arith
source-merge_contexts path c (ctx ∷ contexts) n h =
    source-merge_contexts path (merge_context path c ctx) contexts n
      (HasSources-merge_context path c ctx h)
    ∙ ap (λ o. or_else o (from_here path (has_name (λ x. x.name) contexts n)))
        (source-merge_context path c ctx n h)
    ∙ ground arith

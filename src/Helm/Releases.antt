-- ===== src/Helm/Releases.antt =====
-- helm.rs: what `latest_releases` keeps of the releases that it is given.
use Prim.Native.Nat.Ordering.{lt, eq}
use mathlib.Core.List.{Memᴰ}
use mathlib.Core.Path.{subst}
use cubelite.Prelude.{
  ◌≡◌, refl, sym, ◌∙◌, true, false, Option, none, some, List, [], ◌∷◌, map, if◌then◌else◌, All,
  arith, Bool-cases, inl, inr,
}
use cubelite.Prelude.BTree
use cubelite.Prelude.BTree.{is_eq, IsAscending, get-insert, get_same, get-some, insert-IsAscending}
use cubelite.Prelude.Int.{ℤ, pos, negsuc}
use cubelite.Prelude.Order.{
  IsOrder, then_with-IsOrder, key-IsOrder, text_cmp, text_cmp-IsOrder, cmp_refl, list_cmp,
}
use cubelite.Prelude.Texts.{Text}
use cubelite.Helm.{
  HelmReleaseInfo, ReleaseKey, release_key, key_cmp, int_leb, Latest, keep_latest, keep_all,
  latest_releases,
}

key_cmp-IsOrder : IsOrder key_cmp
unfolding key_cmp
key_cmp-IsOrder =
    then_with-IsOrder (key-IsOrder (λ (k : ReleaseKey). k.0) text_cmp-IsOrder)
      (key-IsOrder (λ (k : ReleaseKey). k.1) text_cmp-IsOrder)

text_cmp_same : (s t : Text) → text_cmp s t ≡ eq → s ≡ t
unfolding list_cmp
text_cmp_same [] [] h = refl
text_cmp_same [] (b ∷ t) h = cc h
text_cmp_same (a ∷ s) [] h = cc h
text_cmp_same (a ∷ s) (b ∷ t) h = ground (arith, text_cmp_same s t)

-- Keys that compare as equal are the same name in the same namespace.
key_cmp_same :
    (a b : HelmReleaseInfo)
    → key_cmp (release_key a) (release_key b) ≡ eq
    → (a.namespace ≡ b.namespace) × (a.name ≡ b.name)
unfolding key_cmp release_key
key_cmp_same a b h =
    ground (arith, text_cmp_same a.namespace b.namespace, text_cmp_same a.name b.name)

int_leb_refl : (a : ℤ) → int_leb a a ≡ true
unfolding int_leb
int_leb_refl (pos a) = ground arith
int_leb_refl (negsuc a) = ground arith

int_leb_trans : (a b c : ℤ) → int_leb a b ≡ true → int_leb b c ≡ true → int_leb a c ≡ true
unfolding int_leb
int_leb_trans a b c h k = ground arith

int_leb_total : (a b : ℤ) → int_leb a b ≡ false → int_leb b a ≡ true
unfolding int_leb
int_leb_total a b h = ground arith

-- An entry of the map: the release of its key, one of those given
abbrev IsEntry : List HelmReleaseInfo → ReleaseKey × HelmReleaseInfo → Type 0
IsEntry given e = (key_cmp e.0 (release_key e.1) ≡ eq) × Memᴰ e.1 given

-- The map has a release of this key with at least this revision.
abbrev HasNewer : Latest → ReleaseKey → ℤ → Type 0
HasNewer m k revision =
    (s : HelmReleaseInfo) × (BTree.get key_cmp m k ≡ some s) × (int_leb revision s.revision ≡ true)

-- Either the map stays, or the release is inserted.
keep_latest-cases :
    (m : Latest) (r : HelmReleaseInfo) (P : Latest → Type 0)
    → ((s : HelmReleaseInfo)
        → BTree.get key_cmp m (release_key r) ≡ some s
        → int_leb r.revision s.revision ≡ true
        → P m)
    → (((s : HelmReleaseInfo)
          → BTree.get key_cmp m (release_key r) ≡ some s
          → int_leb s.revision r.revision ≡ true)
        → P (BTree.insert key_cmp m (release_key r) r))
    → P (keep_latest m r)
unfolding keep_latest
keep_latest-cases m r P stays inserted = from (BTree.get key_cmp m (release_key r)) stays inserted
  where
    new : Latest
    new = BTree.insert key_cmp m (release_key r) r

    from :
        (o : Option HelmReleaseInfo)
        → ((s : HelmReleaseInfo) → o ≡ some s → int_leb r.revision s.revision ≡ true → P m)
        → (((s : HelmReleaseInfo) → o ≡ some s → int_leb s.revision r.revision ≡ true) → P new)
        → P (elim o [
          | some existing ↦ if int_leb r.revision existing.revision then m else new
          | none ↦ new
        ])
    from none stay put = put (λ s k. cc k)
    from (some s) stay put = elim (Bool-cases (int_leb r.revision s.revision)) [
      | inl f ↦ rw f (stay s refl f)
      | inr f ↦ rw f (
          put (λ t k.
            let same : s ≡ t = cc k in
            subst (λ (x : HelmReleaseInfo). int_leb x.revision r.revision ≡ true) same
              (int_leb_total r.revision s.revision f)))
    ]

keep_latest-IsAscending :
    (m : Latest) (r : HelmReleaseInfo)
    → IsAscending key_cmp m
    → IsAscending key_cmp (keep_latest m r)
keep_latest-IsAscending m r h =
    keep_latest-cases m r (IsAscending key_cmp) (λ s e f. h)
      (λ old. insert-IsAscending key_cmp-IsOrder m (release_key r) r h)

keep_latest-IsEntry :
    (given : List HelmReleaseInfo) (m : Latest) (r : HelmReleaseInfo)
    → Memᴰ r given
    → All (IsEntry given) m
    → All (IsEntry given) (keep_latest m r)
keep_latest-IsEntry given m r here h =
    keep_latest-cases m r (All (IsEntry given)) (λ s e f. h)
      (λ old.
        BTree.All-insert key_cmp (IsEntry given) m (release_key r) r
          (λ j s. (ground (arith, key_cmp-IsOrder.cmp_flip (release_key r) j), here))
          (cmp_refl key_cmp-IsOrder (release_key r), here) h)

-- A release is kept, or a newer one of its key was there.
keep_latest-HasNewer :
    (m : Latest) (r : HelmReleaseInfo) → HasNewer (keep_latest m r) (release_key r) r.revision
keep_latest-HasNewer m r =
    keep_latest-cases m r (λ n. HasNewer n (release_key r) r.revision) (λ s e f. (s, e, f))
      (λ old. (
        r,
        rw
            (
              get-insert key_cmp-IsOrder m (release_key r) (release_key r) r,
              cmp_refl key_cmp-IsOrder (release_key r),
            )
            refl,
        int_leb_refl r.revision,
      ))

-- No later release takes away a newer one.
keep_latest-keeps :
    (m : Latest) (r : HelmReleaseInfo) (k : ReleaseKey) (revision : ℤ)
    → HasNewer m k revision
    → HasNewer (keep_latest m r) k revision
keep_latest-keeps m r k revision (s, e, f) =
    keep_latest-cases m r (λ n. HasNewer n k revision) (λ t g h. (s, e, f)) inserted
  where
    same_key :
        is_eq (key_cmp (release_key r) k) ≡ true
        → BTree.get key_cmp m (release_key r) ≡ BTree.get key_cmp m k
    same_key h = get_same key_cmp-IsOrder m (release_key r) k h

    inserted :
        ((t : HelmReleaseInfo)
          → BTree.get key_cmp m (release_key r) ≡ some t
          → int_leb t.revision r.revision ≡ true)
        → HasNewer (BTree.insert key_cmp m (release_key r) r) k revision
    inserted old = elim (Bool-cases (is_eq (key_cmp (release_key r) k))) [
      | inl same ↦ (
        r,
        rw (get-insert key_cmp-IsOrder m (release_key r) k r, same) refl,
        int_leb_trans revision s.revision r.revision f (old s (same_key same ∙ e)),
      )
      | inr other ↦ (s, rw (get-insert key_cmp-IsOrder m (release_key r) k r, other) e, f)
    ]

keep_all-keeps :
    (m : Latest) (releases : List HelmReleaseInfo) (k : ReleaseKey) (revision : ℤ)
    → HasNewer m k revision
    → HasNewer (keep_all m releases) k revision
unfolding keep_all
keep_all-keeps m [] k revision h = h
keep_all-keeps m (r ∷ rs) k revision h =
    keep_all-keeps (keep_latest m r) rs k revision (keep_latest-keeps m r k revision h)

keep_all-HasNewer :
    (m : Latest) (releases : List HelmReleaseInfo) {r : HelmReleaseInfo}
    → Memᴰ r releases
    → HasNewer (keep_all m releases) (release_key r) r.revision
unfolding keep_all
keep_all-HasNewer m [] member = elim member [ ]
keep_all-HasNewer m (q ∷ rs) {r} (Memᴰ.head e) =
    keep_all-keeps (keep_latest m q) rs (release_key r) r.revision (
      subst (λ x. HasNewer (keep_latest m q) (release_key x) x.revision) (sym e)
        (keep_latest-HasNewer m q))
keep_all-HasNewer m (q ∷ rs) (Memᴰ.tail member) = keep_all-HasNewer (keep_latest m q) rs member

keep_all-IsEntry :
    (given : List HelmReleaseInfo) (m : Latest) (releases : List HelmReleaseInfo)
    → ((r : HelmReleaseInfo) → Memᴰ r releases → Memᴰ r given)
    → IsAscending key_cmp m
    → All (IsEntry given) m
    → IsAscending key_cmp (keep_all m releases) × All (IsEntry given) (keep_all m releases)
unfolding keep_all
keep_all-IsEntry given m [] sub a h = (a, h)
keep_all-IsEntry given m (r ∷ rs) sub a h =
    keep_all-IsEntry given (keep_latest m r) rs (λ q k. sub q (Memᴰ.tail k))
      (keep_latest-IsAscending m r a) (keep_latest-IsEntry given m r (sub r (Memᴰ.head refl)) h)

-- Each release comes before the later ones, in the order of the namespaces and then of the names.
abbrev pub Ascends : List HelmReleaseInfo → Type 0
Ascends [] = Unit
Ascends (a ∷ l) = All (λ b. key_cmp (release_key a) (release_key b) ≡ lt) l × Ascends l

values-Ascends :
    (given : List HelmReleaseInfo) (m : Latest)
    → IsAscending key_cmp m
    → All (IsEntry given) m
    → Ascends (map (λ (e : ReleaseKey × HelmReleaseInfo). e.1) m)
values-Ascends given [] a h = tt
values-Ascends given ((k, v) ∷ m) a h = (above m a.0 h.1, values-Ascends given m a.1 h.1)
  where
    above :
        (l : Latest)
        → All (λ (e : ReleaseKey × HelmReleaseInfo). key_cmp k e.0 ≡ lt) l
        → All (IsEntry given) l
        → All
            (λ b. key_cmp (release_key v) (release_key b) ≡ lt)
            (map (λ (e : ReleaseKey × HelmReleaseInfo). e.1) l)
    above [] b g = tt
    above ((j, w) ∷ l) b g = (
      ground (
        arith,
        h.0.0,
        g.0.0,
        key_cmp-IsOrder.cmp_eq k (release_key v) j,
        key_cmp-IsOrder.cmp_eq j (release_key w) (release_key v),
        key_cmp-IsOrder.cmp_flip (release_key v) j,
        key_cmp-IsOrder.cmp_flip (release_key v) (release_key w),
      ),
      above l b.1 g.1,
    )

-- The releases kept are among those given, each release given has one kept of its namespace and
-- name with at least its revision, and those kept ascend strictly by namespace and name, so that
-- there is one of each.
pub latest_releases_newest :
    (releases : List HelmReleaseInfo)
    → Ascends (latest_releases releases)
      × ((s : HelmReleaseInfo) → Memᴰ s (latest_releases releases) → Memᴰ s releases)
      × ((r : HelmReleaseInfo)
          → Memᴰ r releases
          → (s : HelmReleaseInfo) × Memᴰ s (latest_releases releases)
            × (s.namespace ≡ r.namespace)
            × (s.name ≡ r.name)
            × (int_leb r.revision s.revision ≡ true))
unfolding latest_releases
latest_releases_newest releases =
    let (ascending, entries) = keep_all-IsEntry releases [] releases (λ q k. k) tt tt in
    (
      values-Ascends releases (keep_all [] releases) ascending entries,
      λ s member. of_given (keep_all [] releases) entries s member,
      λ r member.
          let (s, found, newer) = keep_all-HasNewer [] releases member in
          let (j, same, there, (own, origin)) =
            get-some key_cmp-IsOrder (IsEntry releases) (keep_all [] releases) (release_key r)
              entries found in
          let (ns, name) =
            key_cmp_same s r (
              ground
                (arith, own, same, key_cmp-IsOrder.cmp_eq j (release_key s) (release_key r))) in
          (s, there, ns, name, newer),
    )
  where
    of_given :
        (m : Latest)
        → All (IsEntry releases) m
        → (s : HelmReleaseInfo) → Memᴰ s (map (λ (e : ReleaseKey × HelmReleaseInfo). e.1) m)
        → Memᴰ s releases
    of_given [] h s k = elim k [ ]
    of_given ((j, v) ∷ m) h s (Memᴰ.head e) = subst (λ x. Memᴰ x releases) (sym e) h.0.1
    of_given ((j, v) ∷ m) h s (Memᴰ.tail k) = of_given m h.1 s k

-- ===== src/Prometheus/AlertOrder.antt =====
-- prometheus/alerts.rs: the order of the alerts that are shown, spelled out.
use Prim.Native.Nat.{compare, Ordering}
use Prim.Native.Nat.Ordering.{lt, eq, gt}
use cubelite.Prelude.{
  ℕ, arith, sym, ◌∙◌, List, [], ◌∷◌, map, if◌then◌else◌, ◌<◌, ◌≡◌, ◌⊎◌, inl, inr, refl, ap, true,
  Option, none, some, false,
}
use cubelite.Prelude.Order.{is_le, text_cmp}
use cubelite.Prelude.Lex.{
  then_with-le, then_with-eq, compare-lt, compare-eq, list_cmp-same, text_cmp-eq,
}
use cubelite.Prelude.Texts.{Text, codes, text_eq}
use cubelite.Integration.Target.{to_ascii_lowercase}
use cubelite.K8s.{Labels}
use cubelite.Prometheus.Alerts.{
  Alert, rank_of, severity_rank, active_cmp, entry_cmp, labels_cmp, labels_eq, alert_cmp,
}

-- One start is before another, as text; an alert without a start comes last.
abbrev pub StartsBefore : Option Text → Option Text → Type 0
StartsBefore (some x) (some y) = text_cmp x y ≡ lt
StartsBefore (some x) none = Unit {0}
StartsBefore none y = ⊥

-- The severities, most severe first, each with its place; others are in place 4
abbrev severities : List (Text × ℕ)
severities =
    (codes "critical", 0)
    ∷ (codes "page", 0)
    ∷ (codes "error", 1)
    ∷ (codes "high", 1)
    ∷ (codes "warning", 2)
    ∷ (codes "warn", 2)
    ∷ (codes "info", 3)
    ∷ (codes "low", 3)
    ∷ (codes "none", 5)
    ∷ []

abbrev place_in : List (Text × ℕ) → Text → ℕ
place_in [] s = 4
place_in ((severity, place) ∷ rest) s = if text_eq s severity then place else place_in rest s

-- The place of an alert by its severity, in whatever case it is written
abbrev pub place : Alert → ℕ
place a = elim a.severity [ none ↦ 4 | some s ↦ place_in severities (map to_ascii_lowercase s) ]

severity_rank-place : (a : Alert) → severity_rank a.severity ≡ place a
unfolding severity_rank rank_of
severity_rank-place a = go a.severity
  where
    go :
        (o : Option Text)
        → severity_rank o
          ≡ elim o [ none ↦ 4 | some s ↦ place_in severities (map to_ascii_lowercase s) ]
    go none = refl
    go (some s) = refl

-- The order in which the alerts are shown
abbrev pub Before : Alert → Alert → Type 0
Before a b =
    (place a < place b)
    ⊎ ((place a ≡ place b)
        × (StartsBefore a.active_at b.active_at
            ⊎ ((a.active_at ≡ b.active_at)
                × ((text_cmp a.name b.name ≡ lt)
                    ⊎ ((a.name ≡ b.name) × (is_le (labels_cmp a.labels b.labels) ≡ true))))))

active_cmp-lt : (x y : Option Text) → active_cmp x y ≡ lt → StartsBefore x y
unfolding active_cmp
active_cmp-lt (some x) (some y) h = h
active_cmp-lt (some x) none h = tt
active_cmp-lt none (some y) h = cc h
active_cmp-lt none none h = cc h

active_cmp-eq : (x y : Option Text) → active_cmp x y ≡ eq → x ≡ y
unfolding active_cmp
active_cmp-eq (some x) (some y) h = ap some (text_cmp-eq x y h)
active_cmp-eq (some x) none h = cc h
active_cmp-eq none (some y) h = cc h
active_cmp-eq none none h = refl

pub alert_cmp-Before : (a b : Alert) → is_le (alert_cmp a b) ≡ true → Before a b
unfolding alert_cmp
alert_cmp-Before a b h =
    elim (then_with-le (compare (severity_rank a.severity) (severity_rank b.severity)) _ h) [
      | inl l ↦ inl (
          omega (
            arith,
            compare-lt (severity_rank a.severity) (severity_rank b.severity) l,
            severity_rank-place a,
            severity_rank-place b,
          ))
      | inr (e, h1) ↦ inr (
        sym (severity_rank-place a)
            ∙ compare-eq (severity_rank a.severity) (severity_rank b.severity) e
            ∙ severity_rank-place b,
        (elim (then_with-le (active_cmp a.active_at b.active_at) _ h1) [
          | inl l ↦ inl (active_cmp-lt a.active_at b.active_at l)
          | inr (f, h2) ↦ inr (
            active_cmp-eq a.active_at b.active_at f,
            (elim (then_with-le (text_cmp a.name b.name) _ h2) [
              | inl l ↦ inl l
              | inr (g, h3) ↦ inr (text_cmp-eq a.name b.name g, h3)
            ]),
          )
        ]),
      )
    ]

entry_cmp-eq : (a b : Text × Text) → entry_cmp a b ≡ eq → a ≡ b
entry_cmp-eq (k, v) (l, w) h =
    let (keys, values) = then_with-eq (text_cmp k l) (text_cmp v w) h in
    λ i. (text_cmp-eq k l keys i, text_cmp-eq v w values i)

-- Label sets that a `BTreeSet` takes for the same are the same.
pub labels_eq-same : (a b : Labels) → labels_eq a b ≡ true → a ≡ b
unfolding labels_eq labels_cmp
labels_eq-same a b h = go (labels_cmp a b) refl h
  where
    go :
        (o : Ordering)
        → labels_cmp a b ≡ o
        → elim o [ lt ↦ false | eq ↦ true | gt ↦ false ] ≡ true
        → a ≡ b
    go lt e k = cc k
    go eq e k = list_cmp-same entry_cmp-eq a b e
    go gt e k = cc k

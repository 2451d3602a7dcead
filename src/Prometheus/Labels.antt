-- ===== src/Prometheus/Labels.antt =====
-- prometheus/alerts.rs: the orders of label sets and of alerts.
use Prim.Native.Nat.{Ordering}
use Prim.Native.Nat.Ordering.{lt, eq, gt}
use cubelite.Prelude.{
  ◌≡◌, refl, sym, ap, ◌∙◌, Bool, true, false, Option, none, some, List, [], ◌∷◌, any,
}
use cubelite.Prelude.Order.{
  IsOrder, flip, cmp_refl, compare-IsOrder, key-IsOrder, then_with-IsOrder, list_cmp-IsOrder,
  text_cmp-IsOrder,
}
use cubelite.Prelude.Texts.{Text}
use cubelite.K8s.{Labels}
use cubelite.Prometheus.Alerts.{
  Alert, severity_rank, entry_cmp, labels_cmp, labels_eq, active_cmp, alert_cmp,
}

labels_cmp-IsOrder : IsOrder labels_cmp
unfolding labels_cmp
labels_cmp-IsOrder = list_cmp-IsOrder entry_cmp (
    then_with-IsOrder (key-IsOrder (λ (e : Text × Text). e.0) text_cmp-IsOrder)
      (key-IsOrder (λ (e : Text × Text). e.1) text_cmp-IsOrder))

active_cmp-IsOrder : IsOrder active_cmp
unfolding active_cmp
active_cmp-IsOrder = record { cmp_flip = flips; cmp_eq = eqs; lt_trans = trans }
  where
    flips : (a b : Option Text) → active_cmp b a ≡ flip (active_cmp a b)
    flips none none = refl
    flips none (some y) = refl
    flips (some x) none = refl
    flips (some x) (some y) = text_cmp-IsOrder.cmp_flip x y

    eqs : (a b c : Option Text) → active_cmp a b ≡ eq → active_cmp a c ≡ active_cmp b c
    eqs none none c h = refl
    eqs none (some y) c h = cc
    eqs (some x) none c h = cc
    eqs (some x) (some y) none h = refl
    eqs (some x) (some y) (some z) h = text_cmp-IsOrder.cmp_eq x y z h

    trans : (a b c : Option Text) → active_cmp a b ≡ lt → active_cmp b c ≡ lt → active_cmp a c ≡ lt
    trans none none c h k = cc
    trans none (some y) c h k = cc
    trans (some x) none none h k = cc
    trans (some x) none (some z) h k = cc
    trans (some x) (some y) none h k = refl
    trans (some x) (some y) (some z) h k = text_cmp-IsOrder.lt_trans x y z h k

pub alert_cmp-IsOrder : IsOrder alert_cmp
unfolding alert_cmp
alert_cmp-IsOrder =
    then_with-IsOrder (key-IsOrder (λ (a : Alert). severity_rank a.severity) compare-IsOrder) (
      then_with-IsOrder (key-IsOrder (λ (a : Alert). a.active_at) active_cmp-IsOrder) (
        then_with-IsOrder (key-IsOrder (λ (a : Alert). a.name) text_cmp-IsOrder)
          (key-IsOrder (λ (a : Alert). a.labels) labels_cmp-IsOrder)))

abbrev is_eq : Ordering → Bool
is_eq o = elim o [ lt ↦ false | eq ↦ true | gt ↦ false ]

is_eq-true : (o : Ordering) → is_eq o ≡ true → o ≡ eq
is_eq-true lt h = cc
is_eq-true eq h = refl
is_eq-true gt h = cc

pub labels_eq_refl : (a : Labels) → labels_eq a a ≡ true
unfolding labels_eq
labels_eq_refl a = ap is_eq (cmp_refl labels_cmp-IsOrder a)

-- Equal label sets are equal to the same others, on either side.
labels_eq_right : (s a b : Labels) → labels_eq a b ≡ true → labels_eq s a ≡ labels_eq s b
unfolding labels_eq
labels_eq_right s a b h =
    let same : labels_cmp a s ≡ labels_cmp b s =
      labels_cmp-IsOrder.cmp_eq a b s (is_eq-true (labels_cmp a b) h) in
    ap is_eq
      (labels_cmp-IsOrder.cmp_flip a s ∙ ap flip same ∙ sym (labels_cmp-IsOrder.cmp_flip b s))

pub labels_eq_symm : (a b : Labels) → labels_eq a b ≡ labels_eq b a
unfolding labels_eq
labels_eq_symm a b = from (labels_cmp a b) ∙ ap is_eq (sym (labels_cmp-IsOrder.cmp_flip a b))
  where
    from : (o : Ordering) → is_eq o ≡ is_eq (flip o)
    from lt = refl
    from eq = refl
    from gt = refl

pub any-labels_eq :
    (seen : List Labels) (a b : Labels)
    → labels_eq a b ≡ true
    → any (λ l. labels_eq l a) seen ≡ any (λ l. labels_eq l b) seen
any-labels_eq [] a b h = refl
any-labels_eq (s ∷ seen) a b h = rw (labels_eq_right s a b h, any-labels_eq seen a b h) refl

-- ===== src/Prometheus/Shown.antt =====
-- prometheus/nodes.rs: the chart that is drawn is that of the first candidate with data.
use cubelite.Prelude.{
  ℕ, zero, suc, ◌+◌, ◌<◌, ◌≡◌, refl, sym, ap, ◌∙◌, Bool, true, false, Option, none, some, List, [],
  ◌∷◌, ◌⊎◌, and_then, arith, Bool-cases, inl, inr, unwrap_or,
}
use mathlib.Core.Path.{subst}
use cubelite.Prelude.Results.{Result, ok, err}
use cubelite.Prelude.Texts.{Text}
use cubelite.Prometheus.Responses.{PromError, Series}
use cubelite.Prometheus.Nodes.{
  HostChart, Candidate, HostChartData, get_elem?, fatal, preferred_query, has_data, settle_from,
  settle, attempts_of, first_fatal, run_chart, ok_unless, data_or_failed, ChartPlan, run_plan,
  plan_charts, reference_charts, reference_data, flatten_option,
}

abbrev pub shown : {F : Type 0} → HostChart → Candidate → List (Series F) → HostChartData F
shown chart c series = record {
  chart = chart;
  source = some c.source;
  query = c.query;
  series = series;
  error = none;
}

ok_unless-eq-ok : {A : Type 0} (o : Option PromError) {a b : A} → ok_unless o a ≡ ok b → a ≡ b
ok_unless-eq-ok none h = cc h
ok_unless-eq-ok (some e) h = cc h

settle_from-none :
    {F : Type 0} (show : PromError → Text) (i : ℕ) (e : Option PromError) (answered : Bool)
    (chart : HostChart) (preferred : Text)
    (attempts : List (Candidate × Result PromError (List (Series F)))) {found : HostChartData F}
    → settle_from show i e answered chart preferred attempts ≡ (found, none)
    → found.series ≡ []
unfolding settle_from
settle_from-none show i e answered chart preferred [] h =
    sym (ap (λ (p : HostChartData _ × Option ℕ). (p.0).series) h)
settle_from-none show i e answered chart preferred ((c, ok series) ∷ rest) h =
    elim (Bool-cases (has_data show series)) [
      | inl d ↦
          let k = rw d at h in
          let some_is : some i ≡ none = ap (λ (p : HostChartData _ × Option ℕ). p.1) k in cc some_is
      | inr d ↦ settle_from-none show (suc i) e true chart preferred rest (rw d at h)
    ]
settle_from-none show i e answered chart preferred ((c, err x) ∷ rest) h =
    settle_from-none show (suc i) (some (unwrap_or e x)) answered chart preferred rest h

module _ {F : Type 0} (show : PromError → Text)
    (ask : Text → Result PromError (List (Series F))) where
  abbrev pub drawn : Result PromError (List (Series F)) → Bool
  drawn (ok series) = has_data show series
  drawn (err e) = false

  -- The candidate at an index is drawn, and none before it has data.
  abbrev pub IsFirst : HostChart → List Candidate → HostChartData F → ℕ → Type 0
  IsFirst chart candidates found k =
      (c : Candidate) × (series : List (Series F)) × (get_elem? candidates k ≡ some c)
      × (ask c.query ≡ ok series)
      × (has_data show series ≡ true)
      × (found ≡ shown chart c series)
      × ((m : ℕ) (b : Candidate)
          → m < k
          → get_elem? candidates m ≡ some b
          → drawn (ask b.query) ≡ false)

  IsFirst-skip :
      (chart : HostChart) (c : Candidate) (rest : List Candidate) (found : HostChartData F) (k : ℕ)
      → drawn (ask c.query) ≡ false
      → IsFirst chart rest found k
      → IsFirst chart (c ∷ rest) found (suc k)
  IsFirst-skip chart c rest found k none_drawn (d, series, at, answer, has, same, before) =
      (d, series, at, answer, has, same, earlier)
    where
      earlier :
          (m : ℕ) (b : Candidate)
          → m < suc k
          → get_elem? (c ∷ rest) m ≡ some b
          → drawn (ask b.query) ≡ false
      earlier zero b lt e =
          let s : c ≡ b = cc e in ap (λ (x : Candidate). drawn (ask x.query)) (sym s) ∙ none_drawn
      earlier (suc m) b lt e = before m b (omega (arith, lt)) e

  settle_from-IsFirst :
      (i : ℕ) (e : Option PromError) (answered : Bool) (chart : HostChart) (preferred : Text)
      (candidates : List Candidate) {found : HostChartData F} {j : ℕ}
      → settle_from show i e answered chart preferred (attempts_of show ask candidates)
        ≡ (found, some j)
      → (k : ℕ) × (j ≡ i + k) × IsFirst chart candidates found k
  unfolding settle_from attempts_of
  settle_from-IsFirst i e answered chart preferred [] h = cc h
  settle_from-IsFirst i e answered chart preferred (c ∷ rest) {found} {j} h =
      go (ask c.query) refl (λ e' any. settle_from-IsFirst (suc i) e' any chart preferred rest)
    where
      later :
          drawn (ask c.query) ≡ false
          → (k : ℕ) × (j ≡ suc i + k) × IsFirst chart rest found k
          → (k : ℕ) × (j ≡ i + k) × IsFirst chart (c ∷ rest) found k
      later none_drawn (k, same, is_first) =
          (suc k, omega (arith, same), IsFirst-skip chart c rest found k none_drawn is_first)

      go :
          (r : Result PromError (List (Series F)))
          → ask c.query ≡ r
          → ((e' : Option PromError) (any : Bool)
              → settle_from show (suc i) e' any chart preferred (attempts_of show ask rest)
                ≡ (found, some j)
              → (k : ℕ) × (j ≡ suc i + k) × IsFirst chart rest found k)
          → (k : ℕ) × (j ≡ i + k) × IsFirst chart (c ∷ rest) found k
      go (ok series) q ih = elim (Bool-cases (has_data show series)) [
        | inl d ↦
            let k = rw (q, d, d) at h in
            let same : shown chart c series ≡ found =
              ap (λ (p : HostChartData F × Option ℕ). p.0) k in
            let here : some i ≡ some j = ap (λ (p : HostChartData F × Option ℕ). p.1) k in
            let index : i ≡ j = cc here in
            (
              zero,
              omega (arith, index),
              (c, series, refl, q, d, sym same, λ m b lt e. ground arith),
            )
        | inr d ↦ later (rw (q, d) refl) (ih e true (rw (q, d, d) at h))
      ]
      go (err x) q ih = elim (Bool-cases (fatal x)) [
        | inl d ↦
            let k = rw (q, d) at h in
            let none_is : none ≡ some j = ap (λ (p : HostChartData F × Option ℕ). p.1) k in
            cc none_is
        | inr d ↦ later (rw q refl) (ih (some (unwrap_or e x)) answered (rw (q, d) at h))
      ]

  run_chart-IsFirst :
      (chart : HostChart) (candidates : List Candidate) {found : HostChartData F} {j : ℕ}
      → run_chart show ask chart candidates ≡ ok (found, some j)
      → IsFirst chart candidates found j
  unfolding run_chart settle
  run_chart-IsFirst chart candidates {found} {j} h =
      let same = ok_unless-eq-ok (first_fatal show ask (attempts_of show ask candidates)) h in
      let (n, at, is_first) =
        settle_from-IsFirst 0 none false chart (preferred_query candidates) candidates same in
      subst (λ m. IsFirst chart candidates found m) (omega (arith, at)) is_first

  run_chart-none :
      (chart : HostChart) (candidates : List Candidate) {found : HostChartData F}
      → run_chart show ask chart candidates ≡ ok (found, none)
      → found.series ≡ []
  unfolding run_chart settle
  run_chart-none chart candidates h =
      settle_from-none show 0 none false chart (preferred_query candidates)
        (attempts_of show ask candidates)
        (ok_unless-eq-ok (first_fatal show ask (attempts_of show ask candidates)) h)

  -- A single candidate: nothing is drawn, or its answer is.
  one-shown :
      (chart : HostChart) (c : Candidate) (r : Result PromError (HostChartData F × Option ℕ))
      → run_chart show ask chart (c ∷ []) ≡ r
      → ((data_or_failed show ask chart c.query r).series ≡ [])
        ⊎ ((data_or_failed show ask chart c.query r
              ≡ shown chart c (data_or_failed show ask chart c.query r).series)
            × (ask c.query ≡ ok (data_or_failed show ask chart c.query r).series))
  one-shown chart c (err e) h = inl refl
  one-shown chart c (ok (found, none)) h = inl (run_chart-none chart (c ∷ []) h)
  one-shown chart c (ok (found, some zero)) h =
      let (d, series, at, answer, has, same, before) = run_chart-IsFirst chart (c ∷ []) h in
      let is_c : c ≡ d = cc at in
      inr (
        rw same (ap (λ (x : Candidate). shown chart x series) (sym is_c)),
        ap (λ (x : Candidate). ask x.query) is_c
            ∙ answer
            ∙ ap (λ (x : HostChartData F). ok x.series) (sym same),
      )
  one-shown chart c (ok (found, some (suc n))) h =
      let (d, series, at, answer, has, same, before) = run_chart-IsFirst chart (c ∷ []) h in cc at

  reference_data-shown :
      (chart : HostChart) (refs : List (Option Candidate)) (usage : HostChart)
      (candidates : List Candidate) (u : HostChartData F) (winner : Option ℕ)
      → run_chart show ask usage candidates ≡ ok (u, winner)
      → (o : Option Candidate) → and_then winner (λ i. flatten_option (get_elem? refs i)) ≡ o
      → ((reference_data show ask chart refs o).series ≡ [])
        ⊎ ((i : ℕ) × (c : Candidate) × IsFirst usage candidates u i
            × (get_elem? refs i ≡ some (some c))
            × (reference_data show ask chart refs o
                ≡ shown chart c (reference_data show ask chart refs o).series)
            × (ask c.query ≡ ok (reference_data show ask chart refs o).series))
  unfolding settle settle_from
  reference_data-shown chart refs usage candidates u winner h none q = inl refl
  reference_data-shown chart refs usage candidates u none h (some c) q = cc q
  reference_data-shown chart refs usage candidates u (some i) h (some c) q =
      elim (one-shown chart c (run_chart show ask chart (c ∷ [])) refl) [
        | inl e ↦ inl e
        | inr e ↦
            inr
              (i, c, run_chart-IsFirst usage candidates h, flattened (get_elem? refs i) q, e.0, e.1)
      ]
    where
      flattened : (o : Option (Option Candidate)) → flatten_option o ≡ some c → o ≡ some (some c)
      flattened none e = cc e
      flattened (some o) e = ap some e

  -- The usage that a plan's charts show, and its reference
  abbrev pub Paired :
      ChartPlan → HostChart → List (Option Candidate) → List (HostChartData F) → Type 0
  Paired plan chart refs charts =
      (u : HostChartData F) × (r : HostChartData F) × (charts ≡ u ∷ (r ∷ []))
      × ((u.series ≡ []) ⊎ ((i : ℕ) × IsFirst plan.chart plan.candidates u i))
      × ((r.series ≡ [])
          ⊎ ((i : ℕ) × (c : Candidate) × IsFirst plan.chart plan.candidates u i
              × (get_elem? refs i ≡ some (some c))
              × (r ≡ shown chart c r.series)
              × (ask c.query ≡ ok r.series)))

  -- The run of a plan with a reference, if it is not an error, gives a usage chart and a reference
  -- chart. A usage chart with lines shows the answer to the first candidate that has data; a
  -- reference chart with lines shows the answer to the query of the candidate that is paired with
  -- that one.
  pub run_plan-Paired :
      (plan : ChartPlan) {chart : HostChart} {refs : List (Option Candidate)}
      {charts : List (HostChartData F)}
      → plan.reference ≡ some (chart, refs)
      → run_plan show ask plan ≡ ok charts
      → Paired plan chart refs charts
  unfolding run_plan
  run_plan-Paired plan {chart} {refs} {charts} p h =
      go (run_chart show ask plan.chart plan.candidates) refl h
    where
      usage_shown :
          (u : HostChartData F) (winner : Option ℕ)
          → run_chart show ask plan.chart plan.candidates ≡ ok (u, winner)
          → (u.series ≡ []) ⊎ ((i : ℕ) × IsFirst plan.chart plan.candidates u i)
      usage_shown u none e = inl (run_chart-none plan.chart plan.candidates e)
      usage_shown u (some i) e = inr (i, run_chart-IsFirst plan.chart plan.candidates e)

      go :
          (r : Result PromError (HostChartData F × Option ℕ))
          → run_chart show ask plan.chart plan.candidates ≡ r
          → plan_charts show ask plan r ≡ ok charts
          → Paired plan chart refs charts
      go (err e) q k = cc k
      go (ok (u, winner)) q k =
          let o = and_then winner (λ i. flatten_option (get_elem? refs i)) in
          (
            u,
            reference_data show ask chart refs o,
            sym (cc k)
                ∙ ap
                    (λ (x : Option (HostChart × List (Option Candidate))).
                      u ∷ reference_charts show ask x winner)
                    p,
            usage_shown u winner q,
            reference_data-shown chart refs plan.chart plan.candidates u winner q o refl,
          )

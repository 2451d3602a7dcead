-- ===== src/Prometheus/RefIds.antt =====
-- prometheus/mod.rs: the names of the queries of a Grafana link.
use cubelite.Prelude.{
  ℕ, zero, suc, ◌+◌, ◌-◌, ◌*◌, ◌/◌, ◌%◌, ◌<◌, ◌≡◌, ap, ◌∙◌, [], ◌∷◌, ltb, arith, Bool-cases, inl,
  inr,
}
use cubelite.Prelude.Texts.{Text}
use cubelite.Prometheus.Charts.{ref_id}

-- The number that letters stand for, each a digit from 1 to 26, after a number
abbrev pub letters_value : ℕ → Text → ℕ
letters_value acc [] = acc
letters_value acc (c ∷ s) = letters_value (acc * 26 + (c - b'A' + 1)) s

-- What the loop puts in front of `id` stands for k + 1.
ref_id_onto :
    (fuel k : ℕ) (id : Text)
    → k < fuel
    → letters_value 0 (ref_id fuel k id) ≡ letters_value (k + 1) id
unfolding ref_id
ref_id_onto zero k id h = absurd (omega arith)
ref_id_onto (suc fuel) k id h = elim (Bool-cases (ltb k 26)) [
  | inl e ↦ rw e (ap (λ n. letters_value n id) (ground arith))
  | inr e ↦ rw e (
      ref_id_onto fuel (k / 26 - 1) ((b'A' + k % 26) ∷ id) (ground arith)
      ∙ ap (λ n. letters_value n id) (ground arith))
]

-- The name of the n-th query, counted from 0, stands for n + 1.
pub letters_value-ref_id : (n : ℕ) → letters_value 0 (ref_id (n + 1) n []) ≡ n + 1
letters_value-ref_id n = ref_id_onto (n + 1) n [] (omega arith)

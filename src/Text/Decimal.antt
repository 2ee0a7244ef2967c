-- ===== src/Text/Decimal.antt =====
-- Decimal digits can be read back, so two numbers that print alike are equal.
use text.Mathlib.TextLemmas.{cons-append, nil-append}
use absurd_rust_sdk.Base.{
  ℕ, zero, suc, ◌+◌, ◌-◌, ◌*◌, ◌/◌, ◌%◌, ◌<◌, ◌≡◌, sym, ap, ◌∙◌, code, String, ◌<>◌, arith, inl,
  inr, Bool-cases, ltb,
}
use absurd_rust_sdk.Text.{digit, display_fuel, display}

-- The number that a text of digits stands for, read from the left.
value : ℕ → String → ℕ
value acc String.[] = acc
value acc (String.◌∷◌ c s) = value (acc * 10 + (code c - 48)) s

value-append : (s t : String) (acc : ℕ) → value acc (s <> t) ≡ value (value acc s) t
unfolding value
value-append String.[] t acc = rw nil-append
value-append (String.◌∷◌ c s) t acc = rw cons-append (value-append s t (acc * 10 + (code c - 48)))

value-digit : (d acc : ℕ) → d < 10 → value acc (digit d) ≡ acc * 10 + d
unfolding value
value-digit zero acc h = omega arith
value-digit (suc zero) acc h = omega arith
value-digit (suc (suc zero)) acc h = omega arith
value-digit (suc (suc (suc zero))) acc h = omega arith
value-digit (suc (suc (suc (suc zero)))) acc h = omega arith
value-digit (suc (suc (suc (suc (suc zero))))) acc h = omega arith
value-digit (suc (suc (suc (suc (suc (suc zero)))))) acc h = omega arith
value-digit (suc (suc (suc (suc (suc (suc (suc zero))))))) acc h = omega arith
value-digit (suc (suc (suc (suc (suc (suc (suc (suc zero)))))))) acc h = omega arith
value-digit (suc (suc (suc (suc (suc (suc (suc (suc (suc zero))))))))) acc h = omega arith
value-digit (suc (suc (suc (suc (suc (suc (suc (suc (suc (suc d)))))))))) acc h =
    absurd (omega arith)

value-display_fuel : (f n : ℕ) → n < f → value 0 (display_fuel f n) ≡ n
unfolding display_fuel
value-display_fuel zero n h = absurd (omega arith)
value-display_fuel (suc f) n h = elim (Bool-cases (ltb n 10)) [
  | inl small ↦ rw small (value-digit n 0 (ground arith) ∙ omega arith)
  | inr large ↦
      rw (large, value-append, value-display_fuel f (n / 10) (ground arith))
        (value-digit (n % 10) (n / 10) (omega arith) ∙ omega arith)
]

-- Two numbers with the same decimal text are equal.
pub display-injective : (m n : ℕ) → display m ≡ display n → m ≡ n
unfolding display
display-injective m n e =
    sym (value-display_fuel (suc m) m (omega arith))
    ∙ ap (value 0) e
    ∙ value-display_fuel (suc n) n (omega arith)

-- No number prints as the empty text but, at most, zero.
pub display-empty : (n : ℕ) → display n ≡ "" → n ≡ 0
unfolding display value
display-empty n e = sym (value-display_fuel (suc n) n (omega arith)) ∙ ap (value 0) e

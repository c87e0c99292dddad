-- ===== src/Served/Decimal.antt =====
-- Different numbers have different decimals, and different suffixes different ids.
use mathlib.Core.List.{reverse, reverse-reverse}
use higgs.Base.Text.{Text, text_eq}
use higgs.Served.{digits, decimal, candidate}
use higgs.Base.{
  ◌/◌, ◌++◌, ◌∷◌, [], ◌≡◌, ap, ◌∙◌, sym, refl, arith, length, length-append, ◌+◌, ◌-◌, ◌*◌, ◌<◌,
  suc, zero, ℕ, nat_eq, string_eq,
}

-- What the digits say, the last first.
value : Text → ℕ
value [] = 0
value (c ∷ cs) = (c - 48) + 10 * value cs

value-digits : (fuel n : ℕ) → n < fuel → value (digits fuel n) ≡ n
unfolding value digits
value-digits zero n h = elim h [ ]
value-digits (suc fuel) n h = ground (arith, value-digits fuel (n / 10))

decimal-injective : (i j : ℕ) → decimal i ≡ decimal j → i ≡ j
unfolding decimal
decimal-injective i j e =
    let same : digits (suc i) i ≡ digits (suc j) j =
      sym (reverse-reverse (digits (suc i) i))
      ∙ (ap reverse e ∙ reverse-reverse (digits (suc j) j)) in
    sym (value-digits (suc i) i (omega arith))
    ∙ (ap value same ∙ value-digits (suc j) j (omega arith))

append-cancel : (xs ys zs : Text) → xs ++ ys ≡ xs ++ zs → ys ≡ zs
append-cancel [] ys zs e = e
append-cancel (x ∷ xs) ys zs e = append-cancel xs ys zs (ground (arith, e))

longer : (xs ys : Text) (c : ℕ) → xs ≡ xs ++ c ∷ ys → zero ≡ suc zero
longer xs ys c e = omega (arith, ap length e, length-append xs (c ∷ ys))

suffixed : (model : Text) (i : ℕ) → candidate model (suc i) ≡ model ++ b'-' ∷ decimal (suc i)
unfolding candidate
suffixed model i = ground arith

pub candidate-injective : (model : Text) (i j : ℕ) → candidate model i ≡ candidate model j → i ≡ j
unfolding candidate
candidate-injective model zero zero e = refl
candidate-injective model zero (suc j) e =
    absurd (omega (arith, longer model (decimal (suc j)) b'-' (e ∙ suffixed model j)))
candidate-injective model (suc i) zero e =
    absurd (omega (arith, longer model (decimal (suc i)) b'-' (sym e ∙ suffixed model i)))
candidate-injective model (suc i) (suc j) e = decimal-injective (suc i) (suc j) (
    ground (
      arith,
      append-cancel model (b'-' ∷ decimal (suc i)) (b'-' ∷ decimal (suc j))
          (sym (suffixed model i) ∙ (e ∙ suffixed model j)),
    ))

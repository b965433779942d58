-- ===== src/Airline/Validation/Decision.antt =====
-- The validation decides the rules, and prices the change.
use agents_at_scale.Prelude.{ℕ, ◌≡◌, ◌↔◌, ◌⊎◌, Option, arith}
use agents_at_scale.Prelude.Int.{pos, int_eq, beq_ℤ_iff, ◌+ℤ◌, ◌≤ℤ◌, ◌<ℤ◌, int_laws}
use agents_at_scale.Airline.Errors.{ok}
use agents_at_scale.Airline.Models.{TravelCredit}
use agents_at_scale.Airline.Schemas.{Selection, Snapshot, Validation}
use agents_at_scale.Airline.Validation.{
  check_segment, check_target, check_credit, difference, amount_due, quote,
  validate_rebooking_selection,
}
use agents_at_scale.Airline.Validation.Rules.{
  IsChangeable, IsBookable, CreditFits, check_segment_iff, check_target_iff, check_credit_iff,
}

-- Every rule at once.
pub record IsAllowed (sel : Selection) (snap : Snapshot) (credit : Option TravelCredit) (now : ℕ)
    : Type 0 where
  pub changeable : IsChangeable sel snap
  pub bookable : IsBookable sel snap
  pub credit_fits : CreditFits sel.travel_credit_id sel.travel_credit_amount snap now credit
  pub paid : sel.travel_credit_amount ≡ amount_due snap

module _ (sel : Selection) (snap : Snapshot) (credit : Option TravelCredit) (now : ℕ) where
  parts_of_ok :
      {v : Validation}
      → validate_rebooking_selection sel snap credit now ≡ ok v
      → (check_segment sel snap ≡ ok tt)
        × (check_target sel snap ≡ ok tt)
        × (check_credit sel snap credit now ≡ ok tt)
        × (sel.travel_credit_amount ≡ amount_due snap)
        × (v ≡ quote sel snap)
  unfolding validate_rebooking_selection
  parts_of_ok h = ground (arith, beq_ℤ_iff (amount_due snap) sel.travel_credit_amount)

  ok_of_parts :
      check_segment sel snap ≡ ok tt
      → check_target sel snap ≡ ok tt
      → check_credit sel snap credit now ≡ ok tt
      → sel.travel_credit_amount ≡ amount_due snap
      → validate_rebooking_selection sel snap credit now ≡ ok (quote sel snap)
  unfolding validate_rebooking_selection
  ok_of_parts s t c p = ground (arith, beq_ℤ_iff (amount_due snap) sel.travel_credit_amount)

  -- A selection passes the validation exactly if it meets every rule.
  pub validate-iff-IsAllowed :
      (validate_rebooking_selection sel snap credit now ≡ ok (quote sel snap))
      ↔ IsAllowed sel snap credit now
  validate-iff-IsAllowed = (
    λ h.
        let (s, t, c, p, _) = parts_of_ok h in
        record {
          changeable = (check_segment_iff sel snap).0 s;
          bookable = (check_target_iff sel snap).0 t;
          credit_fits = (check_credit_iff sel snap credit now).0 c;
          paid = p;
        },
    λ a.
        ok_of_parts ((check_segment_iff sel snap).1 a.changeable)
          ((check_target_iff sel snap).1 a.bookable)
          ((check_credit_iff sel snap credit now).1 a.credit_fits) a.paid,
  )

  -- The only record that the validation returns is the quote.
  pub validate-quote :
      {v : Validation}
      → validate_rebooking_selection sel snap credit now ≡ ok v
      → (v ≡ quote sel snap) × IsAllowed sel snap credit now
  validate-quote h =
      let (s, t, c, p, e) = parts_of_ok h in (e, validate-iff-IsAllowed.0 (ok_of_parts s t c p))

-- The amount of credit that the rules ask for, as an equation of the prices.
pub cost_of_IsAllowed :
    (sel : Selection) (snap : Snapshot) (credit : Option TravelCredit) (now : ℕ)
    → IsAllowed sel snap credit now
    → ((sel.travel_credit_amount ≡ pos 0)
        × (snap.target_price +ℤ snap.target_change_fee ≤ℤ snap.old_price))
      ⊎ ((pos 0 <ℤ sel.travel_credit_amount)
          × (snap.old_price +ℤ sel.travel_credit_amount
              ≡ snap.target_price +ℤ snap.target_change_fee))
unfolding amount_due difference
cost_of_IsAllowed sel snap credit now a = grind (int_laws, a.paid)

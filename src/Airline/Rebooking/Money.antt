-- ===== src/Airline/Rebooking/Money.antt =====
-- What a rebooking does to the reservation's total and to the travel credit.
use agents_at_scale.Prelude.{
  ℕ, ◌≡◌, ◌↔◌, refl, ap, subst, ◌∙◌, Option, none, some, arith, find, find-update_self,
}
use agents_at_scale.Prelude.Int.{ℤ, pos, int_eq, beq_ℤ_iff, ◌+ℤ◌, ◌-ℤ◌, ◌≤ℤ◌, int_laws}
use agents_at_scale.Airline.Errors.{ok}
use agents_at_scale.Airline.Models.{Reservation, TravelCredit, TravelCreditStatus}
use agents_at_scale.Airline.Schemas.{Selection, Snapshot, RebookingResult}
use agents_at_scale.Airline.Database.{Database}
use agents_at_scale.Airline.Validation.{quote, difference}
use agents_at_scale.Airline.Validation.Decision.{cost_of_IsAllowed}
use agents_at_scale.Airline.Validation.Rules.{CreditFits}
use agents_at_scale.Airline.Service.{orm, execute_rebooking}
use agents_at_scale.Airline.Rebooking.{Inputs, charged, spent}
use agents_at_scale.Airline.Snapshot.{is_reservation, is_credit}
use agents_at_scale.Airline.Rebooking.Effects.{spent_rows}
use agents_at_scale.Airline.Rebooking.Reading.{Rows, fields_of, CreditSeen}
use agents_at_scale.Airline.Rebooking.Tables.{Booking, execute_rebooking_inv}

-- What a row is after a write to the rows that its own test finds.
pub record Charged (reservation_id : ℕ) (paid : ℤ) (old_price new_price fee : ℤ) (db db' : Database)
    : Type 0 where
  pub before : Reservation
  pub after : Reservation
  pub found : find (is_reservation reservation_id) db.reservations ≡ some before
  pub found_after : find (is_reservation reservation_id) db'.reservations ≡ some after
  -- total' + credit + old price = total + new price + fee
  pub balanced : after.total_amount +ℤ paid +ℤ old_price ≡ before.total_amount +ℤ new_price +ℤ fee
  pub no_dearer : after.total_amount ≤ℤ before.total_amount

module _ (inputs : Inputs) (now : ℕ) (sel : Selection) (db db' : Database)
    {r : RebookingResult} where
  charge_of :
      (b : Booking inputs now sel db db' r)
      → let v = quote sel (fields_of b.rows) in
        let after = charged inputs v b.rows.reservation in
        (after.total_amount +ℤ sel.travel_credit_amount +ℤ b.rows.segment.price_paid
          ≡ b.rows.reservation.total_amount +ℤ b.rows.target.price
            +ℤ b.rows.target_class.change_fee)
        × (after.total_amount ≤ℤ b.rows.reservation.total_amount)
  unfolding quote difference
  charge_of b = (
    omega int_laws,
    grind (int_laws, cost_of_IsAllowed sel (fields_of b.rows) b.credit now b.allowed),
  )

  Booking-Charged :
      (b : Booking inputs now sel db db' r)
      → Charged b.rows.segment.reservation_id sel.travel_credit_amount b.rows.segment.price_paid
          b.rows.target.price b.rows.target_class.change_fee db db'
  unfolding quote
  Booking-Charged b =
      let v = quote sel (fields_of b.rows) in
      let id = b.rows.segment.reservation_id in
      let (balanced, no_dearer) = charge_of b in
      record {
        before = b.rows.reservation;
        after = charged inputs v b.rows.reservation;
        found = b.rows.reservation_found;
        found_after =
            ap (find (is_reservation id)) b.tables.reservations
            ∙ find-update_self (is_reservation id) (charged inputs v) db.reservations (λ y. refl)
                b.rows.reservation_found;
        balanced = balanced;
        no_dearer = no_dearer;
      }

  -- After a rebooking the reservation's total has moved by the price difference and the fee less the
  -- credit that was spent, and it has not risen.
  pub execute_rebooking-Charged :
      execute_rebooking (some (orm inputs)) now sel db ≡ (ok r, db')
      → (rows : Rows sel db) × Charged rows.segment.reservation_id sel.travel_credit_amount
          rows.segment.price_paid rows.target.price rows.target_class.change_fee db db'
  execute_rebooking-Charged done =
      let b = execute_rebooking_inv inputs now sel db db' done in (b.rows, Booking-Charged b)

-- What spending left of a credit.
pub record Spent (credit_id : ℕ) (amount : ℤ) (db db' : Database) : Type 0 where
  pub before : TravelCredit
  pub after : TravelCredit
  pub found : find (is_credit credit_id) db.travel_credits ≡ some before
  pub found_after : find (is_credit credit_id) db'.travel_credits ≡ some after
  pub left : after.remaining_amount +ℤ amount ≡ before.remaining_amount
  pub covered : pos 0 ≤ℤ after.remaining_amount
  pub used_up : (after.status ≡ TravelCreditStatus.used) ↔ (after.remaining_amount ≡ pos 0)

spent_amounts :
    (amount : ℤ) (c : TravelCredit)
    → amount ≤ℤ c.remaining_amount
    → let after = spent amount c in
      (after.remaining_amount +ℤ amount ≡ c.remaining_amount)
      × (pos 0 ≤ℤ after.remaining_amount)
      × ((after.status ≡ TravelCreditStatus.used) ↔ (after.remaining_amount ≡ pos 0))
spent_amounts amount c h = (
  omega int_laws,
  omega int_laws,
  ground (arith, beq_ℤ_iff (c.remaining_amount -ℤ amount) (pos 0)),
)

credit-Spent :
    (credit_id now : ℕ) (amount : ℤ) (snap : Snapshot) (db db' : Database)
    (credit : Option TravelCredit)
    → CreditSeen (some credit_id) db credit
    → CreditFits (some credit_id) amount snap now credit
    → db'.travel_credits ≡ spent_rows (some credit_id) amount db.travel_credits
    → Spent credit_id amount db db'
credit-Spent credit_id now amount snap db db' none seen fits t = elim seen [ ]
credit-Spent credit_id now amount snap db db' (some c) seen fits t =
    let (left, covered, used_up) = spent_amounts amount c fits.enough in
    record {
      before = c;
      after = spent amount c;
      found = seen;
      found_after =
          ap (find (is_credit credit_id)) t
          ∙ find-update_self (is_credit credit_id) (spent amount) db.travel_credits (λ y. refl)
              seen;
      left = left;
      covered = covered;
      used_up = used_up;
    }

module _ (inputs : Inputs) (now : ℕ) (sel : Selection) (db db' : Database)
    {r : RebookingResult} where
  -- After a rebooking with a credit, that credit holds its amount less what was spent, which is not
  -- negative, and it is marked as used exactly if nothing is left.
  pub execute_rebooking-Spent :
      (credit_id : ℕ)
      → sel.travel_credit_id ≡ some credit_id
      → execute_rebooking (some (orm inputs)) now sel db ≡ (ok r, db')
      → Spent credit_id sel.travel_credit_amount db db'
  execute_rebooking-Spent credit_id chosen done =
      let b = execute_rebooking_inv inputs now sel db db' done in
      let snap = fields_of b.rows in
      credit-Spent credit_id now sel.travel_credit_amount snap db db' b.credit
        (subst (λ o. CreditSeen o db b.credit) chosen b.credit_seen)
        (subst (λ o. CreditFits o sel.travel_credit_amount snap now b.credit) chosen
          b.allowed.credit_fits)
        (b.tables.credits
          ∙ ap (λ o. spent_rows o sel.travel_credit_amount db.travel_credits) chosen)

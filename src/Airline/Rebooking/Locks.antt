-- ===== src/Airline/Rebooking/Locks.antt =====
-- The order in which `_lock_fares` takes its locks.
use agents_at_scale.Prelude.{ℕ, ◌≡◌, ◌⊎◌, inl, inr, subst, true, List, [], ◌∷◌, arith, All}
use agents_at_scale.Airline.Errors.{ok}
use agents_at_scale.Airline.Schemas.{Selection, RebookingResult}
use agents_at_scale.Airline.Database.{Database, Session}
use agents_at_scale.Airline.Service.{validate_at}
use agents_at_scale.Airline.Rebooking.{Inputs, key_ltb, key_beq, lock_keys, change_booking}
use agents_at_scale.Airline.Rebooking.Held.{locked_fares, change_booking-lock_keys}

abbrev Before : ℕ × ℕ → ℕ × ℕ → Type 0
Before k l = key_ltb k l ≡ true

Ascending : List (ℕ × ℕ) → Type 0
Ascending [] = Unit
Ascending (k ∷ keys) = All (Before k) keys × Ascending keys

unfoldable pub In : ℕ × ℕ → List (ℕ × ℕ) → Type 0
In k [] = ⊥
In k (l ∷ keys) = (k ≡ l) ⊎ In k keys

-- Holding the lock on `k`, a transaction that takes these locks in turn waits for the one on `l`.
unfoldable pub Waits : ℕ × ℕ → ℕ × ℕ → List (ℕ × ℕ) → Type 0
Waits k l [] = ⊥
Waits k l (m ∷ keys) = (k ≡ m) × In l keys ⊎ Waits k l keys

Before-In : (k l : ℕ × ℕ) (keys : List (ℕ × ℕ)) → All (Before k) keys → In l keys → Before k l
unfolding In
Before-In k l [] all mem = elim mem [ ]
Before-In k l (m ∷ keys) all (inl same) = rw same all.0
Before-In k l (m ∷ keys) all (inr mem) = Before-In k l keys all.1 mem

Waits-Before : (k l : ℕ × ℕ) (keys : List (ℕ × ℕ)) → Ascending keys → Waits k l keys → Before k l
unfolding Ascending Waits
Waits-Before k l [] up waits = elim waits [ ]
Waits-Before k l (m ∷ keys) up (inl (same, mem)) = Before-In k l keys (rw same up.0) mem
Waits-Before k l (m ∷ keys) up (inr waits) = Waits-Before k l keys up.1 waits

lock_keys-Ascending : (k l : ℕ × ℕ) → Ascending (lock_keys k l)
unfolding lock_keys key_ltb key_beq Ascending
lock_keys-Ascending (f, c) (g, d) = ground arith

Before-asym : (k l : ℕ × ℕ) → Before k l → Before l k → ⊥
unfolding key_ltb
Before-asym (f, c) (g, d) before after = ground arith

keys_deadlock_free :
    (old new old' new' k l : ℕ × ℕ)
    → Waits k l (lock_keys old new)
    → ¬ Waits l k (lock_keys old' new')
keys_deadlock_free old new old' new' k l first second =
    Before-asym k l (Waits-Before k l (lock_keys old new) (lock_keys-Ascending old new) first)
      (Waits-Before l k (lock_keys old' new') (lock_keys-Ascending old' new') second)

-- The locks on the fares that two changes take, each of which is committed, cause no deadlock between them: if one
-- of them asks for a fare while it holds another, the other change does not ask for these two the other way
-- round. The order is that of all its locks on fares, from its first read to its last.
pub change_booking_deadlock_free :
    (inputs inputs' : Inputs) (now now' : ℕ) (sel sel' : Selection) (db db' : Database)
    (s s' : Session) {r r' : RebookingResult} (k l : ℕ × ℕ)
    → change_booking inputs (validate_at now) sel (record { db = db; locks = [] }) ≡ ok (r, s)
    → change_booking inputs' (validate_at now') sel' (record { db = db'; locks = [] }) ≡ ok (r', s')
    → Waits k l (locked_fares s)
    → ¬ Waits l k (locked_fares s')
change_booking_deadlock_free inputs inputs' now now' sel sel' db db' s s' k l done done' first
      second =
    let (old, same) = change_booking-lock_keys inputs now sel db s done in
    let (old', same') = change_booking-lock_keys inputs' now' sel' db' s' done' in
    keys_deadlock_free old (sel.new_flight_id, sel.new_fare_class_id) old'
      (sel'.new_flight_id, sel'.new_fare_class_id) k l (subst (Waits k l) same first)
      (subst (Waits l k) same' second)

-- ===== src/Jobs/Store/Keys.antt =====
-- The keys of the job store (langgraph-python/app/platform/redis.py), and which of them can be one.
use Prim.Native.Char.{Char, code}
use Prim.Native.String.append
use Prim.Native.String.{◌∷◌, ◌++◌, count}
use text.Mathlib.TextLemmas.{
  head-eq_of_cons-eq, append_assoc, append_cancel_left, append_cancel_right, append_inj,
  length-append, length-cons,
}
use agents_at_scale.Prelude.{String, ◌≡◌, ◌≢◌, sym, ap, ◌∙◌, arith}

abbrev pub status_key : String → String
status_key job_id = "job:" ++ (job_id ++ ":status")

abbrev pub metadata_key : String → String
metadata_key job_id = "job:" ++ (job_id ++ ":metadata")

abbrev pub timing_key : String → String
timing_key job_id = "job:" ++ (job_id ++ ":timing")

abbrev pub idempotency_key : String → String
idempotency_key key = "airline:idempotency:" ++ key

abbrev pub lock_key : String → String
lock_key conversation = "airline:lock:" ++ conversation

-- Texts that begin otherwise are not one.
heads_apart : (c d : Char) (r t s u : String) → code c ≢ code d → (c ∷ r) ++ s ≢ (d ∷ t) ++ u
heads_apart c d r t s u apart same =
    apart (ap code (head-eq_of_cons-eq (sym (append.cons c r s) ∙ same ∙ append.cons d t u)))

pub job-ne-lock : (s conversation : String) → "job:" ++ s ≢ lock_key conversation
job-ne-lock s conversation =
    heads_apart "j" "a" "ob:" "irline:lock:" s conversation (λ h. absurd (omega arith))

pub job-ne-idempotency : (s key : String) → "job:" ++ s ≢ idempotency_key key
job-ne-idempotency s key =
    heads_apart "j" "a" "ob:" "irline:idempotency:" s key (λ h. absurd (omega arith))

pub idempotency-ne-lock : (key conversation : String) → idempotency_key key ≢ lock_key conversation
idempotency-ne-lock key conversation same =
    heads_apart "i" "l" "dempotency:" "ock:" key conversation (λ h. absurd (omega arith))
      (append_cancel_left "airline:" _ _ (
        sym (append_assoc "airline:" "idempotency:" key)
        ∙ same
        ∙ append_assoc "airline:" "lock:" conversation))

-- A conversation has a lock of its own, and so has each idempotency key its owner.
pub lock_key_inj : (c d : String) → lock_key c ≡ lock_key d → c ≡ d
lock_key_inj c d same = append_cancel_left "airline:lock:" c d same

pub idempotency_key_inj : (k l : String) → idempotency_key k ≡ idempotency_key l → k ≡ l
idempotency_key_inj k l same = append_cancel_left "airline:idempotency:" k l same

-- Nor are texts that end otherwise.
ends_apart : (s t : String) (c d : Char) → code c ≢ code d → s ++ (c ∷ "") ≢ t ++ (d ∷ "")
ends_apart s t c d apart same =
    let long = sym (length-append s (c ∷ "")) ∙ ap count same ∙ length-append t (d ∷ "") in
    apart (
      ap code (
        head-eq_of_cons-eq
          (append_inj same (omega (arith, long, length-cons c "", length-cons d ""))).1))

pub timing-ne-status : (job_id j : String) → timing_key job_id ≢ status_key j
timing-ne-status job_id j same =
    ends_apart (job_id ++ ":timin") (j ++ ":statu") "g" "s" (λ h. absurd (omega arith))
      (append_assoc job_id ":timin" "g"
        ∙ append_cancel_left "job:" (job_id ++ ":timing") (j ++ ":status") same
        ∙ sym (append_assoc j ":statu" "s"))

pub timing-ne-metadata : (job_id j : String) → timing_key job_id ≢ metadata_key j
timing-ne-metadata job_id j same =
    ends_apart (job_id ++ ":timin") (j ++ ":metadat") "g" "a" (λ h. absurd (omega arith))
      (append_assoc job_id ":timin" "g"
        ∙ append_cancel_left "job:" (job_id ++ ":timing") (j ++ ":metadata") same
        ∙ sym (append_assoc j ":metadat" "a"))

pub timing_key_inj : (j i : String) → timing_key j ≡ timing_key i → j ≡ i
timing_key_inj j i same =
    append_cancel_right j i ":timing"
      (append_cancel_left "job:" (j ++ ":timing") (i ++ ":timing") same)

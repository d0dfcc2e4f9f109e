-- ===== src/Publication/Sanitize.antt =====
-- `sanitize_publication_error` of src/repositories/publication_result_repository.ts. The patterns of
-- `redact_sensitive_text` are not modelled: the redaction is an argument.
use driveparts_websockets.Prelude.{
  ℕ, ◌≤◌, ◌≡◌, Bool, ◌&&◌, Option, none, some, String, max, arith, leb, ◌==◌, if◌then◌else◌,
  slice_to, text_length, text_length-slice_to,
}
use driveparts_websockets.Value.{
  Value, boolean, integer, string, object, Fields, get_field, normalized_string,
}
use driveparts_websockets.Publication.{SanitizedError}

-- `a ?? b` on texts that may be undefined.
abbrev or_else : Option String → Option String → Option String
or_else none b = b
or_else (some a) b = some a

abbrev message_or_default : Option String → String
message_or_default none = "publication_failed"
message_or_default (some m) = m

-- `code ? { code } : {}`: an empty text is left out.
abbrev present_text : Option String → Option String
present_text none = none
present_text (some s) = if s == "" then none else some s

retryable_of : Value → Option Bool
retryable_of (boolean b) = some b
retryable_of _ = none

status_code_of : Value → Option ℕ
status_code_of (integer n) = if leb 100 n && leb n 599 then some n else none
status_code_of _ = none

module _ (redact_sensitive_text : String → String) where
  bounded : Option String → ℕ → Option String
  bounded none maximum_length = none
  bounded (some normalized) maximum_length = some (
      slice_to maximum_length
        (redact_sensitive_text (slice_to (max maximum_length 2000) normalized)))

  bounded_text : Value → ℕ → Option String
  unfolding bounded
  bounded_text value maximum_length = bounded (normalized_string value) maximum_length

  sanitize_record : Fields → SanitizedError
  sanitize_record value = record {
    code = present_text (
        or_else (bounded_text (get_field "code" value) 128)
          (bounded_text (get_field "name" value) 128));
    message = message_or_default (bounded_text (get_field "message" value) 500);
    retryable = retryable_of (get_field "retryable" value);
    status_code = status_code_of (get_field "status_code" value);
  }

  unfoldable pub sanitize_publication_error : Value → SanitizedError
  unfolding bounded_text sanitize_record retryable_of status_code_of
  sanitize_publication_error (string s) = record {
    code = none;
    message = message_or_default (bounded_text (string s) 500);
    retryable = none;
    status_code = none;
  }
  sanitize_publication_error (object value) = sanitize_record value
  -- An ObjectId and a Date are records too, with none of the keys that are read.
  sanitize_publication_error _ = record {
    code = none;
    message = "publication_failed";
    retryable = none;
    status_code = none;
  }

  -- The length of an optional text, 0 where it is undefined.
  abbrev size_of : Option String → ℕ
  size_of none = 0
  size_of (some s) = text_length s

  bounded-le : (o : Option String) (n : ℕ) → size_of (bounded o n) ≤ n
  unfolding bounded
  bounded-le none n = omega arith
  bounded-le (some s) n = text_length-slice_to n _

  bounded_text-le : (v : Value) (n : ℕ) → size_of (bounded_text v n) ≤ n
  unfolding bounded_text
  bounded_text-le v n = bounded-le (normalized_string v) n

  message_or_default-le :
      (o : Option String) → size_of o ≤ 500 → text_length (message_or_default o) ≤ 500
  message_or_default-le none h = omega arith
  message_or_default-le (some m) h = h

  present_text-le :
      (a b : Option String)
      → size_of a ≤ 128
      → size_of b ≤ 128
      → size_of (present_text (or_else a b)) ≤ 128
  present_text-le a b h k = ground arith

  -- The bounds that every sanitized error keeps.
  pub record IsBounded (e : SanitizedError) : Type 0 where
    pub code_fits : size_of e.code ≤ 128
    pub message_fits : text_length e.message ≤ 500
    pub status_at_least : (n : ℕ) → e.status_code ≡ some n → 100 ≤ n
    pub status_at_most : (n : ℕ) → e.status_code ≡ some n → n ≤ 599

  status_code_of-bounds : (v : Value) (n : ℕ) → status_code_of v ≡ some n → (100 ≤ n) × (n ≤ 599)
  unfolding status_code_of
  status_code_of-bounds (integer m) n h = ground arith
  status_code_of-bounds _ n h = ground arith

  sanitize_record-IsBounded : (fs : Fields) → IsBounded (sanitize_record fs)
  unfolding sanitize_record
  sanitize_record-IsBounded fs = record {
    code_fits =
        present_text-le _ _ (bounded_text-le (get_field "code" fs) 128)
          (bounded_text-le (get_field "name" fs) 128);
    message_fits = message_or_default-le _ (bounded_text-le (get_field "message" fs) 500);
    status_at_least = λ n h. (status_code_of-bounds (get_field "status_code" fs) n h).0;
    status_at_most = λ n h. (status_code_of-bounds (get_field "status_code" fs) n h).1;
  }

  -- Whatever the stored error and the redaction, the error of a snapshot has a code of at most 128
  -- and a message of at most 500 characters, and a status code between 100 and 599 if it has one.
  pub sanitize_publication_error-IsBounded : (v : Value) → IsBounded (sanitize_publication_error v)
  unfolding sanitize_publication_error
  sanitize_publication_error-IsBounded (object fs) = sanitize_record-IsBounded fs
  sanitize_publication_error-IsBounded (string s) = record {
    code_fits = omega arith;
    message_fits = message_or_default-le _ (bounded_text-le (string s) 500);
    status_at_least = λ n h. ground arith;
    status_at_most = λ n h. ground arith;
  }
  sanitize_publication_error-IsBounded _ = record {
    code_fits = omega arith;
    message_fits = omega arith;
    status_at_least = λ n h. ground arith;
    status_at_most = λ n h. ground arith;
  }

-- ===== src/Timestamp/Tests.antt =====
-- lib.rs: a key id with a timestamp, and the recovery theorem on it.
use nanorix_verify.Prelude.{◌≡◌, refl, arith, true, some, ◌∷◌, ◌++◌, text}
use nanorix_verify.Timestamp.{is_iso8601_shaped, replace, recover_timestamp_from_key_id}
use nanorix_verify.Timestamp.Recovery.{recover_timestamp_from_key_id-encoded}
use nanorix_verify.Prelude.Numbers.{is_digit}

shaped : is_iso8601_shaped (text "2026-01-31") (text "12:30:59Z") ≡ true
unfolding is_iso8601_shaped is_digit
shaped = refl

recover_timestamp_from_key_id-encoded_example :
    recover_timestamp_from_key_id (
      text "nrx-verify-"
      ++ ((text "2026-01-31" ++ b'T' ∷ replace b':' b'-' (text "12:30:59Z")) ++ b'-' ∷ text "ab"))
    ≡ some (text "2026-01-31" ++ b'T' ∷ text "12:30:59Z")
recover_timestamp_from_key_id-encoded_example =
    recover_timestamp_from_key_id-encoded (text "2026-01-31") (text "12:30:59Z") b'a' (text "b")
      shaped (omega arith) (omega arith) (omega arith)

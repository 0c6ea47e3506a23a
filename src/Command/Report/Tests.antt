-- ===== src/Command/Report/Tests.antt =====
-- main.rs: reports on the sample documents.
use nanorix_verify.Prelude.{◌≡◌, true, none, [], ◌∷◌}
use nanorix_verify.Sample.{crates}
use nanorix_verify.Pipeline.Verify.{verify_auditproof}
use nanorix_verify.Pipeline.Verdict.{VerificationResult}
use nanorix_verify.Pipeline.Tests.{signed_document, policy as proof_policy}
use nanorix_verify.Command.{Host, exit_code, proof_verdict}
use nanorix_verify.Command.Report.{print_human}
use nanorix_verify.Command.Report.Ladder.{Level, verdicts, level_code, print_human-exit_code}

abbrev host : Host crates
host = record {
  read = λ path. none;
  open_dir = λ path. none;
  to_lowercase = λ t. t;
  sort_paths = λ ps. ps;
  read_error = λ path. [];
  json_error = λ b. [];
  decode_error = λ t. t;
  jcs_error = [];
  parse_manifest = λ b. none;
  parse_receipt_bundle = λ b. none;
  parse_pubkey_bundle = λ b. none;
  parse_keys = λ v. none;
  now = [];
  write_receipt_bundle = λ path b. true;
  write_pubkey_bundle = λ path b. true;
}

abbrev result : VerificationResult
result = verify_auditproof crates signed_document [] proof_policy

print_human-exit_code_example :
    (level : Level) × (verdicts (print_human result) ≡ level ∷ [])
    × (exit_code (proof_verdict crates host result) ≡ level_code level)
print_human-exit_code_example = print_human-exit_code crates host result

-- ===== src/Command/Setup.antt =====
-- main.rs: the setup of the policy, and that no command runs under an untrusted manifest.
use nanorix_verify.Prelude.{
  ℕ, ◌≡◌, ◌≢◌, refl, sym, ◌∙◌, arith, Option, none, some, Text, Bytes, Option-cases, Bool-cases,
  inl, inr,
}
use nanorix_verify.Libs.{Libs}
use nanorix_verify.Manifest.{TrustChainManifest}
use nanorix_verify.Manifest.Signed.{verify_signature}
use nanorix_verify.Manifest.Trusted.{IsTrusted, verify_signature_iff}
use nanorix_verify.Pipeline.Verdict.{VerifierPolicy}
use nanorix_verify.Command.{Host, Cli, Run, done, failed, exit, ◌>>=◌, exit_code}
use nanorix_verify.Command.Main.{
  is_batch, load_from_file, trust_manifest, setup_trust_chain, setup_customer_activity, setup,
  run_command, main, initial_policy,
}

module _ (lib : Libs) (host : Host lib) where
  open host use {read, parse_manifest}

  -- The manifest of the arguments, signed by the identity that they pin.
  pub record IsTrustRoot (cli : Cli) (path : Text) (m : TrustChainManifest) : Type 0 where
    pub bytes : Bytes
    pub reads : read path ≡ some bytes
    pub parses : parse_manifest bytes ≡ some m
    pub pin : Text
    pub pinned : cli.identity_fingerprint ≡ some pin
    pub trusted : IsTrusted lib m pin

  trust_chain-IsTrustRoot :
      (cli : Cli) (policy final : VerifierPolicy) (path : Text)
      → setup_trust_chain lib host cli policy (some path) ≡ done final
      → (m : TrustChainManifest) × (final.trust_chain ≡ some m) × IsTrustRoot cli path m
  unfolding setup_trust_chain load_from_file trust_manifest
  trust_chain-IsTrustRoot cli policy final path h = elim (Option-cases (read path)) [
    | inl missing ↦ absurd (ground arith)
    | inr (bytes, er) ↦ elim (Option-cases (parse_manifest bytes)) [
      | inl bad ↦ absurd (ground arith)
      | inr (m, em) ↦ elim (Option-cases cli.identity_fingerprint) [
        | inl no_pin ↦ absurd (ground arith)
        | inr (pin, ep) ↦ elim (Option-cases (verify_signature lib m pin)) [
          | inr (e, bad) ↦ absurd (ground arith)
          | inl good ↦ (
            m,
            ground arith,
            record {
              bytes = bytes;
              reads = er;
              parses = em;
              pin = pin;
              pinned = ep;
              trusted = (verify_signature_iff lib m pin).0 good;
            },
          )
        ]
      ]
    ]
  ]

  activity-trust_chain :
      (cli : Cli) (policy final : VerifierPolicy) (activity : Option Text)
      → setup_customer_activity lib host cli policy activity ≡ done final
      → final.trust_chain ≡ policy.trust_chain
  unfolding setup_customer_activity
  activity-trust_chain cli policy final none h = ground arith
  activity-trust_chain cli policy final (some path) h = elim (Option-cases (read path)) [
    | inl missing ↦ absurd (ground arith)
    | inr (bytes, er) ↦ ground arith
  ]

  -- How the setup ends: with a policy, an error, or code 2.
  abbrev IsSetupEnd : Run VerifierPolicy → Type 0
  IsSetupEnd (done policy) = Unit
  IsSetupEnd failed = Unit
  IsSetupEnd (exit code) = code ≡ 2

  trust_chain-IsSetupEnd :
      (cli : Cli) (policy : VerifierPolicy) (path : Option Text)
      → IsSetupEnd (setup_trust_chain lib host cli policy path)
  unfolding setup_trust_chain load_from_file trust_manifest
  trust_chain-IsSetupEnd cli policy none = tt
  trust_chain-IsSetupEnd cli policy (some path) = elim (Option-cases (read path)) [
    | inl missing ↦ rw missing tt
    | inr (bytes, er) ↦ elim (Option-cases (parse_manifest bytes)) [
      | inl bad ↦ rw (er, bad) tt
      | inr (m, em) ↦ elim (Option-cases cli.identity_fingerprint) [
        | inl no_pin ↦ rw (er, em, no_pin) tt
        | inr (pin, ep) ↦ elim (Option-cases (verify_signature lib m pin)) [
          | inl good ↦ rw (er, em, ep, good) tt
          | inr (e, bad) ↦ rw (er, em, ep, bad) refl
        ]
      ]
    ]
  ]

  activity-IsSetupEnd :
      (cli : Cli) (policy : VerifierPolicy) (path : Option Text)
      → IsSetupEnd (setup_customer_activity lib host cli policy path)
  unfolding setup_customer_activity
  activity-IsSetupEnd cli policy none = tt
  activity-IsSetupEnd cli policy (some path) = elim (Bool-cases (is_batch cli.command)) [
    | inl refused ↦ rw refused refl
    | inr allowed ↦ elim (Option-cases (read path)) [
      | inl missing ↦ rw (allowed, missing) tt
      | inr (bytes, er) ↦ rw (allowed, er) tt
    ]
  ]

  bind-IsSetupEnd :
      (r : Run VerifierPolicy) (f : VerifierPolicy → Run VerifierPolicy)
      → IsSetupEnd r
      → ((policy : VerifierPolicy) → IsSetupEnd (f policy))
      → IsSetupEnd (r >>= f)
  bind-IsSetupEnd (done policy) f h k = k policy
  bind-IsSetupEnd failed f h k = tt
  bind-IsSetupEnd (exit code) f h k = h

  setup-IsSetupEnd : (cli : Cli) → IsSetupEnd (setup lib host cli)
  unfolding setup
  setup-IsSetupEnd cli =
      bind-IsSetupEnd (setup_trust_chain lib host cli (initial_policy lib host cli) cli.trust_chain)
        (λ policy. setup_customer_activity lib host cli policy cli.customer_activity)
        (trust_chain-IsSetupEnd cli (initial_policy lib host cli) cli.trust_chain)
        (λ policy. activity-IsSetupEnd cli policy cli.customer_activity)

  setup_done :
      (r : Run VerifierPolicy) (f : VerifierPolicy → Run (Unit {0})) (code : ℕ)
      → IsSetupEnd r
      → exit_code (r >>= f) ≡ code
      → code ≢ 1
      → code ≢ 2
      → (policy : VerifierPolicy) × (r ≡ done policy) × (exit_code (f policy) ≡ code)
  unfolding exit_code
  setup_done (done policy) f code s h one two = (policy, refl, h)
  setup_done failed f code s h one two = absurd (one (sym h))
  setup_done (exit c) f code s h one two = absurd (two (sym h ∙ s))

  bind-done :
      (r : Run VerifierPolicy) (f : VerifierPolicy → Run VerifierPolicy) (final : VerifierPolicy)
      → (r >>= f) ≡ done final
      → (policy : VerifierPolicy) × (r ≡ done policy) × (f policy ≡ done final)
  bind-done (done policy) f final h = (policy, refl, h)
  bind-done failed f final h = absurd (ground arith)
  bind-done (exit c) f final h = absurd (ground arith)

  setup-IsTrustRoot :
      (cli : Cli) (final : VerifierPolicy) (path : Text)
      → setup lib host cli ≡ done final
      → cli.trust_chain ≡ some path
      → (m : TrustChainManifest) × (final.trust_chain ≡ some m) × IsTrustRoot cli path m
  unfolding setup
  setup-IsTrustRoot cli final path h given =
      let (policy, first, second) =
        bind-done (setup_trust_chain lib host cli (initial_policy lib host cli) cli.trust_chain)
          (λ policy. setup_customer_activity lib host cli policy cli.customer_activity) final h in
      let (m, em, root) =
        trust_chain-IsTrustRoot cli (initial_policy lib host cli) policy path
          (rw (← given) first) in
      (m, activity-trust_chain cli policy final cli.customer_activity second ∙ em, root)

  -- With a trust-chain manifest in the arguments, any command that exits with a code other than 1
  -- and 2 has run under that manifest, whose own signature verifies under the identity key with the
  -- fingerprint that the arguments pin.
  pub main-IsTrustRoot :
      (cli : Cli) (path : Text)
      → cli.trust_chain ≡ some path
      → exit_code (main lib host cli) ≢ 1
      → exit_code (main lib host cli) ≢ 2
      → (policy : VerifierPolicy) × (m : TrustChainManifest) × (policy.trust_chain ≡ some m)
        × IsTrustRoot cli path m
        × (exit_code (main lib host cli)
            ≡ exit_code (run_command lib host cli.command cli.proof policy))
  unfolding main
  main-IsTrustRoot cli path given one two =
      let (policy, es, code) =
        setup_done (setup lib host cli) _ _ (setup-IsSetupEnd cli) refl one two in
      let (m, em, root) = setup-IsTrustRoot cli policy path es given in
      (policy, m, em, root, sym code)

-- ===== src/Provenance/Guard.antt =====
-- When `repair_exact_source_messages` may write.
use llm_api_mind.Base.{
  ℕ, String, Option, none, some, true, false, ◌≡◌, refl, sym, ap, ◌∙◌, arith, eq_iff, Bool-cases,
  Option-cases, ◌⊎◌, inl, inr,
}
use llm_api_mind.Storage.Models.{Database}
use llm_api_mind.Provenance.Text.{Text}
use llm_api_mind.Provenance.Audit.{CandidateSet, memory_provenance_audit}
use llm_api_mind.Provenance.Repair.{
  MutationRequest, MutationError, MutationReport, rejected, done, is_digest, lacks_backup,
  validate_mutation_guard, repair_exact_source_messages, previewed,
}

is_digest-eq : (o : Option String) (actual : String) → is_digest o actual ≡ true → o ≡ some actual
is_digest-eq none actual h = cc
is_digest-eq (some expected) actual h = ap some ((eq_iff expected actual).0 h)

done_inj : {d e : Database} {q r : MutationReport} → done d q ≡ done e r → d ≡ e
done_inj h = cc

no_result {ℓ} :
    {A : Type ℓ} {e : MutationError} {d : Database} {r : MutationReport} → rejected e ≡ done d r → A
no_result h = cc

module _ (text : Text) where
  guard_passed :
      (r : MutationRequest) (candidates : CandidateSet)
      → r.dry_run ≡ false
      → validate_mutation_guard text r candidates ≡ none
      → (lacks_backup text r.backup_reference ≡ false)
        × (r.expected_candidate_digest ≡ some candidates.digest_sha256)
  unfolding validate_mutation_guard
  guard_passed r candidates live h =
      let (backup, digest) : (lacks_backup text r.backup_reference ≡ false)
          × (is_digest r.expected_candidate_digest candidates.digest_sha256 ≡ true) =
        ground (arith, live, h) in
      (backup, is_digest-eq r.expected_candidate_digest candidates.digest_sha256 digest)

  abbrev repairs : Database → CandidateSet
  repairs db = (memory_provenance_audit text db none).exact_source_message_repair

  repair_refused :
      (db : Database) (r : MutationRequest) (draw : String → String × ℕ) {e : MutationError}
      → validate_mutation_guard text r (repairs db) ≡ some e
      → repair_exact_source_messages text db r draw ≡ rejected e
  unfolding repair_exact_source_messages
  repair_refused db r draw h = rw (repair_exact_source_messages, h) refl

  repair_previewed :
      (db : Database) (r : MutationRequest) (draw : String → String × ℕ)
      → validate_mutation_guard text r (repairs db) ≡ none
      → r.dry_run ≡ true
      → repair_exact_source_messages text db r draw ≡ done db (previewed text r (repairs db))
  unfolding repair_exact_source_messages
  repair_previewed db r draw h dry = rw (repair_exact_source_messages, h, dry) refl

  -- A repair that returns was either a dry run, which leaves the database as it was, or it was called
  -- with a backup reference that is not blank and with the digest of the candidates that the audit
  -- of the present database finds.
  pub repair_guarded :
      (db db' : Database) (r : MutationRequest) (draw : String → String × ℕ)
      (report : MutationReport)
      → repair_exact_source_messages text db r draw ≡ done db' report
      → (r.dry_run ≡ true) × (db' ≡ db)
        ⊎ (r.dry_run ≡ false)
          × (lacks_backup text r.backup_reference ≡ false)
          × (r.expected_candidate_digest
              ≡ some
                  (memory_provenance_audit text db none).exact_source_message_repair.digest_sha256)
  repair_guarded db db' r draw report h =
      elim (Option-cases (validate_mutation_guard text r (repairs db))) [
        | inl open_ ↦ elim (Bool-cases r.dry_run) [
          | inl dry ↦ inl (dry, sym (done_inj (sym (repair_previewed db r draw open_ dry) ∙ h)))
          | inr live ↦
              let (backup, digest) = guard_passed r (repairs db) live open_ in
              inr (live, backup, digest)
        ]
        | inr (e, shut) ↦ no_result (sym (repair_refused db r draw shut) ∙ h)
      ]

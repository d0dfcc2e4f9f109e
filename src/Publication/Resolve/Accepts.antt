-- ===== src/Publication/Resolve/Accepts.antt =====
-- When a reported result is announced, and with what.
use driveparts_websockets.Prelude.{
  ℕ, ◌≡◌, ◌↔◌, refl, true, false, Option, none, some, List, String, arith, first, eq_iff, opt_eq,
  opt_eq_iff, Option-cases, inl, inr, eq_refl,
}
use driveparts_websockets.Value.{normalized_string}
use driveparts_websockets.Publication.{Status, active, error, same_status, ResultInput}
use driveparts_websockets.Publication.Resolve.{
  Integration, Snapshot, Resolution, accepted, retry, query, Integrations, normalized_document_id,
  terminal, runs_for, snapshot, resolve_terminal, with_id, resolve_document, resolve,
}

abbrev status_text : Status → String
status_text active = "active"
status_text error = "error"

terminal-status_text : (s : Status) → terminal (some (status_text s)) ≡ some s
terminal-status_text active = refl
terminal-status_text error = refl

terminal-eq-some : (o : Option String) (s : Status) → terminal o ≡ some s → o ≡ some (status_text s)
terminal-eq-some none s h = absurd (ground arith)
terminal-eq-some (some t) active h = ground (arith, eq_iff t "active", eq_iff t "error")
terminal-eq-some (some t) error h = ground (arith, eq_iff t "active", eq_iff t "error")

status_text-ne-processing : (s : Status) → opt_eq (some (status_text s)) (some "processing") ≡ false
status_text-ne-processing active = refl
status_text-ne-processing error = refl

same_status-eq : (a b : Status) → same_status a b ≡ true → a ≡ b
same_status-eq active active h = refl
same_status-eq active error h = ground arith
same_status-eq error active h = ground arith
same_status-eq error error h = refl

same_status_refl : (a : Status) → same_status a a ≡ true
same_status_refl active = refl
same_status_refl error = refl

module _ (redact_sensitive_text : String → String) (parse_date : String → Option ℕ) where
  -- The document of the listing confirms the reported result, and the snapshot is of it.
  pub record Confirms (input : ResultInput) (d : Integration) (s : Snapshot) : Type 0 where
    pub status : normalized_string d.status ≡ some (status_text input.status)
    pub execution : normalized_string d.execution_id ≡ some input.execution_id
    pub id : String
    pub identified : normalized_document_id d._id ≡ some id
    pub taken : s ≡ snapshot redact_sensitive_text parse_date input d input.status id

  abbrev outcome : ResultInput → Option Integration → Resolution
  outcome = resolve_document redact_sensitive_text parse_date

  with_id_accepted :
      (input : ResultInput) (d : Integration) (o : Option String) (s : Snapshot)
      → with_id redact_sensitive_text parse_date input d input.status o ≡ accepted s
      → normalized_string d.status ≡ some (status_text input.status)
      → normalized_string d.execution_id ≡ some input.execution_id
      → normalized_document_id d._id ≡ o
      → Confirms input d s
  with_id_accepted input d none s h p q i = absurd (ground arith)
  with_id_accepted input d (some id) s h p q i = record {
    status = p;
    execution = q;
    id = id;
    identified = i;
    taken = ground arith;
  }

  terminal_accepted :
      (input : ResultInput) (d : Integration) (o : Option Status) (s : Snapshot)
      → terminal (normalized_string d.status) ≡ o
      → resolve_terminal redact_sensitive_text parse_date input d o ≡ accepted s
      → Confirms input d s
  terminal_accepted input d none s e h = absurd (ground arith)
  terminal_accepted input d (some st) s e h =
      let id = normalized_document_id d._id in
      let same : st ≡ input.status = ground (arith, same_status-eq st input.status) in
      with_id_accepted input d id s (rw (← same) (ground arith))
        (rw (← same) (terminal-eq-some (normalized_string d.status) st e))
        (ground (arith, opt_eq_iff (normalized_string d.execution_id) (some input.execution_id)))
        refl

  resolve_document_accepted :
      (input : ResultInput) (d : Integration) (s : Snapshot)
      → outcome input (some d) ≡ accepted s
      → Confirms input d s
  unfolding resolve_document
  resolve_document_accepted input d s h =
      terminal_accepted input d (terminal (normalized_string d.status)) s refl (ground arith)

  confirmed :
      (input : ResultInput) (d : Integration) (s : Snapshot)
      → Confirms input d s
      → outcome input (some d) ≡ accepted s
  unfolding resolve_document
  confirmed input d s c = rw (
    c.status,
    status_text-ne-processing input.status,
    terminal-status_text input.status,
    c.execution,
    eq_refl input.execution_id,
    same_status_refl input.status,
    c.identified,
    c.taken,
  )

  -- A reported result is accepted with a snapshot exactly when the listing's document exists, has the
  -- reported status and the reported execution and has an id; the snapshot is then built from that
  -- document.
  pub resolve-accepted_iff :
      (db : Integrations) (input : ResultInput) (docs : List Integration) (s : Snapshot)
      → (resolve redact_sensitive_text parse_date db input docs ≡ accepted s)
        ↔ ((d : Integration) × (first (query input) docs ≡ some d) × Confirms input d s)
  unfolding resolve
  resolve-accepted_iff db input docs s = (
    rw db.find_one_lem (elim (Option-cases (first (query input) docs)) [
      | inl missing ↦ rw missing λ h. absurd (unfold resolve_document in ground arith)
      | inr (d, found) ↦ rw found λ h. (d, refl, resolve_document_accepted input d s h)
    ]),
    λ t. rw (db.find_one_lem, t.1) (confirmed input t.0 s t.2),
  )

  -- A result is to be tried again exactly when the listing's document is still being processed by an
  -- execution of the reported event and delivery.
  resolve-retry_iff :
      (db : Integrations) (input : ResultInput) (docs : List Integration)
      → (resolve redact_sensitive_text parse_date db input docs ≡ retry) ↔ (
          (d : Integration) × (first (query input) docs ≡ some d)
          × (normalized_string d.status ≡ some "processing")
          × (runs_for input (normalized_string d.execution_id) ≡ true))
  unfolding resolve resolve_document
  resolve-retry_iff db input docs = (
    rw db.find_one_lem (elim (Option-cases (first (query input) docs)) [
      | inl missing ↦ rw missing λ h. absurd (ground arith)
      | inr (d, found) ↦ rw found λ h. (
        d,
        refl,
        ground (arith, opt_eq_iff (normalized_string d.status) (some "processing")),
        ground arith,
      )
    ]),
    λ t. rw (db.find_one_lem, t.1, t.2, t.3),
  )

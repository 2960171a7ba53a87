-- ===== src/Audit/Recorded.antt =====
-- A recorded entry is in the trail afterwards, unless it does not fit into its row.
use mentos_backend.Common.{
  ℕ, suc, ◌<◌, ◌≤◌, ◌≡◌, refl, sym, ap, ◌∙◌, false, some, List, [], ◌∷◌, ◌++◌, arith, if◌then◌else◌,
  any, All, All-append, All-map, Bool-cases, inl, inr, same, same-eq,
}
use mentos_backend.Codes.Decimal.{show, cast_integer}
use mentos_backend.Codes.Decimal.RoundTrip.{cast_integer-show}
use mentos_backend.Model.{AuditLog, RecordAuditEntry, World, Request}
use mentos_backend.Orm.{Orm, Documented, reference, orm-eq-reference, ok}
use mentos_backend.Audit.{audit_code, new_log, fits, put_logs, record_entry}

-- The codes in the trail are numbers that the sequence has given out.
abbrev pub IsNumbered : World → Type 0
IsNumbered w =
    All (λ (l : AuditLog). (n : ℕ) × (l.code ≡ audit_code n) × (n ≤ w.audit_sequence)) w.audit_logs

show-injective : (m n : ℕ) → show m ≡ show n → m ≡ n
show-injective m n e =
    let same_cast : some m ≡ some n =
      sym (cast_integer-show m) ∙ ap cast_integer e ∙ cast_integer-show n in
    cc

same-audit_code : (m n : ℕ) → m < n → same (audit_code m) (audit_code n) ≡ false
same-audit_code m n h = elim (Bool-cases (same (show m) (show n))) [
  | inl t ↦ absurd (let e : m ≡ n = show-injective m n (same-eq (show m) (show n) t) in omega arith)
  | inr f ↦ f
]

unused :
    (k : ℕ) (logs : List AuditLog)
    → All (λ (l : AuditLog). (n : ℕ) × (l.code ≡ audit_code n) × (n ≤ k)) logs
    → any (λ l. same l.code (audit_code (suc k))) logs ≡ false
unused k [] h = refl
unused k (l ∷ logs) h =
    let (n, e, below) = h.0 in
    rw (e, same-audit_code n (suc k) (omega arith), unused k logs h.1) refl

-- the trail with one more entry, where it fits
abbrev pub recorded : Request → RecordAuditEntry → World → World
recorded req entry w =
    let log = new_log req (audit_code (suc w.audit_sequence)) entry in
    record (put_logs w (if fits log then w.audit_logs ++ log ∷ [] else w.audit_logs)) {
      audit_sequence = suc w.audit_sequence;
    }

module _ (req : Request) (entry : RecordAuditEntry) (w : World) (numbered : IsNumbered w) where
  abbrev log : AuditLog
  log = new_log req (audit_code (suc w.audit_sequence)) entry

  pub record-reference : record_entry reference req entry w ≡ (ok tt, recorded req entry w)
  unfolding record_entry
  record-reference = elim (Bool-cases (fits log)) [
    | inl t ↦ ground (arith, unused w.audit_sequence w.audit_logs numbered)
    | inr f ↦ ground arith
  ]

  later :
      All
        (λ (l : AuditLog). (n : ℕ) × (l.code ≡ audit_code n) × (n ≤ suc w.audit_sequence))
        w.audit_logs
  later =
      All-map (λ (l : AuditLog). (n : ℕ) × (l.code ≡ audit_code n) × (n ≤ w.audit_sequence))
        (λ (l : AuditLog). (n : ℕ) × (l.code ≡ audit_code n) × (n ≤ suc w.audit_sequence))
        w.audit_logs (λ l (n, e, h). (n, e, omega arith)) numbered

  pub recorded-IsNumbered : IsNumbered (recorded req entry w)
  unfolding new_log
  recorded-IsNumbered = elim (Bool-cases (fits log)) [
    | inl t ↦ rw t (
        All-append
          (λ (l : AuditLog). (n : ℕ) × (l.code ≡ audit_code n) × (n ≤ suc w.audit_sequence))
          w.audit_logs (log ∷ []) later ((suc w.audit_sequence, refl, omega arith), tt))
    | inr f ↦ rw f later
  ]

-- Where the codes in the trail are numbers that the sequence has given out, recording never throws:
-- an entry that fits into its row is appended under the next number, one that does not fit uses up
-- a number and leaves no row, nothing else changes, and the codes are such numbers again.
pub record_entry-recorded :
    (orm : Orm)
    → Documented orm
    → (req : Request) (entry : RecordAuditEntry) (w : World) → IsNumbered w
    → (record_entry orm req entry w ≡ (ok tt, recorded req entry w))
      × IsNumbered (recorded req entry w)
record_entry-recorded orm documented = rw (orm-eq-reference orm documented) (λ req entry w numbered.
    (record-reference req entry w numbered, recorded-IsNumbered req entry w numbered))

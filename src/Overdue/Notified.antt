-- ===== src/Overdue/Notified.antt =====
-- Every overdue invoice is notified once, and how the job and the getter differ.
use mathlib.Core.Path.{subst}
use mentos_backend.Common.{
  ℕ, ◌==◌, ==_refl, Bool, ◌&&◌, ◌||◌, ◌≡◌, ◌∙◌, refl, sym, ap, not, ltb, true, false, any, select,
  change, Bool-cases, inl, inr, none, some, List, [], ◌∷◌, arith, All, All-change, All-map,
}
use mentos_backend.Calendar.{Date, before}
use mentos_backend.Model.{Invoice, InvoiceStatus, is_payable, is_void, World, Request}
use mentos_backend.Orm.{Orm, Documented, reference, orm-eq-reference, ok}
use mentos_backend.Overdue.{
  is_paid, same_date, is_overdue, is_candidate, notify_overdue, notify_all, check_overdue_invoices,
}

same_parts :
    (s : InvoiceStatus) (b d m : Bool)
    → (not (is_paid s) && not (is_void s) && (b || (d && m)))
      ≡ ((is_payable s && b && true) || (is_payable s && d && m))
same_parts InvoiceStatus.due b d m = ground arith
same_parts InvoiceStatus.partial b d m = ground arith
same_parts InvoiceStatus.paid b d m = ground arith
same_parts InvoiceStatus.void b d m = ground arith

-- At every moment of a day, the invoices that count as overdue are those that the job looks for,
-- notified or not, and the unpaid ones that fall due on that very day, from its first millisecond
-- on.
pub is_overdue-is_candidate :
    (today : Date) (millis : ℕ) (i : Invoice)
    → is_overdue today millis i ≡ (
        is_candidate today (record i { overdue_notified_at = none })
        || (is_payable i.status && same_date i.due today && ltb 0 millis))
unfolding is_overdue is_candidate
is_overdue-is_candidate today millis i =
    same_parts i.status (before i.due today) (same_date i.due today) (ltb 0 millis)

-- the rows after the loop
abbrev stamps : ℕ → List Invoice → List Invoice → List Invoice
stamps now [] t = t
stamps now (c ∷ cs) t =
    stamps now cs (change (λ i. i.id == c.id) (λ i. record i { overdue_notified_at = some now }) t)

notify_all_ok :
    (req : Request) (cs : List Invoice) (w : World)
    → ((notify_all reference req cs w).1.invoices ≡ stamps req.now cs w.invoices)
      × ((notify_all reference req cs w).0 ≡ ok tt)
unfolding notify_all notify_overdue
notify_all_ok req [] w = (refl, refl)
notify_all_ok req (c ∷ cs) w = notify_all_ok req cs (notify_overdue reference req c w).1

-- a row that the job would still select is among the rows that are left to notify
abbrev Waits : Date → List Invoice → Invoice → Type 0
Waits today cs i = is_candidate today i ≡ true → any (λ c. c.id == i.id) cs ≡ true

stamps-All :
    (today : Date) (now : ℕ) (cs t : List Invoice)
    → All (Waits today cs) t
    → All (λ i. is_candidate today i ≡ false) (stamps now cs t)
unfolding is_candidate
stamps-All today now [] t h =
    All-map (Waits today []) (λ i. is_candidate today i ≡ false) t
      (λ i w. elim (Bool-cases (is_candidate today i)) [
        | inl t ↦ absurd (let k : false ≡ true = w t in cc)
        | inr f ↦ f
      ])
      h
stamps-All today now (c ∷ cs) t h =
    stamps-All today now cs
      (change (λ i. i.id == c.id) (λ i. record i { overdue_notified_at = some now }) t)
      (All-change (Waits today (c ∷ cs)) (Waits today cs) (λ i. i.id == c.id)
        (λ i. record i { overdue_notified_at = some now }) t (λ i w e. λ k. absurd (ground arith))
        (λ i w e. λ k. let k' : any (λ d. d.id == i.id) (c ∷ cs) ≡ true = w k in ground arith) h)

select-Waits :
    (today : Date) (t : List Invoice) → All (Waits today (select (is_candidate today) t)) t
select-Waits today [] = tt
select-Waits today (i ∷ t) = (
  λ k. ground (arith, ==_refl i.id),
  All-map (Waits today (select (is_candidate today) t))
      (Waits today (select (is_candidate today) (i ∷ t))) t
      (λ j w. λ k.
        let k' : any (λ c. c.id == j.id) (select (is_candidate today) t) ≡ true = w k in
        elim (Bool-cases (is_candidate today i)) [ inl t ↦ ground arith | inr f ↦ ground arith ])
      (select-Waits today t),
)

select_none :
    (today : Date) (t : List Invoice)
    → All (λ i. is_candidate today i ≡ false) t
    → select (is_candidate today) t ≡ []
select_none today [] h = refl
select_none today (i ∷ t) h = ground (arith, select_none today t h.1)

job_ok :
    (req : Request) (w : World)
    → (check_overdue_invoices reference req w).1.invoices
      ≡ stamps req.now (select (is_candidate req.today) w.invoices) w.invoices
unfolding check_overdue_invoices
job_ok req w =
    let (rows, returned) = notify_all_ok req (select (is_candidate req.today) w.invoices) w in
    ground arith

-- no candidate, nothing to do
idle :
    (req : Request) (w : World)
    → select (is_candidate req.today) w.invoices ≡ []
    → check_overdue_invoices reference req w ≡ (ok 0, w)
unfolding check_overdue_invoices notify_all
idle req w none_left = ground arith

again-reference :
    (first_run second_run : Request) (w : World)
    → second_run.today ≡ first_run.today
    → check_overdue_invoices reference second_run (check_overdue_invoices reference first_run w).1
      ≡ (ok 0, (check_overdue_invoices reference first_run w).1)
again-reference first_run second_run w same_day =
    let done : All (λ i. is_candidate first_run.today i ≡ false)
        (check_overdue_invoices reference first_run w).1.invoices =
      subst (All (λ i. is_candidate first_run.today i ≡ false)) (sym (job_ok first_run w)) (
        stamps-All first_run.today first_run.now (select (is_candidate first_run.today) w.invoices)
          w.invoices (select-Waits first_run.today w.invoices)) in
    idle second_run (check_overdue_invoices reference first_run w).1 (
      ap (λ d. select (is_candidate d) (check_overdue_invoices reference first_run w).1.invoices)
        same_day
      ∙ select_none first_run.today (check_overdue_invoices reference first_run w).1.invoices done)

-- A second run of the job on the same day notifies nobody: it finds no invoice and changes nothing.
pub check_overdue_invoices-check_overdue_invoices :
    (orm : Orm)
    → Documented orm
    → (first_run second_run : Request) (w : World) → second_run.today ≡ first_run.today
    → check_overdue_invoices orm second_run (check_overdue_invoices orm first_run w).1
      ≡ (ok 0, (check_overdue_invoices orm first_run w).1)
check_overdue_invoices-check_overdue_invoices orm documented =
    rw (orm-eq-reference orm documented) again-reference

-- ===== src/Model/Billing.antt =====
-- invoices and payments (src/invoices/entities, src/payments/entities)
use mentos_backend.Common.{ℕ, Bool, true, false, Option, List, Text}
use mentos_backend.Calendar.{Date}

pub data InvoiceStatus : Type 0 where
  due partial paid void : InvoiceStatus

abbrev pub is_void : InvoiceStatus → Bool
is_void InvoiceStatus.void = true
is_void _ = false

-- the statuses of In([Due, Partial])
abbrev pub is_payable : InvoiceStatus → Bool
is_payable InvoiceStatus.due = true
is_payable InvoiceStatus.partial = true
is_payable _ = false

pub record InvoiceLineItem : Type 0 where
  pub label : Text
  pub amount : ℕ

pub record Invoice : Type 0 where
  pub id : ℕ
  pub code : Text
  pub tenant_id : ℕ
  pub lease_id : ℕ
  pub property_id : ℕ
  pub issued : Date
  pub due : Date
  pub amount : ℕ
  pub balance : ℕ
  pub status : InvoiceStatus
  pub items : List InvoiceLineItem
  -- milliseconds, as every timestamp
  pub overdue_notified_at : Option ℕ

pub record Payment : Type 0 where
  pub id : ℕ
  pub code : Text
  pub invoice_id : ℕ
  pub tenant_id : ℕ
  pub amount : ℕ
  pub method : Text
  pub date : Date

-- ===== src/Invoice/Update/Messages.antt =====
-- The messages of `update_status`: one round of notifications for each change that is written.
use mathlib.Core.List.{append-nil}
use bitcart.Base.{
  ℕ, ◌≡◌, refl, ap, ◌∙◌, Bool, true, false, none, some, List, [], ◌∷◌, ◌++◌, arith, ◌&&◌, ◌||◌, ltb,
  suc, ◌+◌, if◌then◌else◌, Bool-cases, inl, inr,
}
use bitcart.Invoice.{InvoiceStatus, pending, complete, same, Invoice}
use bitcart.Invoice.Update.{
  Message, State, used_payment, load_one, merge, partial_payment, enter_status,
  process_notifications, is_free, round, may_change, hook_invoice_complete, Call, prepare, change,
  update_status,
}
use bitcart.Invoice.Update.Status.{update_status_lem, status-update_status}

-- The call notes a payment that does not reach the price yet: it is pending like the invoice,
-- carries an amount, and the invoice is free for the method or bound to it.
pub notes_partial : Call → State → Bool
notes_partial c s = elim c.method [
  | none ↦ false
  | some m ↦
      same c.status pending
      && same s.invoice.status pending
      && ltb 0 c.sent_amount
      && is_free (used_payment s.invoice.payments) m.id
]

sent-prepare :
    (now : ℕ) (c : Call) (s : State)
    → (prepare now c s).sent
      ≡ s.sent
        ++ (if notes_partial c s
            then round (prepare now c s).invoice (prepare now c s).email_enabled
            else [])
unfolding prepare merge partial_payment process_notifications load_one notes_partial
sent-prepare now c s = ground (arith, append-nil s.sent)

sent-change :
    (now : ℕ) (c : Call) (s : State)
    → (change now c s).sent
      ≡ s.sent ++ round (change now c s).invoice (change now c s).email_enabled
unfolding change enter_status process_notifications
sent-change now c s = refl

quiet_if_changes :
    (c : Call) (s : State) → may_change s.invoice.status c.status ≡ true → notes_partial c s ≡ false
unfolding may_change notes_partial
quiet_if_changes c s h = ground arith

-- A call sends one round of messages, about the row as it leaves it, if it changes the status or
-- notes a partial payment, and otherwise nothing.
pub sent-update_status :
    (now : ℕ) (c : Call) (s : State)
    → let (changed, s') = update_status now c s in
      s'.sent
      ≡ s.sent ++ (if changed || notes_partial c s then round s'.invoice s'.email_enabled else [])
sent-update_status now c s = elim (Bool-cases (may_change s.invoice.status c.status)) [
  | inl b ↦
      let quiet : (prepare now c s).sent ≡ s.sent =
        sent-prepare now c s ∙ rw (quiet_if_changes c s b) (append-nil s.sent) in
      rw (update_status_lem, b) (rw (sent-change now c (prepare now c s)) (rw quiet))
  | inr b ↦ rw (update_status_lem, b) (sent-prepare now c s)
]

-- How often the plugins are told that the invoice is complete.
unfoldable pub completions : List Message → ℕ
completions [] = 0
completions (hook_invoice_complete ∷ ms) = suc (completions ms)
completions (_ ∷ ms) = completions ms

pub completions-append :
    (xs ys : List Message) → completions (xs ++ ys) ≡ completions xs + completions ys
unfolding completions
completions-append [] ys = omega arith
completions-append (hook_invoice_complete ∷ xs) ys = omega (arith, completions-append xs ys)
completions-append (x ∷ xs) ys = completions-append xs ys

completions-round :
    (i : Invoice) (e : Bool) → completions (round i e) ≡ (if same i.status complete then 1 else 0)
unfolding completions round
completions-round i e = ground arith

partial_is_pending : (c : Call) (s : State) → notes_partial c s ≡ true → s.invoice.status ≡ pending
unfolding notes_partial
partial_is_pending c s h = ground arith

completions-rounds :
    (i : Invoice) (e changed noted : Bool) (old new : InvoiceStatus)
    → i.status ≡ (if changed then new else old)
    → (noted ≡ true → old ≡ pending)
    → completions (if changed || noted then round i e else [])
      ≡ (if changed && same new complete then 1 else 0)
unfolding completions
completions-rounds i e true noted old new status h = rw (completions-round, status)
completions-rounds i e false true old new status h = rw (completions-round, status, h refl)
completions-rounds i e false false old new status h = refl

-- A call announces the completion exactly once if it completes the invoice, and otherwise never.
pub completions-update_status :
    (now : ℕ) (c : Call) (s : State)
    → let (changed, s') = update_status now c s in
      completions s'.sent
      ≡ completions s.sent + (if changed && same c.status complete then 1 else 0)
completions-update_status now c s =
    let (changed, s') = update_status now c s in
    rw (sent-update_status now c s, completions-append)
      (ap (λ n. completions s.sent + n)
        (completions-rounds s'.invoice s'.email_enabled changed (notes_partial c s) s.invoice.status
          c.status (status-update_status now c s).1 (partial_is_pending c s)))

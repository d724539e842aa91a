-- ===== src/Create/Submit.antt =====
-- create-lock-modal.component.ts: submitting the form of a lock.
use release_radar.Prelude.{◌≡◌, true, String, some, ◌∷◌, arith}
use release_radar.Create.{
  Clock, LockForm, LockBody, request, can_submit, body_of, submit, on_refused,
}

-- A form that may be submitted, with valid dates, calls once, however often it is submitted before the
-- answer; once the call is refused, it has all its input and may be submitted again.
pub submit_lem :
    (clock : Clock) (f : LockForm) (body : LockBody) (message : String)
    → can_submit f ≡ true
    → body_of clock f.inputs ≡ some body
    → (submit clock (submit clock f) ≡ submit clock f)
      × ((submit clock f).calls ≡ request f.edit_id body ∷ f.calls)
      × ((on_refused message (submit clock f)).inputs ≡ f.inputs)
      × (can_submit (on_refused message (submit clock f)) ≡ true)
unfolding submit can_submit on_refused
submit_lem clock f body message h e = rw e (ground arith, ground arith, ground arith, ground arith)

-- ===== src/Create/Rollouts/Sessions.antt =====
-- create-rollout-modal.component.ts: a form over a session of inputs, clicks and answers.
use release_radar.Prelude.{
  ℕ, ◌∙◌, ◌+◌, ◌≤◌, ◌≡◌, inl, inr, true, false, String, Option, none, List, [], ◌∷◌, length, All,
  Option-cases, refl, arith,
}
use release_radar.Create.Rollouts.{
  RolloutForm, FormEvent, got_products, got_types, typed, submitted, created, refused, handle,
  run_form, settle, preview, base_iso, can_create, submit_rollout, on_rollout_created,
}

-- The event is no refusal.
abbrev pub IsNoRefusal : FormEvent → Type 0
IsNoRefusal (refused message) = ⊥
IsNoRefusal (got_products answer) = Unit
IsNoRefusal (got_types answer) = Unit
IsNoRefusal (typed i) = Unit
IsNoRefusal submitted = Unit
IsNoRefusal (created id) = Unit

-- A form that is not submitting has called as often as it was refused: here, `n` times.
record IsSpent (n : ℕ) (f : RolloutForm) : Type 0 where
  most : length f.calls ≤ n + 1
  free : f.submitting ≡ false → length f.calls ≡ n

submit-IsSpent :
    (date : String → Option ℕ) (n : ℕ) (f : RolloutForm)
    → IsSpent n f
    → IsSpent n (submit_rollout date f)
unfolding submit_rollout can_create
submit-IsSpent date n f h = elim (Option-cases (preview date f)) [
  | inl e ↦ rw e (ground arith)
  | inr (stages, e) ↦ rw e (ground arith)
]

handle-IsSpent :
    (date : String → Option ℕ) (n : ℕ) (e : FormEvent) (f : RolloutForm)
    → IsNoRefusal e
    → IsSpent n f
    → IsSpent n (settle (handle date e f))
unfolding settle on_rollout_created
handle-IsSpent date n (refused message) f k h = absurd k
handle-IsSpent date n submitted f k h = let s = submit-IsSpent date n f h in omega arith
handle-IsSpent date n (got_products answer) f k h = omega arith
handle-IsSpent date n (got_types answer) f k h = omega arith
handle-IsSpent date n (typed i) f k h = omega arith
handle-IsSpent date n (created id) f k h = omega arith

run_form-IsSpent :
    (date : String → Option ℕ) (n : ℕ) (es : List FormEvent) (f : RolloutForm)
    → All IsNoRefusal es
    → IsSpent n f
    → IsSpent n (run_form date es f)
unfolding run_form
run_form-IsSpent date n [] f k h = h
run_form-IsSpent date n (e ∷ es) f k h =
    run_form-IsSpent date n es (settle (handle date e f)) k.1 (handle-IsSpent date n e f k.0 h)

-- A form that is open and not submitting calls the API once more at most, whatever is typed, clicked and
-- answered, as long as no call is refused.
pub run_form_calls_once :
    (date : String → Option ℕ) (es : List FormEvent) (f : RolloutForm)
    → f.submitting ≡ false
    → All IsNoRefusal es
    → length (run_form date es f).calls ≤ length f.calls + 1
run_form_calls_once date es f idle k =
    (run_form-IsSpent date (length f.calls) es f k (omega arith)).most

-- A form that is marked as submitting keeps its calls, until one is refused.
handle_submitting :
    (date : String → Option ℕ) (e : FormEvent) (f : RolloutForm)
    → IsNoRefusal e
    → f.submitting ≡ true
    → ((settle (handle date e f)).submitting ≡ true) × ((settle (handle date e f)).calls ≡ f.calls)
unfolding settle on_rollout_created submit_rollout can_create
handle_submitting date (refused message) f k h = absurd k
handle_submitting date submitted f k h = ground arith
handle_submitting date (got_products answer) f k h = (h, refl)
handle_submitting date (got_types answer) f k h = (h, refl)
handle_submitting date (typed i) f k h = (h, refl)
handle_submitting date (created id) f k h = (h, refl)

run_form_submitting :
    (date : String → Option ℕ) (es : List FormEvent) (f : RolloutForm)
    → All IsNoRefusal es
    → f.submitting ≡ true
    → (run_form date es f).calls ≡ f.calls
unfolding run_form
run_form_submitting date [] f k h = refl
run_form_submitting date (e ∷ es) f k h =
    let (still, same) = handle_submitting date e f k.0 h in
    run_form_submitting date es (settle (handle date e f)) k.1 still ∙ same

submit_undated :
    (date : String → Option ℕ) (f : RolloutForm)
    → can_create f ≡ true
    → date (base_iso f.inputs) ≡ none
    → ((submit_rollout date f).submitting ≡ true) × ((submit_rollout date f).calls ≡ f.calls)
unfolding submit_rollout preview
submit_undated date f h e = ground arith

-- If the date and time are no valid date when a form that may be submitted is submitted, the form calls
-- nothing, and it never calls again, whatever is typed and clicked after that, as long as no call is
-- refused (none was made).
pub run_form-submit_undated :
    (date : String → Option ℕ) (f : RolloutForm) (es : List FormEvent)
    → can_create f ≡ true
    → date (base_iso f.inputs) ≡ none
    → All IsNoRefusal es
    → (run_form date es (submit_rollout date f)).calls ≡ f.calls
run_form-submit_undated date f es h e k =
    let (marked, same) = submit_undated date f h e in
    run_form_submitting date es (submit_rollout date f) k marked ∙ same

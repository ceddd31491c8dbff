-- ===== src/Query/Simple.antt =====
-- An implementation that meets the interface of a mutation.
use blockops.Prelude.{◌≡◌, ◌≢◌, refl, Option, none, some, if◌then◌else◌, arith}
use blockops.Query.{Status, idle, pending, failed, succeeded, is_pending, Mutation}

pub record Simple (V E : Type 0) : Type 0 where
  pub status : Status
  pub variables : Option V
  pub error : Option E

module _ {V E : Type 0} where
  abbrev pub resolved : Simple V E → Simple V E
  resolved s = if is_pending s.status then record s { status = succeeded; error = none } else s

  abbrev pub rejected : E → Simple V E → Simple V E
  rejected e s = if is_pending s.status then record s { status = failed; error = some e } else s

  pub resolved_status : (s : Simple V E) → s.status ≡ pending → (resolved s).status ≡ succeeded
  resolved_status s h = ground arith

  pub resolved_variables : (s : Simple V E) → (resolved s).variables ≡ s.variables
  resolved_variables s = ground arith

  pub resolved_error : (s : Simple V E) → s.status ≡ pending → (resolved s).error ≡ none
  resolved_error s h = ground arith

  pub rejected_status :
      (e : E) (s : Simple V E) → s.status ≡ pending → (rejected e s).status ≡ failed
  rejected_status e s h = ground arith

  pub rejected_variables : (e : E) (s : Simple V E) → (rejected e s).variables ≡ s.variables
  rejected_variables e s = ground arith

  pub rejected_error : (e : E) (s : Simple V E) → s.status ≡ pending → (rejected e s).error ≡ some e
  rejected_error e s h = ground arith

  pub resolved_detached : (s : Simple V E) → s.status ≢ pending → resolved s ≡ s
  resolved_detached s h = ground arith

  pub rejected_detached : (e : E) (s : Simple V E) → s.status ≢ pending → rejected e s ≡ s
  rejected_detached e s h = ground arith

abbrev pub simple : (V E : Type 0) → Mutation V E
simple V E = record {
  State = Simple V E;
  initial = record { status = idle; variables = none; error = none };
  mutate = λ v s. record { status = pending; variables = some v; error = none };
  reset = λ s. record { status = idle; variables = none; error = none };
  resolve = resolved;
  reject = rejected;
  status = λ s. s.status;
  variables = λ s. s.variables;
  error = λ s. s.error;
  initial_status = refl;
  initial_error = refl;
  initial_variables = refl;
  mutate_status = λ v s. refl;
  mutate_variables = λ v s. refl;
  mutate_error = λ v s. refl;
  reset_status = λ s. refl;
  reset_variables = λ s. refl;
  reset_error = λ s. refl;
  resolve_status = resolved_status;
  resolve_variables = resolved_variables;
  resolve_error = resolved_error;
  reject_status = rejected_status;
  reject_variables = rejected_variables;
  reject_error = rejected_error;
  resolve_detached = resolved_detached;
  reject_detached = rejected_detached;
}

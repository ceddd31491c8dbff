-- ===== src/Auth/Tests.antt =====
-- Signing in at concrete arguments.
use blockops.Prelude.{ℕ, ◌≡◌, ◌≢◌, ◌↔◌, refl, Bool, true, false, Option, none, some}
use blockops.Js.Text.{Text, codes, in_range}
use blockops.Query.{QueryResult, CacheEntry, is_loading}
use blockops.Api.Error.{ApiError, api}
use blockops.Api.Client.{Outcome, thrown}
use blockops.Auth.Schemas.{Letters}
use blockops.Auth.Boundary.{outlet, authentication_boundary, authentication_boundary-outlet_iff}

-- The categories of ASCII.
abbrev ascii : Letters
ascii = record {
  is_lower = in_range b'a' b'z';
  is_upper = in_range b'A' b'Z';
  is_digit = in_range b'0' b'9';
}

abbrev installed : QueryResult Bool ℕ
installed = record { value = some false; error = none; fetching = false }

abbrev signed_in : QueryResult (Option Text) ℕ
signed_in = record { value = some (some (codes "ada")); error = none; fetching = false }

authentication_boundary-outlet_iff_example :
    (authentication_boundary installed signed_in ≡ outlet (codes "ada")) ↔ (
      (signed_in.value ≡ some (some (codes "ada")))
      × (installed.error ≡ none)
      × (installed.value ≢ some true)
      × (is_loading installed ≡ false))
authentication_boundary-outlet_iff_example =
    authentication_boundary-outlet_iff installed signed_in (codes "ada")

shown : authentication_boundary installed signed_in ≡ outlet (codes "ada")
unfolding authentication_boundary
shown = refl

abbrev unauthorized : ApiError
unauthorized = record { status = 401; code = codes "unauthorized"; safe_message = codes "Sign in." }

abbrev refused : Outcome Text
refused = thrown (api unauthorized)

-- An entry that keeps whether it is fetching.
abbrev entry : (A : Type 0) → CacheEntry A ℕ
entry A = record {
  set_data = λ a q. record { value = some a; error = none; fetching = q.fetching };
  set_value = λ a q. refl;
  set_error = λ a q. refl;
}

abbrev signed_out : QueryResult (Option Text) ℕ
signed_out = record { value = some none; error = none; fetching = false }

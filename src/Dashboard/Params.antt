-- ===== src/Dashboard/Params.antt =====
-- The query parameters of apps/dashboard/views.py.
use saas_backend_api.Prelude.{ℕ, ◌≤◌, ◌≡◌, arith}
use saas_backend_api.Dashboard.Views.{Param, absent, not_an_int, negative, int, parse_int_param}

parse_int_param-within :
    (p : Param) (default lo hi : ℕ)
    → lo ≤ default
    → default ≤ hi
    → (lo ≤ parse_int_param p default lo hi) × (parse_int_param p default lo hi ≤ hi)
unfolding parse_int_param
parse_int_param-within absent default lo hi a b = (omega arith, omega arith)
parse_int_param-within not_an_int default lo hi a b = (omega arith, omega arith)
parse_int_param-within negative default lo hi a b = (omega arith, omega arith)
parse_int_param-within (int n) default lo hi a b = (omega arith, omega arith)

-- Whatever the client sends, the parameter that is used lies between its bounds, if the default
-- does; an integer between the bounds is used as it is.
pub parse_int_param-bounds :
    (p : Param) (default lo hi : ℕ)
    → lo ≤ default
    → default ≤ hi
    → ((lo ≤ parse_int_param p default lo hi) × (parse_int_param p default lo hi ≤ hi))
      × ((n : ℕ) → p ≡ int n → lo ≤ n → n ≤ hi → parse_int_param p default lo hi ≡ n)
unfolding parse_int_param
parse_int_param-bounds p default lo hi a b =
    (parse_int_param-within p default lo hi a b, λ n eq h k. rw eq (omega arith))

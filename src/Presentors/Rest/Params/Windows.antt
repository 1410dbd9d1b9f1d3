-- ===== src/Presentors/Rest/Params/Windows.antt =====
-- Which windows library/presentors/rest/routers/api/v1/endpoints accept for a list request.
use example_litestar_service.Prelude.{ℕ, ◌≤◌, ◌≡◌, ◌↔◌, ℤ, pos, negsuc, String, Option, some, arith}
use example_litestar_service.Application.Result.{ok}
use example_litestar_service.Presentors.Rest.Params.{check_window, or_default}

-- A list request is accepted with the limit `l` and the offset `o` exactly when they are the ones
-- sent, 10 and 0 if they are not, and the limit lies between 1 and 100.
pub check_window_iff :
    (detail : String) (limit offset : Option ℤ) (l o : ℕ)
    → (check_window detail limit offset ≡ ok (l, o)) ↔ (
        (or_default (pos 10) limit ≡ pos l)
        × (or_default (pos 0) offset ≡ pos o)
        × (1 ≤ l)
        × (l ≤ 100))
unfolding check_window
check_window_iff detail limit offset l o =
    window_iff (or_default (pos 10) limit) (or_default (pos 0) offset)
  where
    window_iff :
        (x y : ℤ)
        → (check_window detail (some x) (some y) ≡ ok (l, o))
          ↔ ((x ≡ pos l) × (y ≡ pos o) × (1 ≤ l) × (l ≤ 100))
    window_iff (pos m) (pos n) = ground arith
    window_iff (pos m) (negsuc n) = ground arith
    window_iff (negsuc m) y = ground arith

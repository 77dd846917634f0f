-- ===== src/Retry/Settings.antt =====
-- `Retry.new` and `Retry.from_int`: settings are carried over unchanged.
use urllib.Prelude.{
  ◌≡◌, ◌≢◌, refl, false, not, Option, none, some, List, [], ◌∷◌, map, ◌&&◌, arith, if◌then◌else◌,
}
use urllib.Prelude.Text.{Text, lower, lower_idem}
use urllib.Retry.{Retry, Params, Retries, object, count, init, new, from_int, default_retry}
use urllib.Prelude.Int.{pos}
use urllib.Retry.Counts.{Count, unset, flag, num, is_flag, truthy}

map-lower_idem : (ts : List Text) → map lower (map lower ts) ≡ map lower ts
map-lower_idem [] = refl
map-lower_idem (t ∷ ts) = ground (arith, lower_idem t, map-lower_idem ts)

-- An object that `__init__` made, passed through `new` with no change, is the same object: the
-- normalisation of `redirect`, `raise_on_redirect` and of the header names is done once.
pub new-init : (p : Params) → new (λ q. q) (init p) ≡ init p
unfolding new
new-init p = ground (arith, map-lower_idem p.remove_headers_on_redirect)

-- A plain count becomes the total. Redirects are limited to none, and returned and not raised,
-- if either the count or the `redirect` argument is false; otherwise they are bounded by the total.
from_int-count :
    (c redirect : Count) (d : Option Retries)
    → c ≢ unset
    → ((from_int (count c) redirect d).total ≡ c)
      × ((from_int (count c) redirect d).raise_on_redirect
          ≡ (truthy redirect && not (is_flag false c)))
      × ((from_int (count c) redirect d).redirect
          ≡ (if truthy redirect && not (is_flag false c) then unset else num (pos 0)))
unfolding from_int
from_int-count unset redirect d h = absurd (h refl)
from_int-count (flag b) redirect d h = (refl, ground arith, ground arith)
from_int-count (num z) redirect d h = (refl, ground arith, ground arith)

-- A `Retry` object is used as it is; for `None` the default is.
pub from_int_objects :
    (r : Retry) (redirect : Count) (d : Option Retries)
    → (from_int (object r) redirect d ≡ r)
      × (from_int (count unset) redirect (some (object r)) ≡ r)
      × (from_int (count unset) redirect none ≡ default_retry)
unfolding from_int
from_int_objects r redirect d = (refl, refl, refl)

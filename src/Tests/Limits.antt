-- ===== src/Tests/Limits.antt =====
-- The quota estimate of internal/ratelimit and its store, for new orders of one account.
use wecert.Base.{◌+◌, ◌*◌, List, [], ◌∷◌, arith}
use wecert.Base.Int.{pos, ◌+ℤ◌, ◌≤ℤ◌, scale}
use wecert.Base.Time.{Time, second, hour, minute}
use wecert.RateLimit.{Limit, new_orders_per_account, remaining}
use wecert.RateLimit.Level.{IsPublished}
use wecert.RateLimit.Account.{Event, ours, theirs, serve_all, fresh, full, available}
use wecert.RateLimit.Account.UpperBound.{available-le-remaining}

abbrev orders : Limit
orders = new_orders_per_account

orders-IsPublished : IsPublished orders
unfolding scale ◌+ℤ◌
orders-IsPublished = record {
  capacity_pos = omega arith;
  refill_pos = omega arith;
  fits = omega arith;
}

abbrev noon : Time
noon = 63900000000 * second

-- One order of ours and two of another account, in the order of the clock.
abbrev day_of_orders : List (Event × Time)
day_of_orders = (ours (36 * second), noon) ∷ (theirs (72 * second), noon + minute) ∷ []

available-le-remaining_example :
    let (s, a) = serve_all orders day_of_orders (fresh, full orders noon) in
    pos (available a orders (noon + hour)) ≤ℤ remaining s orders (noon + hour)
available-le-remaining_example =
    available-le-remaining orders orders-IsPublished day_of_orders noon (noon + hour) (omega arith)

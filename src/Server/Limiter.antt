-- ===== src/Server/Limiter.antt =====
-- `RateLimiter` of crates/auru-pm-server/src/main.rs. An instant is its nanoseconds since some
-- start, and a duration before the start of a window saturates at 0, as the standard library does.
pub mod Budget
use auru_pm_core.Prelude.{
  ℕ, List, [], ◌∷◌, Text, Option, some, none, Bool, true, false, Map, lookup, insert, if◌then◌else◌,
  length, leb, ltb, ◌+◌, ◌-◌, max,
}

pub record RequestWindow : Type 0 where
  pub started : ℕ
  pub requests : ℕ

-- The clients by their address. `new` makes the limit at least 1.
pub record RateLimiter : Type 0 where
  pub requests_per_minute : ℕ
  pub clients : Map RequestWindow

unfoldable pub new_limiter : ℕ → RateLimiter
new_limiter requests = record { requests_per_minute = max requests 1; clients = [] }

abbrev pub minute : ℕ
minute = 60000000000

abbrev pub most_clients : ℕ
most_clients = 4096

-- `retain`
unfoldable pub retain_young : ℕ → Map RequestWindow → Map RequestWindow
retain_young now [] = []
retain_young now ((client, window) ∷ clients) =
    let rest = retain_young now clients in
    if ltb (now - window.started) minute then (client, window) ∷ rest else rest

unfoldable pub swept : ℕ → Map RequestWindow → Map RequestWindow
swept now clients = if leb most_clients (length clients) then retain_young now clients else clients

-- The window of a client, begun anew where there is none or a minute is over.
abbrev pub current : ℕ → Option RequestWindow → RequestWindow
current now none = record { started = now; requests = 0 }
current now (some window) =
    if leb minute (now - window.started) then record { started = now; requests = 0 } else window

abbrev pub spend : RateLimiter → Text → RequestWindow → Map RequestWindow → Bool × RateLimiter
spend limiter client window clients =
    if leb limiter.requests_per_minute window.requests
    then (false, record limiter { clients = insert client window clients })
    else (
      true,
      record limiter {
        clients = insert client (record window { requests = window.requests + 1 }) clients;
      },
    )

unfoldable pub allow_at : RateLimiter → Text → ℕ → Bool × RateLimiter
allow_at limiter client now =
    let clients = swept now limiter.clients in
    spend limiter client (current now (lookup client clients)) clients

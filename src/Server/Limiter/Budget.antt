-- ===== src/Server/Limiter/Budget.antt =====
-- What the rate limiter of crates/auru-pm-server/src/main.rs lets through.
use auru_pm_core.Server.Limiter.{
  RequestWindow, RateLimiter, minute, retain_young, swept, current, spend, allow_at,
}
use auru_pm_core.Prelude.{
  [], ◌∷◌, true, false, Text, lookup, List, ℕ, Map, ◌≤◌, ◌-◌, All, ◌<◌, ◌≡◌, some, text_eq, ltb,
  min, none-some, Bool-cases, if◌then◌else◌, leb, suc, length, inl, inr, ◌+◌, ◌&&◌, some-injective,
  lookup-insert, ◌∙◌, lt→not_leb, arith, lt→ltb, ltb→lt, refl, ap, lookup-insert_self, text_eq_iff,
  le→leb, text_eq_refl,
}

-- The requests of a client, and those of them that pass.
pub asked : Text → List (Text × ℕ) → ℕ
asked client [] = 0
asked client ((c, now) ∷ rest) = (if text_eq c client then 1 else 0) + asked client rest

pub admitted : Text → RateLimiter → List (Text × ℕ) → ℕ
admitted client limiter [] = 0
admitted client limiter ((c, now) ∷ rest) =
    (if text_eq c client && (allow_at limiter c now).0 then 1 else 0)
    + admitted client (allow_at limiter c now).1 rest

lookup-retain_young :
    (client : Text) (now : ℕ) (window : RequestWindow) (clients : Map RequestWindow)
    → now - window.started < minute
    → lookup client clients ≡ some window
    → lookup client (retain_young now clients) ≡ some window
unfolding lookup retain_young
lookup-retain_young client now window [] young e = absurd (none-some e)
lookup-retain_young client now window ((c, w) ∷ clients) young e =
    elim (Bool-cases (text_eq c client)) [
      | inl same ↦
          let it : w ≡ window = some-injective _ _ (rw same at e) in
          let kept : ltb (now - w.started) minute ≡ true =
            rw it (lt→ltb (now - window.started) minute young) in
          rw (kept, same) (ap (λ x. some x) it)
      | inr other ↦
          let later = lookup-retain_young client now window clients young (rw other at e) in
          elim (Bool-cases (ltb (now - w.started) minute)) [
            | inl kept ↦ rw (kept, other) later
            | inr dropped ↦ rw dropped later
          ]
    ]

lookup-swept :
    (client : Text) (now : ℕ) (window : RequestWindow) (clients : Map RequestWindow)
    → now - window.started < minute
    → lookup client clients ≡ some window
    → lookup client (swept now clients) ≡ some window
unfolding swept
lookup-swept client now window clients young e = elim (Bool-cases (leb 4096 (length clients))) [
  | inl many ↦ rw many (lookup-retain_young client now window clients young e)
  | inr few ↦ rw few e
]

module _ (client : Text) (start : ℕ) where
  abbrev pub window_of : ℕ → RequestWindow
  window_of requests = record { started = start; requests = requests }

  -- The state of the client between two requests.
  pub record Spent (limiter : RateLimiter) (limit requests : ℕ) : Type 0 where
    pub bounded : requests ≤ limit
    pub limited : limiter.requests_per_minute ≡ limit
    pub counted : lookup client limiter.clients ≡ some (window_of requests)

  spend_other :
      (limiter : RateLimiter) (c : Text) (w : RequestWindow) (clients : Map RequestWindow)
      → text_eq c client ≡ false
      → ((spend limiter c w clients).1.requests_per_minute ≡ limiter.requests_per_minute)
        × (lookup client (spend limiter c w clients).1.clients ≡ lookup client clients)
  spend_other limiter c w clients other =
      elim (Bool-cases (leb limiter.requests_per_minute w.requests)) [
        | inl over ↦ rw (over, lookup-insert c client w clients, other) (refl, refl)
        | inr under ↦
            rw
              (
                under,
                lookup-insert c client (record w { requests = w.requests + 1 }) clients,
                other,
              )
              (refl, refl)
      ]

  other_step :
      (limiter : RateLimiter) (limit requests : ℕ) (c : Text) (now : ℕ)
      → now - start < minute
      → text_eq c client ≡ false
      → Spent limiter limit requests
      → Spent (allow_at limiter c now).1 limit requests
  unfolding allow_at
  other_step limiter limit requests c now young other s =
      let clients = swept now limiter.clients in
      let (same, there) = spend_other limiter c (current now (lookup c clients)) clients other in
      record {
        bounded = s.bounded;
        limited = same ∙ s.limited;
        counted =
            there ∙ lookup-swept client now (window_of requests) limiter.clients young s.counted;
      }

  spend_own :
      (limiter : RateLimiter) (limit requests : ℕ) (clients : Map RequestWindow)
      → Spent limiter limit requests
      → ((spend limiter client (window_of requests) clients).0 ≡ ltb requests limit)
        × Spent
            (spend limiter client (window_of requests) clients).1
            limit
            (if ltb requests limit then suc requests else requests)
  spend_own limiter limit requests clients s = elim (Bool-cases (ltb requests limit)) [
    | inl under ↦
        rw (s.limited, lt→not_leb limit requests (ltb→lt requests limit under), under)
          (
            refl,
            record {
              bounded = omega (arith, ltb→lt requests limit under);
              limited = refl;
              counted =
                  lookup-insert_self client (window_of (requests + 1)) clients
                  ∙ ap (λ n. some (window_of n)) (omega arith);
            },
          )
    | inr over ↦
        let full : limit ≤ requests = ground arith in
        rw (s.limited, le→leb limit requests full, over)
          (
            refl,
            record {
              bounded = s.bounded;
              limited = refl;
              counted = lookup-insert_self client (window_of requests) clients;
            },
          )
  ]

  own_step :
      (limiter : RateLimiter) (limit requests : ℕ) (now : ℕ)
      → now - start < minute
      → Spent limiter limit requests
      → ((allow_at limiter client now).0 ≡ ltb requests limit)
        × Spent
            (allow_at limiter client now).1
            limit
            (if ltb requests limit then suc requests else requests)
  unfolding allow_at
  own_step limiter limit requests now young s =
      rw
        (
          lookup-swept client now (window_of requests) limiter.clients young s.counted,
          lt→not_leb minute (now - start) young,
        )
        (spend_own limiter limit requests (swept now limiter.clients) s)

  -- Among requests none of which comes a minute or more after the start of a client's window, and
  -- whatever other clients ask in between, as many of the client's pass as the limit has left
  -- after those already counted, or all of them if they are fewer.
  pub admitted_exactly :
      (limiter : RateLimiter) (limit requests : ℕ) (rest : List (Text × ℕ))
      → All (λ r. r.1 - start < minute) rest
      → Spent limiter limit requests
      → admitted client limiter rest ≡ min (asked client rest) (limit - requests)
  unfolding asked admitted
  admitted_exactly limiter limit requests [] young s = omega arith
  admitted_exactly limiter limit requests ((c, now) ∷ rest) young s =
      elim (Bool-cases (text_eq c client)) [
        | inr other ↦
            let later =
              admitted_exactly (allow_at limiter c now).1 limit requests rest young.1
                (other_step limiter limit requests c now young.0 other s) in
            rw other (omega (arith, later))
        | inl same ↦
            let it : c ≡ client = (text_eq_iff c client).0 same in
            let (passed, next) = own_step limiter limit requests now young.0 s in
            elim (Bool-cases (ltb requests limit)) [
              | inl under ↦
                  let later =
                    admitted_exactly (allow_at limiter client now).1 limit (suc requests) rest
                      young.1 (rw under at next) in
                  rw (it, text_eq_refl client, passed, under)
                    (omega (arith, later, ltb→lt requests limit under))
              | inr over ↦
                  let later =
                    admitted_exactly (allow_at limiter client now).1 limit requests rest young.1
                      (rw over at next) in
                  let full : limit ≤ requests = ground arith in
                  rw (it, text_eq_refl client, passed, over) (omega (arith, later, full))
            ]
      ]

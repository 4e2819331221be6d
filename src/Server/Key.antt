-- ===== src/Server/Key.antt =====
-- `project_key` and `blob_path` of crates/auru-pm-server/src/main.rs tell their inputs apart.
use auru_pm_core.Prelude.{ℕ, ◌≡◌, refl, [], ◌∷◌, ◌++◌, Text, All, length, arith, sym, ◌≢◌, All-map}
use auru_pm_core.Server.Store.{Principal, project_key}
use auru_pm_core.Prelude.Decimal.{decimal, decimal_digits, decimal-injective}

-- No digit is a colon.
abbrev NoColon : Text → Type 0
NoColon = All (λ c. c ≢ b':')

decimal-NoColon : (n : ℕ) → NoColon (decimal n)
decimal-NoColon n = All-map (decimal n) (λ c digit. ground arith) (decimal_digits n)

tail_eq : {a b : ℕ} (s t : Text) → a ∷ s ≡ b ∷ t → s ≡ t
tail_eq s t e = cc

head_eq : (a b : ℕ) {s t : Text} → a ∷ s ≡ b ∷ t → a ≡ b
head_eq a b e = cc

-- Text without a colon ends at the first one.
split_at_colon :
    (s t u v : Text) → NoColon s → NoColon t → s ++ (b':' ∷ u) ≡ t ++ (b':' ∷ v) → (s ≡ t) × (u ≡ v)
split_at_colon [] [] u v h k e = (refl, tail_eq u v e)
split_at_colon [] (c ∷ t) u v h k e = absurd (k.0 (sym (head_eq b':' c e)))
split_at_colon (c ∷ s) [] u v h k e = absurd (h.0 (head_eq c b':' e))
split_at_colon (c ∷ s) (d ∷ t) u v h k e =
    let (p, q) = split_at_colon s t u v h.1 k.1 (tail_eq _ _ e) in
    let first : c ≡ d = head_eq c d e in (cc, q)

-- Texts of one length end where they end.
split_at_length : (s t u v : Text) → length s ≡ length t → s ++ u ≡ t ++ v → (s ≡ t) × (u ≡ v)
split_at_length [] [] u v h e = (refl, e)
split_at_length [] (d ∷ t) u v h e = absurd (omega arith)
split_at_length (c ∷ s) [] u v h e = absurd (omega arith)
split_at_length (c ∷ s) (d ∷ t) u v h e =
    let (p, q) = split_at_length s t u v (omega arith) (tail_eq _ _ e) in
    let first : c ≡ d = head_eq c d e in (cc, q)

-- A length, a colon, a text of that length, a colon and a rest are read back.
framed_injective :
    (s t u v : Text)
    → decimal (length s) ++ (b':' ∷ (s ++ (b':' ∷ u)))
      ≡ decimal (length t) ++ (b':' ∷ (t ++ (b':' ∷ v)))
    → (s ≡ t) × (u ≡ v)
framed_injective s t u v e =
    let (lens, rest) =
      split_at_colon (decimal (length s)) (decimal (length t)) _ _ (decimal-NoColon (length s))
        (decimal-NoColon (length t)) e in
    let (same, tails) = split_at_length s t _ _ (decimal-injective _ _ lens) rest in
    (same, tail_eq u v tails)

-- Two owners and handles with one project key are the same owner and the same handle.
pub project_key_injective :
    (p q : Principal) (h k : Text) → project_key p h ≡ project_key q k → (p ≡ q) × (h ≡ k)
unfolding project_key
project_key_injective p q h k e =
    let (issuers, rest) = framed_injective p.issuer q.issuer _ _ e in
    let (subjects, handles) = framed_injective p.subject q.subject h k rest in
    (λ i. record { issuer = issuers i; subject = subjects i }, handles)

-- ===== src/Services.antt =====
-- The banking services (server/src/services), one module for each source file, and their
-- registration (server/src/main.cpp).
pub mod Sql
pub mod Trade
pub mod Position
pub mod History
pub mod Catalog
use hs_financial_services.Common.{ℕ, [], ◌∷◌, ◌≡◌, ◌≢◌, refl}
use hs_financial_services.Common.Text.{Bytes, Lacks}
use hs_financial_services.Json.{quote}

-- What the handlers share and change: the order counter, and the clock that `std::time` reads.
pub record ServiceState : Type 0 where
  pub order_counter : ℕ
  pub clock : ℕ

-- `if (s.empty()) s = def;`
abbrev pub default_to : Bytes → Bytes → Bytes
default_to def [] = def
default_to def (c ∷ s) = c ∷ s

pub default_to-Lacks :
    (def v : Bytes) → Lacks quote def → Lacks quote v → Lacks quote (default_to def v)
default_to-Lacks def [] h h' = h
default_to-Lacks def (c ∷ v) h h' = h'

pub default_to-nonempty : (def v : Bytes) → v ≢ [] → default_to def v ≡ v
default_to-nonempty def [] h = absurd (h refl)
default_to-nonempty def (c ∷ v) h = refl

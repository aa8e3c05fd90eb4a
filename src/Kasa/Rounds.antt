-- ===== src/Kasa/Rounds.antt =====
-- The rounds of polls of service/src/kasa.rs.
use ahara_collector.Prelude.{ℕ, ◌≡◌, Bool, true, List, Text, length, keep}
use ahara_collector.Prelude.Options.{is_some}
use ahara_collector.Prelude.Results.{Result, ok}
use ahara_collector.Metrics.{Metrics}
use ahara_collector.Kasa.Session.{KlapError}
use ahara_collector.Kasa.Poll.{Slot}

unfoldable pub has_session : Slot → Bool
has_session (d, s) = is_some s

pub open_sessions : List Slot → ℕ
unfolding keep
open_sessions slots = length (keep has_session slots)

-- A poll that succeeds leaves a session.
Sessioned : Result KlapError Text → Slot → Type 0
Sessioned r slot = (line : Text) → r ≡ ok line → has_session slot ≡ true

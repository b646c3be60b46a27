-- ===== src/Orchestrator/Date.antt =====
-- The form of a briefing's date: what `time.Parse` accepts for it in `SubmitBriefJob`,
-- internal/orchestrator/server.go.
use Prim.Native.Char.{code}
use cova.Base.{
  ℕ, String, Bool, false, ◌&&◌, ◌||◌, not, ◌+◌, ◌-◌, ◌*◌, ◌%◌, List, [], ◌∷◌, leb, ◌==◌,
  if◌then◌else◌,
}

is_digit : ℕ → Bool
is_digit c = leb 48 c && leb c 57

is_leap : ℕ → Bool
is_leap y = y % 4 == 0 && (not (y % 100 == 0) || y % 400 == 0)

days_in : ℕ → ℕ → Bool → ℕ
days_in y m leap =
    if m == 2
    then (if leap then 29 else 28)
    else if m == 4 || m == 6 || m == 9 || m == 11
    then 30
    else 31

valid_day : ℕ → ℕ → ℕ → Bool
unfolding is_leap days_in
valid_day y m d = leb 1 m && leb m 12 && leb 1 d && leb d (days_in y m (is_leap y))

codes : String → List ℕ
codes String.[] = []
codes (String.◌∷◌ c s) = code c ∷ codes s

date_of : List ℕ → Bool
unfolding valid_day is_digit
date_of (a ∷ b ∷ c ∷ d ∷ p ∷ e ∷ f ∷ q ∷ g ∷ h ∷ []) =
    is_digit a
    && is_digit b
    && is_digit c
    && is_digit d
    && p == 45
    && is_digit e
    && is_digit f
    && q == 45
    && is_digit g
    && is_digit h
    && valid_day ((a - 48) * 1000 + (b - 48) * 100 + (c - 48) * 10 + (d - 48))
        ((e - 48) * 10 + (f - 48)) ((g - 48) * 10 + (h - 48))
date_of _ = false

-- `time.Parse("2006-01-02", s)` succeeds.
unfoldable pub is_date : String → Bool
unfolding date_of codes
is_date s = date_of (codes s)

-- ===== src/RateLimit/Window.antt =====
-- internal/platform/ratelimit/ratelimit.go: the requests of one window.
use tesseract_go_api.Prelude.{
  ℕ, suc, String, List, [], ◌∷◌, none, some, ◌≡◌, ◌+◌, ◌-◌, ◌*◌, ◌≤◌, ◌<◌, arith, leb, str_eq,
  str_eq_refl, if◌then◌else◌, All, inl, inr, Bool-cases, length,
}
use tesseract_go_api.Exec.{Result, ok, err}
use tesseract_go_api.RateLimit.{Counter, Counters, RateLimitResult, current, assign, alive, allow}

-- How many of the requests at these times are let through.
abbrev let_through : Result RateLimitResult → ℕ
let_through (ok r) = if r.allowed then 1 else 0
let_through (err e) = 0

pub admissions : String → ℕ → ℕ → List ℕ → Counters → ℕ
unfolding allow
admissions key limit window [] cs = 0
admissions key limit window (now ∷ times) cs =
    let (r, cs') = allow key limit window none now cs in
    let_through r + admissions key limit window times cs'

current-assign :
    (now : ℕ) (key : String) (c : Counter) (cs : Counters)
    → current now key (assign key c cs) ≡ alive now c
unfolding current assign
current-assign now key c [] = ground (arith, str_eq_refl key)
current-assign now key c ((k, d) ∷ rest) = elim (Bool-cases (str_eq k key)) [
  | inl t ↦ ground arith
  | inr t ↦ ground (arith, current-assign now key c rest)
]

abbrev pub min : ℕ → ℕ → ℕ
min a b = if leb a b then a else b

-- A counter that was written stands until it expires.
stands :
    (end : ℕ) (key : String) (value now : ℕ) (cs : Counters)
    → now < end
    → current now key (assign key (record { value = value; expires_at = some end }) cs)
      ≡ some (record { value = value; expires_at = some end })
stands end key value now cs before =
    ground (arith, current-assign now key (record { value = value; expires_at = some end }) cs)

-- Where the counter of the key stands at a value and expires after all of the requests.
standing :
    (key : String) (limit window value end : ℕ) (times : List ℕ) (cs : Counters)
    → All (λ now. now < end) times
    → 1 ≤ value
    → ((now : ℕ)
        → now < end
        → current now key cs ≡ some (record { value = value; expires_at = some end }))
    → admissions key limit window times cs ≡ min (length times) (limit - value)
unfolding admissions allow
standing key limit window value end [] cs h pos at = ground arith
standing key limit window value end (now ∷ times) cs (h, hs) pos at =
    elim (Bool-cases (leb limit value)) [
      | inl full ↦ ground (arith, at now h, standing key limit window value end times cs hs pos at)
      | inr room ↦
          let next : Counter = record { value = value + 1; expires_at = some end } in
          let later =
            standing key limit window (value + 1) end times (assign key next cs) hs (omega arith)
              (λ then_ before. stands end key (value + 1) then_ cs before) in
          ground (arith, at now h, later)
    ]

-- For a rule with a positive limit and a key that has no counter: of the requests that come from
-- the first one on within the window, where no call fails, as many are let through as the lesser
-- of their number and the limit.
pub admissions-min :
    (key : String) (limit window now : ℕ) (times : List ℕ) (cs : Counters)
    → 1 ≤ limit
    → current now key cs ≡ none
    → All (λ at. at < now + window * 1000) times
    → admissions key limit window (now ∷ times) cs ≡ min (suc (length times)) limit
unfolding admissions allow
admissions-min key limit window now times cs positive free within =
    let end = now + window * 1000 in
    let first : Counter = record { value = 1; expires_at = some end } in
    let later =
      standing key limit window 1 end times (assign key first cs) within (omega arith)
        (λ at before. stands end key 1 at cs before) in
    ground (arith, free, later)

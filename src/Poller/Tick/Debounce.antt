-- ===== src/Poller/Tick/Debounce.antt =====
-- The debounce against a description by streaks: it switches on after enough breaching scrapes in a
-- row, off after enough clean ones, and sends exactly when it switches.
use shedpilot.Common.{
  ◌∙◌, ◌≡◌, refl, ap, Bool, true, false, not, List, [], ◌∷◌, ℕ, suc, ◌+◌, ◌^◌, ◌≤◌, ◌<◌, pos, leb_ℤ,
  arith, Bool-cases, inl, inr, length, if◌then◌else◌,
}
use shedpilot.Poller.Config.{PollerConfig}
use shedpilot.Poller.Tick.{BreachState, fresh, counted, settle, debounce}

-- The state after some scrapes, the newest first.
abbrev pub state_after : PollerConfig → BreachState → List Bool → BreachState
state_after cfg s [] = s
state_after cfg s (b ∷ older) = (debounce cfg b (state_after cfg s older)).0

-- How many of the newest scrapes were all breaching, or all clean.
abbrev pub breaching_streak : List Bool → ℕ
breaching_streak [] = 0
breaching_streak (true ∷ older) = suc (breaching_streak older)
breaching_streak (false ∷ older) = 0

abbrev pub clean_streak : List Bool → ℕ
clean_streak [] = 0
clean_streak (true ∷ older) = 0
clean_streak (false ∷ older) = suc (clean_streak older)

-- A switch with hysteresis on the streaks.
abbrev pub alarm : PollerConfig → List Bool → Bool
alarm cfg [] = false
alarm cfg (b ∷ older) =
    if alarm cfg older
    then not (leb_ℤ cfg.consecutive_recoveries (pos (clean_streak (b ∷ older))))
    else leb_ℤ cfg.consecutive_breaches (pos (breaching_streak (b ∷ older)))

abbrev pub changed : Bool → Bool → Bool
changed true b = not b
changed false b = b

-- What the state is after a history.
abbrev pub spec_state : PollerConfig → List Bool → BreachState
spec_state cfg h = record {
  consecutive_breach = pos (breaching_streak h);
  consecutive_clean = pos (clean_streak h);
  firing = alarm cfg h;
}

breaching-le-length : (h : List Bool) → breaching_streak h ≤ length h
breaching-le-length [] = omega arith
breaching-le-length (true ∷ h) = omega (arith, breaching-le-length h)
breaching-le-length (false ∷ h) = omega arith

clean-le-length : (h : List Bool) → clean_streak h ≤ length h
clean-le-length [] = omega arith
clean-le-length (true ∷ h) = omega arith
clean-le-length (false ∷ h) = omega (arith, clean-le-length h)

counted_of_history :
    (cfg : PollerConfig) (b : Bool) (h : List Bool)
    → length h + 1 < 2 ^ 63
    → counted b (spec_state cfg h) ≡ record {
      consecutive_breach = pos (breaching_streak (b ∷ h));
      consecutive_clean = pos (clean_streak (b ∷ h));
      firing = alarm cfg h;
    }
unfolding counted
counted_of_history cfg true h l = ground (arith, breaching-le-length h)
counted_of_history cfg false h l = ground (arith, clean-le-length h)

settle_lem :
    (cfg : PollerConfig) (b : Bool) (h : List Bool) (a : Bool)
    → settle cfg (record {
      consecutive_breach = pos (breaching_streak (b ∷ h));
      consecutive_clean = pos (clean_streak (b ∷ h));
      firing = a;
    })
      ≡ (let next =
            if a
            then not (leb_ℤ cfg.consecutive_recoveries (pos (clean_streak (b ∷ h))))
            else leb_ℤ cfg.consecutive_breaches (pos (breaching_streak (b ∷ h))) in
          (
            record {
              consecutive_breach = pos (breaching_streak (b ∷ h));
              consecutive_clean = pos (clean_streak (b ∷ h));
              firing = next;
            },
            changed a next,
          ))
unfolding settle
settle_lem cfg b h true =
    elim (Bool-cases (leb_ℤ cfg.consecutive_recoveries (pos (clean_streak (b ∷ h))))) [
      | inl e ↦ rw e
      | inr e ↦ rw e
    ]
settle_lem cfg b h false =
    elim (Bool-cases (leb_ℤ cfg.consecutive_breaches (pos (breaching_streak (b ∷ h))))) [
      | inl e ↦ rw e
      | inr e ↦ rw e
    ]

debounce_of_history :
    (cfg : PollerConfig) (b : Bool) (h : List Bool)
    → length h + 1 < 2 ^ 63
    → debounce cfg b (spec_state cfg h)
      ≡ (spec_state cfg (b ∷ h), changed (alarm cfg h) (alarm cfg (b ∷ h)))
unfolding debounce
debounce_of_history cfg b h l = rw (counted_of_history cfg b h l) (settle_lem cfg b h (alarm cfg h))

pub state_lem :
    (cfg : PollerConfig) (h : List Bool)
    → length h < 2 ^ 63
    → state_after cfg fresh h ≡ spec_state cfg h
state_lem cfg [] l = refl
state_lem cfg (b ∷ h) l =
    ap (λ s. (debounce cfg b s).0) (state_lem cfg h (omega arith))
    ∙ ap (λ r. r.0) (debounce_of_history cfg b h (omega arith))

-- After any history of fewer than 2^63 scrapes the counters are the streaks of the newest scrapes and
-- the flag is the switch with hysteresis; the next scrape sends exactly when that switch changes.
pub debounce_refines :
    (cfg : PollerConfig) (b : Bool) (h : List Bool)
    → length (b ∷ h) < 2 ^ 63
    → (state_after cfg fresh (b ∷ h) ≡ spec_state cfg (b ∷ h))
      × ((debounce cfg b (state_after cfg fresh h)).1 ≡ changed (alarm cfg h) (alarm cfg (b ∷ h)))
debounce_refines cfg b h l = (
  state_lem cfg (b ∷ h) l,
  ap (λ s. (debounce cfg b s).1) (state_lem cfg h (omega arith))
      ∙ ap (λ r. r.1) (debounce_of_history cfg b h (omega arith)),
)

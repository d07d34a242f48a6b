-- ===== src/Notifications/Times.antt =====
-- `relativeTime` of fruitsalade/webapp/js/notifications.js.
use fruit_salade.Base.{
  ℕ, ◌+◌, ◌-◌, ◌*◌, ◌/◌, ◌≤◌, ◌<◌, ◌≡◌, inl, inr, true, false, arith, ltb, Bool-cases,
}
use fruit_salade.Notifications.Model.{
  Ago, just_now, seconds, minutes, hours, days, ago, relative_time,
}

-- The span of milliseconds that a text stands for.
abbrev pub Spans : Ago → ℕ → Type 0
Spans just_now d = d < 5000
Spans (seconds n) d = (5 ≤ n) × (n < 60) × (n * 1000 ≤ d) × (d < (n + 1) * 1000)
Spans (minutes n) d = (1 ≤ n) × (n < 60) × (n * 60000 ≤ d) × (d < (n + 1) * 60000)
Spans (hours n) d = (1 ≤ n) × (n < 24) × (n * 3600000 ≤ d) × (d < (n + 1) * 3600000)
Spans (days n) d = (1 ≤ n) × (n * 86400000 ≤ d) × (d < (n + 1) * 86400000)

ltb→lt : (a b : ℕ) → ltb a b ≡ true → a < b
ltb→lt a b h = ground arith

ltb→ge : (a b : ℕ) → ltb a b ≡ false → b ≤ a
ltb→ge a b h = ground arith

-- The whole seconds in a span of milliseconds decide the text.
ago-Spans : (d : ℕ) → Spans (ago (d / 1000)) d
unfolding ago
ago-Spans d = elim (Bool-cases (ltb (d / 1000) 5)) [
  | inl a ↦ rw a (omega (arith, ltb→lt _ _ a))
  | inr a ↦ elim (Bool-cases (ltb (d / 1000) 60)) [
    | inl b ↦ rw (a, b) (omega (arith, ltb→ge _ _ a, ltb→lt _ _ b))
    | inr b ↦ elim (Bool-cases (ltb (d / 1000) 3600)) [
      | inl c ↦ rw (a, b, c) (omega (arith, ltb→ge _ _ b, ltb→lt _ _ c))
      | inr c ↦ elim (Bool-cases (ltb (d / 1000) 86400)) [
        | inl e ↦ rw (a, b, c, e) (omega (arith, ltb→ge _ _ c, ltb→lt _ _ e))
        | inr e ↦ rw (a, b, c, e) (omega (arith, ltb→ge _ _ e))
      ]
    ]
  ]
]

-- The text names the largest unit that fits and the whole number of them that have passed, below
-- the next larger unit; under five seconds it is "just now".
pub relative_time-Spans : (now date : ℕ) → Spans (relative_time now date) (now - date)
unfolding relative_time
relative_time-Spans now date = ago-Spans (now - date)

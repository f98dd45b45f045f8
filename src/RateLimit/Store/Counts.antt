-- ===== src/RateLimit/Store/Counts.antt =====
-- How the rows' counts move.
use go_basics.Common.{ℕ, ◌+◌, ◌≤◌, ◌≡◌, String, Option-cases, inl, inr, arith, if◌then◌else◌}
use go_basics.Common.Dict.{insert, lookup-insert}
use go_basics.RateLimit.Store.{
  Slot, slot_comparable, slot_beq_iff, Table, Counted, done, Reply, answered, lost, unsent,
  sql_window_start, count_of, bump, increment_sql, increment,
}

-- The key of a row.
abbrev pub slot : String → String → ℕ → Slot
slot scope_type scope_key w = record {
  scope_type = scope_type;
  scope_key = scope_key;
  window_start = w;
}

count_of-insert :
    (s j : Slot) (n : ℕ) (t : Table)
    → count_of (insert s n t) j ≡ (if slot_comparable.beq s j then n else count_of t j)
unfolding count_of
count_of-insert s j n t = ground (arith, lookup-insert s j n t)

bump_mono : (t : Table) (s j : Slot) (now : ℕ) → count_of t j ≤ count_of (bump t s now).1 j
unfolding bump
bump_mono t s j now = ground (arith, count_of-insert s j (count_of t s + 1) t, slot_beq_iff s j)

bump_done :
    (t : Table) (s : Slot) (now : ℕ) {c : Counted}
    → (bump t s now).0 ≡ done c
    → (c.window_start ≡ s.window_start)
      × (c.count ≡ count_of t s + 1)
      × (count_of (bump t s now).1 s ≡ c.count)
unfolding bump
bump_done t s now h = ground (arith, count_of-insert s s (count_of t s + 1) t, slot_beq_iff s s)

increment_sql_mono :
    (now : ℕ) (scope_type scope_key : String) (window : ℕ) (t : Table) (s : Slot)
    → count_of t s ≤ count_of (increment_sql now scope_type scope_key window t).1 s
unfolding increment_sql
increment_sql_mono now scope_type scope_key window t s =
    elim (Option-cases (sql_window_start now window)) [
      | inl e ↦ rw (e, increment_sql) (omega arith)
      | inr (w, e) ↦
          rw (e, increment_sql) (ground (arith, bump_mono t (slot scope_type scope_key w) s now))
    ]

increment_sql_done :
    (now : ℕ) (scope_type scope_key : String) (window : ℕ) (t : Table) {c : Counted}
    → (increment_sql now scope_type scope_key window t).0 ≡ done c
    → let s = slot scope_type scope_key c.window_start in
      (c.count ≡ count_of t s + 1)
      × (count_of (increment_sql now scope_type scope_key window t).1 s ≡ c.count)
unfolding increment_sql
increment_sql_done now scope_type scope_key window t {c} h =
    elim (Option-cases (sql_window_start now window)) [
      | inl e ↦ cc
      | inr (w, e) ↦ ground (arith, bump_done t (slot scope_type scope_key w) now {c = c})
    ]

-- A statement never lowers a count.
pub increment_mono :
    (r : Reply) (scope_type scope_key : String) (window : ℕ) (t : Table) (s : Slot)
    → count_of t s ≤ count_of (increment r scope_type scope_key window t).1 s
unfolding increment
increment_mono (answered now) scope_type scope_key window t s =
    increment_sql_mono now scope_type scope_key window t s
increment_mono (lost now e) scope_type scope_key window t s =
    increment_sql_mono now scope_type scope_key window t s
increment_mono (unsent e) scope_type scope_key window t s = omega arith

-- A result is the new count of its row, one more than the old.
pub increment_done :
    (r : Reply) (scope_type scope_key : String) (window : ℕ) (t : Table) {c : Counted}
    → (increment r scope_type scope_key window t).0 ≡ done c
    → let s = slot scope_type scope_key c.window_start in
      (c.count ≡ count_of t s + 1)
      × (count_of (increment r scope_type scope_key window t).1 s ≡ c.count)
unfolding increment
increment_done (answered now) scope_type scope_key window t h =
    increment_sql_done now scope_type scope_key window t h
increment_done (lost now e) scope_type scope_key window t h = cc
increment_done (unsent e) scope_type scope_key window t h = cc

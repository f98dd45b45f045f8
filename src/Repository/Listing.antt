-- ===== src/Repository/Listing.antt =====
-- The lists of the two repositories of store.go.
use mathlib.Core.List.{Perm, Permᴰ}
use go_basics.Common.{
  ◌≤◌, ◌≡◌, refl, sym, subst, true, false, none, List, All, inl, inr, arith, Bool-cases, select,
  take, length, length-take,
}
use go_basics.Common.Int.{ℤ, pos, ◌≤ℤ◌, ◌<ℤ◌, ltb_ℤ, int_beq_iff, pos_part}
use go_basics.Common.Sorting.{
  sorted, IsOrdered, sorted-IsOrdered, sorted-Permᴰ, sorted-All, take-IsOrdered, take-All,
  select-All,
}
use go_basics.Repository.{Task, ok, TaskFilter}
use go_basics.Repository.Sql.{Table, may_precede, matches}
use go_basics.Repository.Sql
use go_basics.Repository.Memory.{MemTaskRepo, is_listed}
use go_basics.Repository.Memory
use go_basics.Repository.Agreement.{IsSame}

may_precede-total : (a b : ℤ × Task) → may_precede a b ≡ false → may_precede b a ≡ true
unfolding may_precede
may_precede-total a b h =
    ground (arith, int_beq_iff a.1.priority b.1.priority, int_beq_iff b.1.priority a.1.priority)

-- The table's list has only rows that match the filter, each before those that the order puts after it, and
-- at most as many as the limit, if that is above 0.
pub list-IsOrdered :
    (f : TaskFilter) (t : Table)
    → (rows : List (ℤ × Task)) × (Sql.list false f t ≡ ok rows)
      × IsOrdered may_precede rows
      × All (λ row. matches f row ≡ true) rows
      × (pos 0 <ℤ f.limit → length rows ≤ pos_part f.limit)
unfolding Sql.list
list-IsOrdered f t =
    let rows = sorted may_precede (select (matches f) t.rows) in
    let sound = sorted-IsOrdered may_precede may_precede-total (select (matches f) t.rows) in
    let fit =
      sorted-All may_precede (λ row. matches f row ≡ true) (select (matches f) t.rows)
        (select-All (matches f) t.rows) in
    elim (Bool-cases (ltb_ℤ (pos 0) f.limit)) [
      | inl bounded ↦ (
        take (pos_part f.limit) rows,
        ground arith,
        take-IsOrdered may_precede (pos_part f.limit) rows sound,
        take-All (λ row. matches f row ≡ true) (pos_part f.limit) rows fit,
        λ h. length-take (pos_part f.limit) rows,
      )
      | inr all ↦ (rows, ground arith, sound, fit, λ h. absurd (ground arith))
    ]

is_listed-matches :
    (f : TaskFilter) (row : ℤ × Task) → f.max_priority ≡ none → is_listed f row ≡ matches f row
unfolding is_listed matches
is_listed-matches f row h = ground arith

-- Between a table and a map with the same tasks, the lists have the same rows up to their order, where the
-- filter gives no largest priority and no limit above 0.
pub list-Perm :
    (f : TaskFilter) (t : Table) (m : MemTaskRepo)
    → IsSame t m
    → f.max_priority ≡ none
    → f.limit ≤ℤ pos 0
    → (rows rows' : List (ℤ × Task)) × (Sql.list false f t ≡ ok rows)
      × (Memory.list f m ≡ ok rows')
      × Perm rows rows'
unfolding Sql.list Memory.list
list-Perm f t m same unbounded all = (
  sorted may_precede (select (matches f) t.rows),
  select (is_listed f) m.tasks,
  ground arith,
  refl,
  ∣ subst (λ p. Permᴰ (sorted may_precede (select (matches f) t.rows)) (select p m.tasks))
      (sym (λ i row. is_listed-matches f row unbounded i))
      (subst (λ ts. Permᴰ (sorted may_precede (select (matches f) t.rows)) (select (matches f) ts))
        same.stored (sorted-Permᴰ may_precede (select (matches f) t.rows))) ∣₁,
)
